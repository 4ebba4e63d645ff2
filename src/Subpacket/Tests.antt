-- ===== src/Subpacket/Tests.antt =====
-- The subpackets' theorems at one subpacket, and a run with pieces and flow control.
use go_zmodem.Prelude.{
  ◌≡◌, refl, arith, ℕ, ◌≤◌, false, true, some, [], ◌∷◌, ◌++◌, Bytes, length, ◌==◌,
}
use go_zmodem.Monad.{ok}
use go_zmodem.Constants.{zcrcw, zcrcg, zcrce, standard}
use go_zmodem.Escape.{build_escape_table}
use go_zmodem.Writer.Encode.{Sends}
use go_zmodem.Reader.Decode.{decoded}
use go_zmodem.Frame.Encode.{xon_of}
use go_zmodem.Subpacket.{sum16, send_subpacket, recv_subpacket, detect_merged_subpacket}
use go_zmodem.Subpacket.Encode.{subpacket_wire, send_subpacket-Sends}
use go_zmodem.Subpacket.RoundTrip.{recv_subpacket_lem}
use go_zmodem.Subpacket.Merge.{orphan, detect_merged_subpacket-orphan}
use go_zmodem.Reader.Total.{Below}
use go_zmodem.Subpacket.Total.{recv_subpacket-Below}
use go_zmodem.Samples.{items_of, reader_of, writer_of, items_of-Carries}

abbrev sample : Bytes
sample = 0x18 ∷ 0x41 ∷ 0x11 ∷ 0x0d ∷ []

abbrev sample_wire : Bytes
sample_wire = subpacket_wire (build_escape_table standard) 0 false sample zcrcw

recv_subpacket_lem_example :
    recv_subpacket false 1024 (reader_of (items_of sample_wire))
    ≡ ok (sample, zcrcw) (decoded (reader_of (items_of sample_wire)) [])
recv_subpacket_lem_example =
    recv_subpacket_lem standard false 1024 sample zcrcw 0 (reader_of (items_of sample_wire))
      (omega arith) refl (omega arith) refl refl (items_of-Carries true sample_wire)

send_subpacket-Sends_example :
    Sends
      (send_subpacket false sample zcrcw)
      (writer_of standard)
      (sample_wire ++ xon_of (zcrcw == zcrcw))
send_subpacket-Sends_example =
    send_subpacket-Sends false sample zcrcw (writer_of standard)
      (record { not_broken = refl; unlimited = refl })

detect_merged_subpacket-orphan_example :
    (sum16 (orphan sample zcrcg ++ sample) zcrce ≡ sum16 sample zcrce)
    × (j : ℕ) × (detect_merged_subpacket (orphan sample zcrcg ++ sample) ≡ some j)
    × (1 ≤ j)
    × (j ≤ length sample)
detect_merged_subpacket-orphan_example =
    detect_merged_subpacket-orphan 0x18 (0x41 ∷ 0x11 ∷ 0x0d ∷ []) sample zcrcg zcrce refl

recv_subpacket-Below_example :
    Below
      (length (items_of sample_wire))
      (recv_subpacket true 1024 (reader_of (items_of sample_wire)))
recv_subpacket-Below_example = recv_subpacket-Below true 1024 (reader_of (items_of sample_wire))
