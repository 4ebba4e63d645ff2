-- ===== src/Frame/Tests.antt =====
-- The headers' theorems at one header, and runs of the decoder.
use go_zmodem.Prelude.{◌≡◌, ◌⊎◌, refl, arith, ℕ, true, false, List, [], ◌∷◌, ◌++◌}
use go_zmodem.Monad.{ok}
use go_zmodem.Constants.{zpad, zdle, zbin32, zhex, xon, standard}
use go_zmodem.Escape.{build_escape_table}
use go_zmodem.Bufio.Input.{Item}
use go_zmodem.Writer.Encode.{escaped, Sends}
use go_zmodem.Reader.Decode.{Carries, done, next}
use go_zmodem.Frame.{send_hex_header, send_bin_header, recv_header}
use go_zmodem.Frame.Encode.{
  with_crc, hex_wire, bin_wire, send_hex_header-Sends, send_bin_header-Sends,
}
use go_zmodem.Frame.Scan.{scanned}
use go_zmodem.Frame.RoundTrip.{recv_header_bin}
use go_zmodem.Frame.HexRoundTrip.{recv_header_hex}
use go_zmodem.Reader.Total.{Below}
use go_zmodem.Frame.Total.{recv_header-Below}
use go_zmodem.Samples.{items_of, reader_of, writer_of, items_of-Carries, sample_header}

abbrev noise : List ℕ
noise = 0x11 ∷ 0x0d ∷ []

abbrev body : List Item
body = items_of (escaped (build_escape_table standard) zbin32 (with_crc true sample_header))

recv_header_bin_example :
    recv_header (reader_of (items_of (noise ++ (zpad ∷ zdle ∷ zbin32 ∷ [])) ++ body))
    ≡ ok
        (record sample_header { encoding = zbin32 })
        (scanned (reader_of (items_of (noise ++ (zpad ∷ zdle ∷ zbin32 ∷ [])) ++ body)) [])
recv_header_bin_example =
    recv_header_bin standard true sample_header noise
      (reader_of (items_of (noise ++ (zpad ∷ zdle ∷ zbin32 ∷ [])) ++ body)) {mid = body}
      (omega arith) refl (omega arith) (omega arith) (next (next (next (next (next done)))))
      (items_of-Carries true
        (escaped (build_escape_table standard) zbin32 (with_crc true sample_header)))

recv_header_hex_example :
    (left : List Item) × (recv_header (reader_of (items_of (noise ++ hex_wire sample_header)))
      ≡ ok
          (record sample_header { encoding = zhex })
          (scanned (reader_of (items_of (noise ++ hex_wire sample_header))) left))
    × ((left ≡ []) ⊎ Carries false [] (xon ∷ []) left)
recv_header_hex_example =
    recv_header_hex sample_header noise (reader_of (items_of (noise ++ hex_wire sample_header)))
      (omega arith) (omega arith) (omega arith)
      (items_of-Carries false (noise ++ hex_wire sample_header))

send_hex_header-Sends_example :
    Sends (send_hex_header sample_header) (writer_of standard) (hex_wire sample_header)
send_hex_header-Sends_example =
    send_hex_header-Sends sample_header (writer_of standard)
      (record { not_broken = refl; unlimited = refl })

send_bin_header-Sends_example :
    Sends
      (send_bin_header true sample_header)
      (writer_of standard)
      (bin_wire (build_escape_table standard) true sample_header)
send_bin_header-Sends_example =
    send_bin_header-Sends true sample_header (writer_of standard)
      (record { not_broken = refl; unlimited = refl })

recv_header-Below_example : Below 3 (recv_header (reader_of (items_of (0x2a ∷ 0x18 ∷ 0x41 ∷ []))))
recv_header-Below_example = recv_header-Below (reader_of (items_of (0x2a ∷ 0x18 ∷ 0x41 ∷ [])))
