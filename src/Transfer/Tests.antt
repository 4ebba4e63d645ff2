-- ===== src/Transfer/Tests.antt =====
-- A transfer of three bytes in two subpackets, to a peer that is full duplex.
use go_zmodem.Prelude.{◌≡◌, refl, arith, inl, inr, ◌+◌, true, false, [], ◌∷◌, ◌++◌, Bytes}
use go_zmodem.Prelude.Int.{pos}
use go_zmodem.Monad.{ok}
use go_zmodem.Constants.{standard}
use go_zmodem.Bufio.Input
use go_zmodem.Reader.{peek_for_zpad}
use go_zmodem.FileInfo.{FileOffer}
use go_zmodem.Session.{zero_config}
use go_zmodem.Sender.{Sending, stx_eof}
use go_zmodem.Sender.Stream
use go_zmodem.Sender.Run.{sending}
use go_zmodem.Receiver.{Receiving}
use go_zmodem.Receiver.Data
use go_zmodem.Receiver.Data.{srx_data}
use go_zmodem.Receiver.FileWait.{receiving}
use go_zmodem.Receiver.Grew.{file_of}
use go_zmodem.Transfer.{frame_of, transfer_frame}
use go_zmodem.Bufio.Input.{Item}
use go_zmodem.Constants.{xon}
use go_zmodem.Reader.Decode.{Carries}
use go_zmodem.FileInfo.{marshal_file_info}
use go_zmodem.FileInfo.RoundTrip.{told}
use go_zmodem.Session.{accept}
use go_zmodem.Sender.{stx_file_info_ack, stx_data}
use go_zmodem.Sender.Run.{file_info_step, file_info_ack_step}
use go_zmodem.Receiver.Data.{srx_file_accept}
use go_zmodem.Receiver.FileWait.{file_wait_step, file_accept_step}
use go_zmodem.Transfer.{sent_by}
use go_zmodem.Transfer.Info.{transfer_info}
use go_zmodem.Transfer.Accept.{answered_by, transfer_accept}
use go_zmodem.Sender.Silent.{remaining}
use go_zmodem.Source.Cuts.{IsUnbroken}
use go_zmodem.Text.{format_int, format_uint, digits, replace_all, to_lower}
use go_zmodem.Prelude.{none}
use go_zmodem.Frame.Encode.{hex_wire}
use go_zmodem.Session.{closed, file_completed}
use go_zmodem.Sender.{stx_eof_ack}
use go_zmodem.Sender.Run
use go_zmodem.Receiver.{zrinit_header}
use go_zmodem.Receiver.Data.{srx_eof, srx_file_wait}
use go_zmodem.Receiver.FileWait
use go_zmodem.Receiver.FileWait.{no_info}
use go_zmodem.Transfer.End.{transfer_eof}
use go_zmodem.Samples.{sample_world}
use go_zmodem.Samples.{items_of, items_of-Carries, session_with}

abbrev file : Bytes
file = 0x18 ∷ 0x41 ∷ 0x11 ∷ 0xff ∷ []

abbrev offer : FileOffer
offer = record {
  name = 0x61 ∷ [];
  size = pos 4;
  mod_time = pos 0;
  mode = 0;
  reader = record { content = file; at = 1; seekable = true; answers = []; seek_answers = [] };
}

abbrev sender : Sending
sender =
    record (sending
      (record (session_with (record zero_config { max_block_size = 2 }) []) { remote_flags = 3 })) {
        cur_offer = offer;
        file_offset = 1;
        bytes_sent = 1;
        block_size = 2;
      }

abbrev receiver : Receiving
receiver = record (receiving (session_with zero_config (items_of (frame_of sender)))) {
  has_writer = true;
  file_offset = 1;
  bytes_received = 1;
}

transfer_frame_example :
    (t : Sending) × (u : Receiving) × (Stream.data_step sender ≡ ok stx_eof t)
    × (Data.data_step receiver ≡ ok srx_data u)
    × (file_of u ≡ file_of receiver ++ (0x41 ∷ 0x11 ∷ 0xff ∷ []))
    × (u.file_offset ≡ t.file_offset)
    × (t.file_offset ≡ 1 + 3)
    × (u.session.tr.input ≡ [])
transfer_frame_example =
    transfer_frame standard sender receiver
      (record {
        live = refl;
        quiet = unfold peek_for_zpad Input.buffered in refl;
        no_window = refl;
        no_flush = refl;
        healthy = record { not_broken = refl; unlimited = refl };
        unbroken = unfold IsUnbroken in tt;
        some_block = omega arith;
        fits = omega arith;
      })
      (inr (refl, omega arith)) refl refl (omega arith)
      (record {
        live = refl;
        takes = refl;
        unguarded = refl;
        compatible = refl;
        no_fall_back = refl;
      })
      refl (omega arith) (inl refl) (omega arith) (items_of-Carries false (frame_of sender))

-- The offer of the file, in front of a receiver that waits.
abbrev offering : Sending
offering = record (sending (session_with zero_config [])) { cur_offer = offer }

abbrev waiting : Receiving
waiting =
    receiving (session_with zero_config (items_of (sent_by offering (file_info_step offering))))

abbrev metadata : Bytes
metadata = 0x61 ∷ 0 ∷ b'4' ∷ 32 ∷ b'0' ∷ 32 ∷ b'0' ∷ 32 ∷ b'0' ∷ 0 ∷ []

offered : marshal_file_info offer (pos 0) (pos 0) ≡ metadata
unfolding marshal_file_info format_int format_uint digits replace_all to_lower
offered = refl

transfer_info_example :
    (t : Sending) × (u : Receiving) × (file_info_step offering ≡ ok stx_file_info_ack t)
    × (file_wait_step waiting ≡ ok srx_file_accept u)
    × (u.cur_info ≡ told offer (pos 0) (pos 0))
    × (u.session.use_crc32 ≡ false)
    × Carries false [] (xon ∷ []) u.session.tr.input
transfer_info_example =
    transfer_info standard offering waiting (record { not_broken = refl; unlimited = refl }) refl
      (omega arith) (omega arith) (omega arith) (omega arith) (omega arith)
      (rw offered (omega arith)) refl refl (inl refl)
      (items_of-Carries false (sent_by offering (file_info_step offering)))

-- The file is accepted from its second byte.
abbrev accepting : Receiving
accepting = receiving (record (session_with zero_config []) {
  world = record sample_world { accept_answers = accept 1 ∷ [] };
})

abbrev answered : Sending
answered =
    record (sending (
      session_with (record zero_config { max_retries = 1 })
        (items_of (answered_by accepting (file_accept_step accepting))))) {
          cur_offer = record offer { reader = record offer.reader { at = 0 } };
        }

transfer_accept_example :
    (t : Receiving) × (u : Sending) × (file_accept_step accepting ≡ ok srx_data t)
    × (file_info_ack_step answered ≡ ok stx_data u)
    × (t.has_writer ≡ true)
    × (t.file_offset ≡ 1)
    × (u.file_offset ≡ 1)
    × (u.bytes_sent ≡ 1)
    × (remaining u ≡ 0x41 ∷ 0x11 ∷ 0xff ∷ [])
transfer_accept_example =
    transfer_accept 1 [] accepting answered refl (record { not_broken = refl; unlimited = refl })
      (record {
        live = refl;
        retry_left = omega arith;
        seekable = refl;
        sought = refl;
        at_start = refl;
        within = inr (omega arith);
      })
      (omega arith) (items_of-Carries false (answered_by accepting (file_accept_step accepting)))

-- The end of the file.
abbrev ended : Sending
ended = record sender { file_offset = 4 }

abbrev receiver_at_end : Receiving
receiver_at_end =
    record (receiving (session_with zero_config (items_of (sent_by ended (Run.eof_step ended))))) {
      has_writer = true;
      file_offset = 4;
      bytes_received = 4;
    }

transfer_eof_example :
    (t : Sending) × (u : Receiving) × (v : Receiving) × (Run.eof_step ended ≡ ok stx_eof_ack t)
    × (Data.data_step receiver_at_end ≡ ok srx_eof u)
    × (FileWait.eof_step u ≡ ok srx_file_wait v)
    × (v.session.world.events ≡ closed ∷ file_completed no_info 4 none ∷ [])
    × (v.has_writer ≡ false)
    × (v.session.tw.w.wire ≡ hex_wire (zrinit_header zero_config))
transfer_eof_example =
    transfer_eof ended receiver_at_end (record { not_broken = refl; unlimited = refl })
      (record { not_broken = refl; unlimited = refl }) (omega arith) refl refl
      (items_of-Carries false (sent_by ended (Run.eof_step ended)))
