-- ===== src/Transfer/End.antt =====
-- `sender.go` and `receiver.go` together: the end of a file.
use go_zmodem.Prelude.{
  ◌≡◌, refl, sym, ap, ◌∙◌, arith, ℕ, ◌^◌, ◌<◌, true, false, none, List, [], ◌∷◌, ◌++◌, append_assoc,
  length, drop, ◌==◌, ==_iff,
}
use go_zmodem.Monad.{ok, attempt, ◌>>=◌, zoom}
use go_zmodem.Constants.{zeof, zhex}
use go_zmodem.Bufio.Input.{Item}
use go_zmodem.Bufio.Output.{IsHealthy, stream}
use go_zmodem.Reader.{Reader}
use go_zmodem.Reader.Decode.{Carries}
use go_zmodem.Frame.{Header, position, make_pos_header, recv_header}
use go_zmodem.Frame.Encode.{hex_wire, send_hex_header-Sends}
use go_zmodem.Frame.Scan.{scanned}
use go_zmodem.Frame.RoundTrip.{IsHeader}
use go_zmodem.Frame.HexRoundTrip.{recv_header_hex}
use go_zmodem.Session.{closed, file_completed}
use go_zmodem.Sender.{Sending, stx_eof_ack}
use go_zmodem.Sender.Run
use go_zmodem.Receiver.{Receiving, zrinit_header, send_zrinit, close_writer}
use go_zmodem.Receiver.Data.{srx_eof, srx_file_wait, data_step, on_data_header, on_zeof}
use go_zmodem.Receiver.FileWait
use go_zmodem.Transfer.{sent_by, drop-append_all}

abbrev eof_header : ℕ → Header
eof_header offset = make_pos_header zeof offset

eof_header-IsHeader : (offset : ℕ) → IsHeader (eof_header offset)
unfolding make_pos_header
eof_header-IsHeader offset = omega arith

position_lem :
    (enc offset : ℕ)
    → offset < 2 ^ 32
    → position (record (eof_header offset) { encoding = enc }) ≡ offset
unfolding position make_pos_header
position_lem enc offset low = omega arith

eof_step-Sends :
    (r : Sending)
    → IsHealthy r.session.tw.w
    → (t : Sending) × (Run.eof_step r ≡ ok stx_eof_ack t)
      × (t.session.tw.w.wire ≡ stream r.session.tw.w ++ hex_wire (eof_header r.file_offset))
unfolding Run.eof_step
eof_step-Sends r healthy =
    let x = send_hex_header-Sends (eof_header r.file_offset) r.session.tw healthy in
    (
      record r { session = record r.session { tw = x.after } },
      rw (x.returns, ◌>>=◌, zoom) refl,
      x.on_wire,
    )

-- A ZEOF at the write offset ends the file.
data_step_eof :
    (q : Receiving) (offset : ℕ) (tr : Reader)
    → offset < 2 ^ 32
    → q.file_offset ≡ offset
    → recv_header q.session.tr ≡ ok (record (eof_header offset) { encoding = zhex }) tr
    → data_step q
      ≡ ok srx_eof (record q { session = record q.session { tr = tr }; consecutive_err = 0 })
unfolding data_step on_data_header on_zeof make_pos_header
data_step_eof q offset tr low same read =
    let here : (position (record (eof_header offset) { encoding = zhex }) == q.file_offset) ≡ true =
      (==_iff _ q.file_offset).1 (position_lem zhex offset low ∙ sym same) in
    rw (read, zoom, attempt, ◌>>=◌) (rw here refl)

-- The writer is closed, the application is told, and the peer is asked for the next file.
eof_step-Completes :
    (q : Receiving)
    → q.has_writer ≡ true
    → IsHealthy q.session.tw.w
    → (v : Receiving) × (FileWait.eof_step q ≡ ok srx_file_wait v)
      × (v.session.world.events
          ≡ q.session.world.events ++ closed ∷ file_completed q.cur_info q.bytes_received none ∷ [])
      × (v.has_writer ≡ false)
      × (v.session.tw.w.wire ≡ stream q.session.tw.w ++ hex_wire (zrinit_header q.session.cfg))
unfolding FileWait.eof_step close_writer send_zrinit
eof_step-Completes q opened healthy =
    let x = send_hex_header-Sends (zrinit_header q.session.cfg) q.session.tw healthy in
    let told = file_completed q.cur_info q.bytes_received none in
    let events = (q.session.world.events ++ closed ∷ []) ++ told ∷ [] in
    (
      record q {
        session = record q.session {
          tw = x.after;
          world = record q.session.world { events = events };
        };
        has_writer = false;
      },
      rw opened (rw (x.returns, ◌>>=◌, zoom) refl),
      append_assoc q.session.world.events (closed ∷ []) (told ∷ []),
      refl,
      x.on_wire,
    )

-- The sender's ZEOF behind the data of a file brings a receiver at the same offset, if it is
-- delivered those bytes in pieces of any size, to the end of its file: its next two rounds close
-- the writer, then tell the application once that the file is complete, without an error, and ask
-- the sender for the next file by ZRINIT. The conditions: both transports take the bytes, the
-- receiver has a writer, and the offset fits the header.
pub transfer_eof :
    (r : Sending) (q : Receiving) {rest : List Item}
    → IsHealthy r.session.tw.w
    → IsHealthy q.session.tw.w
    → r.file_offset < 2 ^ 32
    → q.file_offset ≡ r.file_offset
    → q.has_writer ≡ true
    → Carries false rest (sent_by r (Run.eof_step r)) q.session.tr.input
    → (t : Sending) × (u : Receiving) × (v : Receiving) × (Run.eof_step r ≡ ok stx_eof_ack t)
      × (data_step q ≡ ok srx_eof u)
      × (FileWait.eof_step u ≡ ok srx_file_wait v)
      × (v.session.world.events
          ≡ q.session.world.events ++ closed ∷ file_completed q.cur_info q.bytes_received none ∷ [])
      × (v.has_writer ≡ false)
      × (v.session.tw.w.wire ≡ stream q.session.tw.w ++ hex_wire (zrinit_header q.session.cfg))
transfer_eof r q {rest} healthy healthy' low same opened c =
    let (t, sends, on_wire) = eof_step-Sends r healthy in
    let sent : sent_by r (Run.eof_step r) ≡ hex_wire (eof_header r.file_offset) =
      ap (sent_by r) sends
      ∙ ap (drop (length (stream r.session.tw.w))) on_wire
      ∙ drop-append_all (stream r.session.tw.w) _ in
    let (left, read, more) =
      recv_header_hex (eof_header r.file_offset) [] q.session.tr (eof_header-IsHeader r.file_offset)
        tt (omega arith) (rw sent at c) in
    let tr = scanned q.session.tr left in
    let u = record q { session = record q.session { tr = tr }; consecutive_err = 0 } in
    let (v, completes, events, dropped, asks) = eof_step-Completes u opened healthy' in
    (
      t,
      u,
      v,
      sends,
      data_step_eof q r.file_offset tr low same read,
      completes,
      events,
      dropped,
      asks,
    )
