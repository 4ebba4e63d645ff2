-- ===== src/Transfer/Accept.antt =====
-- `receiver.go` and `sender.go` together: the answer to the offer of a file.
use go_zmodem.Prelude.{
  ◌≡◌, refl, ap, ◌∙◌, arith, ◌⊎◌, ℕ, zero, suc, ◌+◌, ◌^◌, ◌≤◌, ◌<◌, true, false, none, List, [],
  ◌∷◌, ◌++◌, Bytes, length, drop, ltb, leb, if◌then◌else◌,
}
use go_zmodem.Prelude.Int.{pos_part}
use go_zmodem.Monad.{Res, ok, err, not_seekable, final, attempt, ◌>>=◌, zoom}
use go_zmodem.Constants.{zrpos, zhex}
use go_zmodem.Bufio.Input.{Item}
use go_zmodem.Bufio.Output.{IsHealthy, stream}
use go_zmodem.Reader.{Reader, set_data_phase}
use go_zmodem.Reader.Decode.{Carries}
use go_zmodem.Frame.{Header, position, make_pos_header, recv_header}
use go_zmodem.Frame.Encode.{hex_wire, send_hex_header-Sends}
use go_zmodem.Frame.Scan.{scanned}
use go_zmodem.Frame.RoundTrip.{IsHeader}
use go_zmodem.Source.Reads.{seek_lem}
use go_zmodem.Frame.HexRoundTrip.{recv_header_hex}
use go_zmodem.Source
use go_zmodem.Source.{rest_of}
use go_zmodem.Session.{Accept, accept, World, now, now_of, ctx_err, on_world, accept_asked}
use go_zmodem.Sender.{
  Sending, on_source, stx_data, max_tries, recv_header_retry, retry_loop, seek_file,
}
use go_zmodem.Sender.Silent.{remaining}
use go_zmodem.Sender.Run.{file_info_ack_step, on_info_header, start_offset, start_at}
use go_zmodem.Receiver.{Receiving, on_session, start_stall_clock}
use go_zmodem.Receiver.Data.{ReceiverState, srx_data}
use go_zmodem.Receiver.FileWait.{file_accept_step, on_answer, ask}
use go_zmodem.Transfer.{drop-append_all}

-- What a step of the receiver puts on the wire.
abbrev pub answered_by : Receiving → Res Receiving ReceiverState → Bytes
answered_by q res = drop (length (stream q.session.tw.w)) (final res).session.tw.w.wire

abbrev rpos : ℕ → Header
rpos offset = make_pos_header zrpos offset

-- The clock is read, and nothing but the world and the clock of the stall changes.
start_stall_clock_lem :
    (r : Receiving)
    → (w : World) × (t : ℕ) × (on_session start_stall_clock r
        ≡ ok tt (record r { session = record r.session { world = w; last_progress_at = t } }))
unfolding start_stall_clock now
start_stall_clock_lem r = go r.session.world.ticks
  where
    go :
        (ticks : List ℕ)
        → (w : World) × (t : ℕ) × (on_session
              (on_world (now_of ticks) >>= λ t s. ok tt (record s { last_progress_at = t }))
              r
            ≡ ok tt (record r { session = record r.session { world = w; last_progress_at = t } }))
    go [] = (r.session.world, r.session.world.time, refl)
    go (t ∷ ts) = (
      record r.session.world { time = r.session.world.time + t; ticks = ts },
      r.session.world.time + t,
      refl,
    )

-- The receiver has accepted from `offset`, and has said so.
record Accepts (offset : ℕ) (q : Receiving) : Type 0 where
  after : Receiving
  returns : file_accept_step q ≡ ok srx_data after
  has_writer : after.has_writer ≡ true
  at_offset : after.file_offset ≡ offset
  on_wire : after.session.tw.w.wire ≡ stream q.session.tw.w ++ hex_wire (rpos offset)

file_accept_step-Accepts :
    (offset : ℕ) (more : List Accept) (q : Receiving)
    → q.session.world.accept_answers ≡ accept offset ∷ more
    → IsHealthy q.session.tw.w
    → Accepts offset q
unfolding file_accept_step on_answer ask
file_accept_step-Accepts offset more q answers healthy =
    let asked = record q {
      session = record q.session {
        world = record q.session.world {
          events = q.session.world.events ++ accept_asked q.cur_info ∷ [];
          accept_answers = more;
        };
      };
      has_writer = true;
      file_offset = offset;
      bytes_received = offset;
      retries = 0;
    } in
    let (w, t, clocked) = start_stall_clock_lem asked in
    let x = send_hex_header-Sends (rpos offset) q.session.tw healthy in
    record {
      after = record asked {
        session = record asked.session {
          tw = x.after;
          tr = set_data_phase true q.session.tr;
          world = w;
          last_progress_at = t;
        };
      };
      returns = rw answers (rw (clocked, ◌>>=◌) (rw (x.returns, ◌>>=◌, zoom) refl));
      has_writer = refl;
      at_offset = refl;
      on_wire = x.on_wire;
    }

-- The sender waits for the answer to its offer: the context is live, a retry is left, and the file
-- can be brought to any offset without an error.
pub record IsOffering (offset : ℕ) (r : Sending) : Type 0 where
  pub live : r.session.world.live_for ≡ none
  pub retry_left : r.retries < max_tries r
  pub seekable : r.cur_offer.reader.seekable ≡ true
  pub sought : r.cur_offer.reader.seek_answers ≡ []
  pub at_start : r.cur_offer.reader.at ≡ 0
  pub within : (pos_part r.cur_offer.size ≡ 0) ⊎ (offset ≤ pos_part r.cur_offer.size)

recv_header_retry_lem :
    (r : Sending) (h : Header) (tr : Reader)
    → r.session.world.live_for ≡ none
    → r.retries < max_tries r
    → recv_header r.session.tr ≡ ok h tr
    → recv_header_retry r ≡ ok h (record r { session = record r.session { tr = tr } })
unfolding recv_header_retry retry_loop ctx_err
recv_header_retry_lem r h tr live left read =
    let some : leb (max_tries r) r.retries ≡ false = ground arith in
    rw some (rw live (rw (read, ◌>>=◌, zoom, attempt) refl))

rpos-IsHeader : (offset : ℕ) → IsHeader (rpos offset)
unfolding make_pos_header
rpos-IsHeader offset = omega arith

position_lem : (enc pos : ℕ) → pos < 2 ^ 32 → position (record (rpos pos) { encoding = enc }) ≡ pos
unfolding position make_pos_header
position_lem enc pos low = omega arith

start_offset_lem :
    (r : Sending) (offset : ℕ)
    → (pos_part r.cur_offer.size ≡ 0) ⊎ (offset ≤ pos_part r.cur_offer.size)
    → start_offset r.cur_offer offset ≡ offset
start_offset_lem r offset within = ground arith

-- Where the file is streamed from.
abbrev started : ℕ → Sending → Sending
started offset r = record r {
  cur_offer = record r.cur_offer { reader = record r.cur_offer.reader { at = offset } };
  file_offset = offset;
  bytes_sent = offset;
}

seek_file_lem :
    (offset : ℕ) (r : Sending)
    → r.cur_offer.reader.seekable ≡ true
    → r.cur_offer.reader.seek_answers ≡ []
    → seek_file offset r
      ≡ ok tt (record r {
        cur_offer = record r.cur_offer { reader = record r.cur_offer.reader { at = offset } };
      })
unfolding seek_file
seek_file_lem offset r seekable sought =
    ap (λ b. if b then on_source (Source.seek offset) r else err not_seekable r) seekable
    ∙ rw (seek_lem offset r.cur_offer.reader sought, on_source, zoom) refl

start_at_lem :
    (offset : ℕ) (r : Sending)
    → IsOffering offset r
    → start_at offset r ≡ ok stx_data (started offset r)
unfolding start_at
start_at_lem zero r s =
    ap
      (λ at. ok stx_data (record (started 0 r) {
        cur_offer = record r.cur_offer { reader = record r.cur_offer.reader { at = at } };
      }))
      s.at_start
start_at_lem (suc n) r s =
    let some : ltb 0 (suc n) ≡ true = ground arith in
    let here = record r { file_offset = suc n } in
    rw some (rw (seek_file_lem (suc n) here s.seekable s.sought, attempt, ◌>>=◌) refl)

file_info_ack_step_lem :
    (offset : ℕ) (r : Sending) (tr : Reader)
    → IsOffering offset r
    → offset < 2 ^ 32
    → recv_header r.session.tr ≡ ok (record (rpos offset) { encoding = zhex }) tr
    → file_info_ack_step r
      ≡ ok stx_data (started offset (record r { session = record r.session { tr = tr } }))
unfolding file_info_ack_step on_info_header make_pos_header
file_info_ack_step_lem offset r tr s low read =
    let h = record (rpos offset) { encoding = zhex } in
    let there = record r { session = record r.session { tr = tr } } in
    let silent : IsOffering offset there = record {
      live = s.live;
      retry_left = s.retry_left;
      seekable = s.seekable;
      sought = s.sought;
      at_start = s.at_start;
      within = s.within;
    } in
    rw (recv_header_retry_lem r h tr s.live s.retry_left read, ◌>>=◌)
      (ap (λ n. start_at (start_offset r.cur_offer n) there) (position_lem zhex offset low)
        ∙ ap (λ n. start_at n there) (start_offset_lem r offset s.within)
        ∙ start_at_lem offset there silent)

-- The answer of a receiver whose application accepts the file from an offset brings the sender, if
-- it is delivered those bytes in pieces of any size, to the data of the file: both are at that
-- offset, and the sender's reader stands in front of the bytes from there on. The conditions: the
-- transport takes the bytes, a retry is left to the sender, the context is live, the file's
-- reader is at its start (the code does not seek for an offset of 0) and can be brought to the offset
-- without an error, the offset fits the header, and it does not exceed the
-- size that the sender announced, if that is positive.
pub transfer_accept :
    (offset : ℕ) (more : List Accept) (q : Receiving) (r : Sending) {rest : List Item}
    → q.session.world.accept_answers ≡ accept offset ∷ more
    → IsHealthy q.session.tw.w
    → IsOffering offset r
    → offset < 2 ^ 32
    → Carries false rest (answered_by q (file_accept_step q)) r.session.tr.input
    → (t : Receiving) × (u : Sending) × (file_accept_step q ≡ ok srx_data t)
      × (file_info_ack_step r ≡ ok stx_data u)
      × (t.has_writer ≡ true)
      × (t.file_offset ≡ offset)
      × (u.file_offset ≡ offset)
      × (u.bytes_sent ≡ offset)
      × (remaining u ≡ drop offset r.cur_offer.reader.content)
transfer_accept offset more q r {rest} answers healthy s low c =
    let x = file_accept_step-Accepts offset more q answers healthy in
    let sent : answered_by q (file_accept_step q) ≡ hex_wire (rpos offset) =
      ap (answered_by q) x.returns
      ∙ ap (drop (length (stream q.session.tw.w))) x.on_wire
      ∙ drop-append_all (stream q.session.tw.w) _ in
    let (left, read, more) =
      recv_header_hex (rpos offset) [] r.session.tr (rpos-IsHeader offset) tt (omega arith)
        (rw sent at c) in
    let there = record r { session = record r.session { tr = scanned r.session.tr left } } in
    (
      x.after,
      started offset there,
      x.returns,
      file_info_ack_step_lem offset r (scanned r.session.tr left) s low read,
      x.has_writer,
      x.at_offset,
      refl,
      refl,
      refl,
    )
