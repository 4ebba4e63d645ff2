-- ===== src/Sender/BlockSize/Stream.antt =====
-- `sender.go`: the block size through the state `stxData`.
use go_zmodem.Prelude.{
  arith, ℕ, zero, suc, ◌+◌, ◌-◌, ◌*◌, Bool, ◌&&◌, [], ◌∷◌, Bytes, length, ltb, leb, ◌==◌,
  if◌then◌else◌,
}
use go_zmodem.Monad.{
  ok, err, M, pure, fail, attempt, Either, good, bad, ◌>>=◌, ◌>>◌, Error, final, wrapped,
  flush_timeout, window_timeout, response_timeout, stale_acks, unexpected_frames, out_of_range,
}
use go_zmodem.Constants.{zack, zrpos, zcrce, zcrcq, zcrcw}
use go_zmodem.Reader.{peek_for_zpad}
use go_zmodem.Source
use go_zmodem.Source.{ReadEnd, more_to_come, end_of_file, read_error}
use go_zmodem.Frame.{Header, position, make_pos_header, send_bin_header_with_znulls}
use go_zmodem.Constants.{zdata}
use go_zmodem.Session.{file_progress}
use go_zmodem.Sender.{
  SenderState, stx_eof, Sending, on_source, send_data, check_context, next_header, max_tries,
  resume_at,
}
use go_zmodem.Sender.Stream
use go_zmodem.Sender.Stream.{
  Turn, go_on, again, leave, ◌then_turn◌, acked, restart, on_sampled, is_abort_received, on_sample,
  sample_reverse, answered, on_response, solicit_again, on_awaited, response_loop, await_response,
  window_is_full, window_end_type, check_window, control_window, is_end_of_file, end_type_of,
  count_block, flushed, wait_again, on_flush_header, on_flush_read, flush_loop, await_flush,
  await_ack, good_needed, at_most, adapt_block_size, report_progress, end_block, send_typed,
  on_block, send_block, stream_round, turn_on, stream_loop, begin_frame, send_zdata, stream_fuel,
  data_step,
}
use go_zmodem.Sender.BlockSize.{
  Sized, Safe, bind-Safe, if-Safe, Sized-if, attempt-Safe, on_wire-Safe, on_source-Safe,
  send_data-Safe, report-Safe, check_context-Safe, next_header-Safe, resume_at-Safe,
}

header_read-Safe : Safe (attempt next_header)
header_read-Safe = attempt-Safe next_header next_header-Safe

pub then_turn-Safe : (m k : M Sending Turn) → Safe m → Safe k → Safe (m then_turn k)
then_turn-Safe m k safe safe' = bind-Safe m (Stream.behind k) safe turned
  where
    turned : (t : Turn) → Safe (Stream.behind k t)
    turned go_on r s = safe' r s
    turned again r s = s
    turned (leave st) r s = s

restart-Safe : (offset : ℕ) → Safe (restart offset)
restart-Safe offset = bind-Safe (resume_at offset) _ (resume_at-Safe offset) (λ _ r s. s)

on_sampled-Safe : (h : Header) → Safe (on_sampled h)
unfolding on_sampled
on_sampled-Safe h =
    if-Safe (h.frame_type == zrpos) (restart (position h)) _ (restart-Safe (position h)) (
      if-Safe (h.frame_type == zack) (acked (position h) >> pure go_on) (pure go_on)
        (λ r s. record { least = s.least; fits = s.fits }) (λ r s. s))

on_sample-Safe : (x : Either Header) → Safe (on_sample x)
on_sample-Safe (good h) = on_sampled-Safe h
on_sample-Safe (bad e) = if-Safe (is_abort_received e) (fail e) (pure go_on) (λ r s. s) (λ r s. s)

pub sample_reverse-Safe : Safe sample_reverse
unfolding sample_reverse
sample_reverse-Safe r s =
    Sized-if (peek_for_zpad r.session.tr) ((attempt next_header >>= on_sample) r) (ok go_on r)
      (bind-Safe (attempt next_header) on_sample header_read-Safe on_sample-Safe r s) s

on_response-Safe : (end_type : ℕ) (h : Header) → Safe (on_response end_type h)
unfolding on_response
on_response-Safe end_type h =
    if-Safe (h.frame_type == zack) (acked (position h) >> pure (answered end_type)) _
      (λ r s. record { least = s.least; fits = s.fits })
      (if-Safe (h.frame_type == zrpos) (restart (position h)) (pure (answered end_type))
        (restart-Safe (position h)) (λ r s. s))

on_awaited-Safe :
    (e : Error) (end_type tries : ℕ) (more : M Sending Turn) (x : Either Header)
    → Safe more
    → Safe (on_awaited e end_type tries more x)
on_awaited-Safe e end_type tries more (good h) safe r s = on_response-Safe end_type h r s
on_awaited-Safe e end_type tries more (bad f) safe r s =
    Sized-if (leb (max_tries r) (suc tries)) (err e r) ((send_data [] end_type >> more) r) s
      (bind-Safe (send_data [] end_type) (λ _. more) (send_data-Safe [] end_type) (λ _. safe) r s)

response_loop-Safe :
    (fuel : ℕ) (e : Error) (end_type tries : ℕ) → Safe (response_loop fuel e end_type tries)
unfolding response_loop
response_loop-Safe zero e end_type tries r s = s
response_loop-Safe (suc fuel) e end_type tries r s =
    let more = response_loop fuel e end_type (suc tries) in
    bind-Safe (attempt next_header) (on_awaited e end_type tries more) header_read-Safe
      (λ x.
        on_awaited-Safe e end_type tries more x (response_loop-Safe fuel e end_type (suc tries)))
      r s

await_response-Safe : (e : Error) (end_type : ℕ) → Safe (await_response e end_type)
unfolding await_response
await_response-Safe e end_type r = response_loop-Safe (suc (max_tries r)) e end_type 0 r

pub control_window-Safe : Safe control_window
unfolding control_window
control_window-Safe r s =
    let e = window_end_type r in
    let solicit = send_data [] e >> await_response window_timeout e in
    Sized-if (ltb 0 r.session.remote_window_size && window_is_full r)
      ((solicit then_turn check_window) r) (ok go_on r)
      (then_turn-Safe solicit check_window
        (bind-Safe (send_data [] e) (λ _. await_response window_timeout e) (send_data-Safe [] e)
          (λ _. await_response-Safe window_timeout e))
        (λ r s. s) r s)
      s

wait_again-Safe : (e : Error) (more : M Sending Turn) → Safe more → Safe (wait_again e more)
wait_again-Safe e more safe r s =
    let there = record r { zcrcw_retries = r.zcrcw_retries + 1 } in
    let same : Sized there = record { least = s.least; fits = s.fits } in
    Sized-if (leb (max_tries r) (r.zcrcw_retries + 1)) (err e there) (more there) same
      (safe there same)

on_flush_header-Safe :
    (more : M Sending Turn) (h : Header) → Safe more → Safe (on_flush_header more h)
unfolding on_flush_header
on_flush_header-Safe more h safe r s =
    let ack =
      if position h == r.file_offset then flushed (position h) else wait_again stale_acks more in
    let other = wait_again unexpected_frames more in
    Sized-if (h.frame_type == zack) (ack r)
      (if h.frame_type == zrpos then restart (position h) r else other r)
      (if-Safe (position h == r.file_offset) (flushed (position h)) (wait_again stale_acks more)
        (λ r s. record { least = s.least; fits = s.fits }) (wait_again-Safe stale_acks more safe) r
        s)
      (Sized-if (h.frame_type == zrpos) (restart (position h) r) (other r)
        (restart-Safe (position h) r s) (wait_again-Safe unexpected_frames more safe r s))

on_flush_read-Safe :
    (more : M Sending Turn) (x : Either Header) → Safe more → Safe (on_flush_read more x)
on_flush_read-Safe more (good h) safe = on_flush_header-Safe more h safe
on_flush_read-Safe more (bad e) safe =
    let f = wrapped flush_timeout e in
    if-Safe (is_abort_received e) (fail e) (wait_again f more) (λ r s. s)
      (wait_again-Safe f more safe)

flush_loop-Safe : (fuel : ℕ) → Safe (flush_loop fuel)
unfolding flush_loop
flush_loop-Safe zero r s = s
flush_loop-Safe (suc fuel) r s =
    let more = flush_loop fuel in
    bind-Safe (attempt next_header) (on_flush_read more) header_read-Safe
      (λ x. on_flush_read-Safe more x (flush_loop-Safe fuel)) r s

await_flush-Safe : Safe await_flush
unfolding await_flush
await_flush-Safe r = flush_loop-Safe (suc (max_tries r - r.zcrcw_retries)) r

await_ack-Safe : (end_type : ℕ) → Safe (await_ack end_type)
await_ack-Safe end_type = if-Safe (end_type == zcrcw) await_flush _ await_flush-Safe (
    if-Safe (end_type == zcrcq) (await_response response_timeout zcrcq) (pure go_on)
      (await_response-Safe response_timeout zcrcq) (λ r s. s))

-- Twice the block size, and what the buffer takes at most.
adapt_block_size-Safe : Safe adapt_block_size
unfolding adapt_block_size
adapt_block_size-Safe r s =
    let least = s.least in
    let fits = s.fits in
    let top = r.session.cfg.max_block_size in
    let grown = record r { block_size = at_most top (r.block_size * 2); good_blocks = 0 } in
    Sized-if (leb (good_needed r) r.good_blocks && ltb r.block_size top) (ok tt grown) (ok tt r)
      (record { least = ground arith; fits = ground arith }) s

end_block-Safe : (at_eof : Bool) → Safe (end_block at_eof)
end_block-Safe at_eof =
    let turn : M Sending Turn = pure (if at_eof then leave stx_eof else again) in
    bind-Safe adapt_block_size (λ _. report_progress >> turn) adapt_block_size-Safe
      (λ _.
        bind-Safe report_progress (λ _. turn)
          (λ r. report-Safe (file_progress r.cur_info r.bytes_sent) r) (λ _ r s. s))

send_typed-Safe :
    (bytes : Bytes) (at_eof : Bool) (end_type : ℕ) → Safe (send_typed bytes at_eof end_type)
send_typed-Safe bytes at_eof end_type =
    let acked = count_block (length bytes) >> await_ack end_type in
    then_turn-Safe (send_data bytes end_type >> acked) (end_block at_eof)
      (bind-Safe (send_data bytes end_type) (λ _. acked) (send_data-Safe bytes end_type)
        (λ _ r s.
          await_ack-Safe end_type (final (count_block (length bytes) r))
            (record { least = s.least; fits = s.fits })))
      (end_block-Safe at_eof)

on_block-Safe : (d : Bytes × ReadEnd) → Safe (on_block d)
unfolding on_block
on_block-Safe (b ∷ bs, end) r s =
    let at_eof = is_end_of_file end in send_typed-Safe (b ∷ bs) at_eof (end_type_of at_eof r) r s
on_block-Safe ([], end_of_file) r s =
    bind-Safe (send_data [] zcrce) (λ _. pure (leave stx_eof)) (send_data-Safe [] zcrce)
      (λ _ r s. s) r s
on_block-Safe ([], read_error e) r s = s
on_block-Safe ([], more_to_come) r s = s

send_block-Safe : Safe send_block
unfolding send_block
send_block-Safe r s =
    Sized-if (ltb r.session.cfg.max_block_size r.block_size) (err out_of_range r)
      ((on_source (Source.read r.block_size) >>= on_block) r) s
      (bind-Safe (on_source (Source.read r.block_size)) on_block
        (on_source-Safe (Source.read r.block_size)) on_block-Safe r s)

pub stream_round-Safe : Safe stream_round
unfolding stream_round
stream_round-Safe = bind-Safe check_context _ check_context-Safe (λ _.
    then_turn-Safe (sample_reverse then_turn control_window) send_block
      (then_turn-Safe sample_reverse control_window sample_reverse-Safe control_window-Safe)
      send_block-Safe)

turn_on-Safe : (more : M Sending SenderState) (t : Turn) → Safe more → Safe (turn_on more t)
turn_on-Safe more go_on safe = safe
turn_on-Safe more again safe = safe
turn_on-Safe more (leave st) safe = λ r s. s

stream_loop-Safe : (fuel : ℕ) → Safe (stream_loop fuel)
unfolding stream_loop
stream_loop-Safe zero r s = s
stream_loop-Safe (suc fuel) r s =
    let more = stream_loop fuel in
    bind-Safe stream_round (turn_on more) stream_round-Safe
      (λ t. turn_on-Safe more t (stream_loop-Safe fuel)) r s

pub data_step-Safe : Safe data_step
unfolding data_step
data_step-Safe =
    let stream : M Sending SenderState = λ r. stream_loop (stream_fuel r) r in
    bind-Safe send_zdata _
      (λ r.
        on_wire-Safe
          (send_bin_header_with_znulls r.session.cfg.znulls r.session.use_crc32
            (make_pos_header zdata r.file_offset))
          r)
      (λ _ r s.
        stream_loop-Safe (stream_fuel (final (begin_frame r))) (final (begin_frame r))
          (record { least = s.least; fits = s.fits }))
