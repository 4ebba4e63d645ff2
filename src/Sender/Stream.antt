-- ===== src/Sender/Stream.antt =====
-- `sender.go`: the state `stxData` of `runSender`, the loop that streams a file.
use go_zmodem.Prelude.{
  ℕ, zero, suc, ◌+◌, ◌-◌, ◌*◌, ◌%◌, Bool, true, false, ◌&&◌, [], ◌∷◌, Bytes, length, ltb, leb, ◌==◌,
  if◌then◌else◌,
}
use go_zmodem.Monad.{
  ok, err, M, pure, fail, attempt, Either, good, bad, ◌>>=◌, ◌>>◌, Error, wrapped, file_read,
  flush_timeout, abort_received, window_timeout, response_timeout, stale_acks, unexpected_frames,
  out_of_range, out_of_fuel,
}
use go_zmodem.Constants.{canfdx, zack, zrpos, zdata, zcrce, zcrcg, zcrcq, zcrcw}
use go_zmodem.Reader.{peek_for_zpad}
use go_zmodem.Source
use go_zmodem.Source.{ReadEnd, more_to_come, end_of_file, read_error}
use go_zmodem.Frame.{Header, position, make_pos_header, send_bin_header_with_znulls}
use go_zmodem.Session.{file_progress}
use go_zmodem.Sender.{
  SenderState, stx_data, stx_eof, Sending, on_wire, on_source, send_data, report, check_context,
  next_header, max_tries, has_flag, resume_at,
}

-- How a part of a round ends: the round goes on, another begins, or the loop is left.
pub data Turn : Type 0 where
  go_on again : Turn
  leave : SenderState → Turn

abbrev pub behind : M Sending Turn → Turn → M Sending Turn
behind k go_on = k
behind k again = pure again
behind k (leave st) = pure (leave st)

infixl 5 ◌then_turn◌
abbrev pub ◌then_turn◌ : M Sending Turn → M Sending Turn → M Sending Turn
m then_turn k = m >>= behind k

abbrev pub acked : ℕ → M Sending (Unit {0})
acked pos r = ok tt (record r { last_ack_offset = pos })

abbrev pub can_fdx : Sending → Bool
can_fdx r = has_flag canfdx r.session

abbrev pub restart : ℕ → M Sending Turn
restart pos = resume_at pos >> pure (leave stx_data)

unfoldable pub on_sampled : Header → M Sending Turn
on_sampled h =
    if h.frame_type == zrpos
    then restart (position h)
    else if h.frame_type == zack
    then acked (position h) >> pure go_on
    else pure go_on

-- Not an abort that a caller wrapped.
abbrev pub is_abort_received : Error → Bool
is_abort_received abort_received = true
is_abort_received e = false

abbrev pub on_sample : Either Header → M Sending Turn
on_sample (good h) = on_sampled h
on_sample (bad e) = if is_abort_received e then fail e else pure go_on

unfoldable pub sample_reverse : M Sending Turn
sample_reverse r =
    if peek_for_zpad r.session.tr then (attempt next_header >>= on_sample) r else ok go_on r

-- ZCRCW has ended the frame.
abbrev pub answered : ℕ → Turn
answered end_type = if end_type == zcrcw then leave stx_data else go_on

unfoldable pub on_response : ℕ → Header → M Sending Turn
on_response end_type h =
    if h.frame_type == zack
    then acked (position h) >> pure (answered end_type)
    else if h.frame_type == zrpos
    then restart (position h)
    else pure (answered end_type)

abbrev pub solicit_again : Error → ℕ → ℕ → M Sending Turn → M Sending Turn
solicit_again failure end_type tries more r =
    if leb (max_tries r) tries then err failure r else (send_data [] end_type >> more) r

abbrev pub on_awaited : Error → ℕ → ℕ → M Sending Turn → Either Header → M Sending Turn
on_awaited failure end_type tries more (good h) = on_response end_type h
on_awaited failure end_type tries more (bad e) = solicit_again failure end_type (suc tries) more

-- The wait for a response to ZCRCQ or to a zero-length subpacket behind `tries` of them; each
-- round but the last counts a try.
unfoldable pub response_loop : ℕ → Error → ℕ → ℕ → M Sending Turn
response_loop zero failure end_type tries = fail out_of_fuel
response_loop (suc fuel) failure end_type tries =
    let more = response_loop fuel failure end_type (suc tries) in
    attempt next_header >>= on_awaited failure end_type tries more

unfoldable pub await_response : Error → ℕ → M Sending Turn
await_response failure end_type r = response_loop (suc (max_tries r)) failure end_type 0 r

abbrev pub window_is_full : Sending → Bool
window_is_full r = leb r.session.remote_window_size (r.file_offset - r.last_ack_offset)

abbrev pub window_end_type : Sending → ℕ
window_end_type r = if can_fdx r then zcrcq else zcrcw

abbrev pub check_window : M Sending Turn
check_window r = ok (if window_is_full r then again else go_on) r

unfoldable pub control_window : M Sending Turn
control_window r =
    if ltb 0 r.session.remote_window_size && window_is_full r
    then ((send_data [] (window_end_type r) >> await_response window_timeout (window_end_type r))
          then_turn check_window)
        r
    else ok go_on r

abbrev pub zcrcq_interval : ℕ
zcrcq_interval = 8

abbrev pub is_end_of_file : ReadEnd → Bool
is_end_of_file end_of_file = true
is_end_of_file end = false

unfoldable pub end_type_of : Bool → Sending → ℕ
end_type_of at_eof r =
    if r.zcrcw_next
    then zcrcw
    else if at_eof
    then zcrce
    else if can_fdx r && (ltb 0 r.subpacket_count && r.subpacket_count % zcrcq_interval == 0)
    then zcrcq
    else zcrcg

abbrev pub count_block : ℕ → M Sending (Unit {0})
count_block n r = ok tt (record r {
  file_offset = r.file_offset + n;
  bytes_sent = r.file_offset + n;
  subpacket_count = r.subpacket_count + 1;
  good_blocks = r.good_blocks + 1;
})

abbrev pub flushed : ℕ → M Sending Turn
flushed pos r =
    ok (leave stx_data) (record r { last_ack_offset = pos; zcrcw_next = false; zcrcw_retries = 0 })

-- One more wait for the response to ZCRCW, unless it is the last.
abbrev pub wait_again : Error → M Sending Turn → M Sending Turn
wait_again failure more r =
    let r' = record r { zcrcw_retries = r.zcrcw_retries + 1 } in
    if leb (max_tries r) (r.zcrcw_retries + 1) then err failure r' else more r'

unfoldable pub on_flush_header : M Sending Turn → Header → M Sending Turn
on_flush_header more h r =
    if h.frame_type == zack
    then (if position h == r.file_offset then flushed (position h) else wait_again stale_acks more)
        r
    else if h.frame_type == zrpos
    then restart (position h) r
    else wait_again unexpected_frames more r

abbrev pub on_flush_read : M Sending Turn → Either Header → M Sending Turn
on_flush_read more (good h) = on_flush_header more h
on_flush_read more (bad e) =
    if is_abort_received e then fail e else wait_again (wrapped flush_timeout e) more

-- Each round but the last counts a retry.
unfoldable pub flush_loop : ℕ → M Sending Turn
flush_loop zero = fail out_of_fuel
flush_loop (suc fuel) = let more = flush_loop fuel in attempt next_header >>= on_flush_read more

unfoldable pub await_flush : M Sending Turn
await_flush r = flush_loop (suc (max_tries r - r.zcrcw_retries)) r

abbrev pub await_ack : ℕ → M Sending Turn
await_ack end_type =
    if end_type == zcrcw
    then await_flush
    else if end_type == zcrcq
    then await_response response_timeout zcrcq
    else pure go_on

abbrev pub good_needed : Sending → ℕ
good_needed r = if r.unreliable then 16 else 8

abbrev pub at_most : ℕ → ℕ → ℕ
at_most top n = if ltb top n then top else n

unfoldable pub adapt_block_size : M Sending (Unit {0})
adapt_block_size r =
    let top = r.session.cfg.max_block_size in
    if leb (good_needed r) r.good_blocks && ltb r.block_size top
    then ok tt (record r { block_size = at_most top (r.block_size * 2); good_blocks = 0 })
    else ok tt r

abbrev pub report_progress : M Sending (Unit {0})
report_progress r = report (file_progress r.cur_info r.bytes_sent) r

abbrev pub end_block : Bool → M Sending Turn
end_block at_eof =
    adapt_block_size >> (report_progress >> pure (if at_eof then leave stx_eof else again))

abbrev pub send_typed : Bytes → Bool → ℕ → M Sending Turn
send_typed bytes at_eof end_type =
    (send_data bytes end_type >> (count_block (length bytes) >> await_ack end_type))
    then_turn end_block at_eof

unfoldable pub on_block : Bytes × ReadEnd → M Sending Turn
on_block (b ∷ bs, end) r =
    send_typed (b ∷ bs) (is_end_of_file end) (end_type_of (is_end_of_file end) r) r
on_block ([], end_of_file) r = (send_data [] zcrce >> pure (leave stx_eof)) r
on_block ([], read_error e) r = err (wrapped file_read e.0) r
on_block ([], more_to_come) r = ok again r

-- `out_of_range` is the panic at a block that is longer than the buffer.
unfoldable pub send_block : M Sending Turn
send_block r =
    if ltb r.session.cfg.max_block_size r.block_size
    then err out_of_range r
    else (on_source (Source.read r.block_size) >>= on_block) r

unfoldable pub stream_round : M Sending Turn
stream_round = check_context >> (sample_reverse then_turn control_window then_turn send_block)

abbrev pub turn_on : M Sending SenderState → Turn → M Sending SenderState
turn_on more go_on = more
turn_on more again = more
turn_on more (leave st) = pure st

unfoldable pub stream_loop : ℕ → M Sending SenderState
stream_loop zero = fail out_of_fuel
stream_loop (suc fuel) = let more = stream_loop fuel in stream_round >>= turn_on more

abbrev pub begin_frame : M Sending (Unit {0})
begin_frame r = ok tt (record r { last_ack_offset = r.file_offset; subpacket_count = 0 })

abbrev pub send_zdata : M Sending (Unit {0})
send_zdata r =
    on_wire
      (send_bin_header_with_znulls r.session.cfg.znulls r.session.use_crc32
        (make_pos_header zdata r.file_offset))
      r

-- Each round but the last consumes an item of the input, bytes of the file or an answer of its
-- reader.
abbrev pub stream_fuel : Sending → ℕ
stream_fuel r = suc (
    length r.session.tr.input
    + (length r.cur_offer.reader.content + length r.cur_offer.reader.answers))

unfoldable pub data_step : M Sending SenderState
data_step = send_zdata >> (begin_frame >> λ r. stream_loop (stream_fuel r) r)
