-- ===== src/Sender/Total/Waits.antt =====
-- `sender.go`: the waits of a round in the state `stxData`.
use go_zmodem.Prelude.{
  arith, ℕ, zero, suc, ◌+◌, ◌-◌, ◌≤◌, ◌<◌, Bool, true, false, ◌&&◌, [], ltb, leb, ◌==◌,
  if◌then◌else◌,
}
use go_zmodem.Monad.{
  Res, ok, err, M, pure, fail, ◌>>◌, Error, wrapped, flush_timeout, window_timeout,
  response_timeout, stale_acks, unexpected_frames, final,
}
use go_zmodem.Constants.{zack, zrpos, zcrcq, zcrcw}
use go_zmodem.Frame.{Header, position}
use go_zmodem.Sender.{stx_data, Sending, send_data, max_tries}
use go_zmodem.Sender.Stream.{
  Turn, go_on, again, leave, ◌then_turn◌, acked, restart, is_abort_received, answered, on_response,
  on_awaited, response_loop, await_response, window_is_full, window_end_type, check_window,
  control_window, flushed, wait_again, on_flush_header, on_flush_read, flush_loop, await_flush,
  await_ack,
}
use go_zmodem.Sender.Total.{
  to_consume, send_data-Idle, Held, Spent, Held-Spent, Idle-Spent, if-Spent, header_read,
  restart-Spent, if-Held, final-Held,
}

pick-Spent :
    (n : ℕ) (b : Bool) (m k : M Sending Turn) (r : Sending)
    → Spent n (m r)
    → Spent n (k r)
    → Spent n ((if b then m else k) r)
pick-Spent n true m k r p q = p
pick-Spent n false m k r p q = q

answered-Spent :
    (n end_type : ℕ) (r : Sending) → to_consume r < n → Spent n (ok (answered end_type) r)
answered-Spent n end_type r low = go (end_type == zcrcw)
  where
    go : (b : Bool) → Spent n (ok (if b then leave stx_data else go_on) r)
    go true = tt
    go false = low

on_response-Spent :
    (n end_type : ℕ) (h : Header) (r : Sending)
    → to_consume r < n
    → Spent n (on_response end_type h r)
unfolding on_response
on_response-Spent n end_type h r low =
    pick-Spent n (h.frame_type == zack) (acked (position h) >> pure (answered end_type)) _ r
      (answered-Spent n end_type (record r { last_ack_offset = position h }) low)
      (pick-Spent n (h.frame_type == zrpos) (restart (position h)) (pure (answered end_type)) r
        (restart-Spent n (position h) r) (answered-Spent n end_type r low))

response_loop-Spent :
    (fuel n : ℕ) (e : Error) (end_type tries : ℕ) (r : Sending)
    → to_consume r ≤ n
    → Spent n (response_loop fuel e end_type tries r)
unfolding response_loop
response_loop-Spent zero n e end_type tries r low = tt
response_loop-Spent (suc fuel) n e end_type tries r low =
    let more = response_loop fuel e end_type (suc tries) in
    header_read (Spent n) (on_awaited e end_type tries more) r
      (λ h t less. on_response-Spent n end_type h t (omega arith))
      (λ f t within.
        if-Spent n (leb (max_tries t) (suc tries)) (err e t) ((send_data [] end_type >> more) t) tt
          (Idle-Spent n (send_data [] end_type) more t (send_data-Idle [] end_type)
            (λ u same. response_loop-Spent fuel n e end_type (suc tries) u (omega arith))))

await_response-Spent :
    (n : ℕ) (e : Error) (end_type : ℕ) (r : Sending)
    → to_consume r ≤ n
    → Spent n (await_response e end_type r)
unfolding await_response
await_response-Spent n e end_type r = response_loop-Spent (suc (max_tries r)) n e end_type 0 r

-- Two parts of a round, one behind the other.
pub then_turn-Held :
    (n : ℕ) (m k : M Sending Turn) (r : Sending)
    → Held n (m r)
    → ((t : Sending) → to_consume t ≤ n → Held n (k t))
    → Held n ((m then_turn k) r)
then_turn-Held n m k r held rest = go (m r) held
  where
    go : (x : Res Sending Turn) → Held n x → Held n (((λ _. x) then_turn k) r)
    go (ok go_on t) held = rest t held
    go (ok again t) held = held
    go (ok (leave st) t) held = tt
    go (err e t) held = tt

pub then_turn-Spent :
    (Q : Sending → Type 0) (n j : ℕ) (m k : M Sending Turn) (r : Sending)
    → j ≤ n
    → Held j (m r)
    → Q (final (m r))
    → ((t : Sending) → Q t → to_consume t ≤ j → Spent n (k t))
    → Spent n ((m then_turn k) r)
then_turn-Spent Q n j m k r le held q rest = go (m r) held q
  where
    go : (x : Res Sending Turn) → Held j x → Q (final x) → Spent n (((λ _. x) then_turn k) r)
    go (ok go_on t) held q = rest t q held
    go (ok again t) held q = omega arith
    go (ok (leave st) t) held q = tt
    go (err e t) held q = tt

pub control_window-Held : (r : Sending) (n : ℕ) → to_consume r ≤ n → Held n (control_window r)
unfolding control_window
control_window-Held r n low =
    let e = window_end_type r in
    let solicit = send_data [] e >> await_response window_timeout e in
    final-Held n (ltb 0 r.session.remote_window_size && window_is_full r)
      ((solicit then_turn check_window) r) (ok go_on r)
      (solicited solicit (
        Idle-Spent n (send_data [] e) (await_response window_timeout e) r (send_data-Idle [] e)
          (λ t same. await_response-Spent n window_timeout e t (omega arith))))
      low
  where
    checked :
        (b : Bool) (t : Sending) → to_consume t < n → Held n (ok (if b then again else go_on) t)
    checked true t less = less
    checked false t less = omega arith

    solicited : (m : M Sending Turn) → Spent n (m r) → Held n ((m then_turn check_window) r)
    solicited m spent = go (m r) spent
      where
        go : (x : Res Sending Turn) → Spent n x → Held n (((λ _. x) then_turn check_window) r)
        go (ok go_on t) less = checked (window_is_full t) t less
        go (ok again t) less = less
        go (ok (leave st) t) less = tt
        go (err e t) less = tt

wait_again-Spent :
    (n : ℕ) (e : Error) (more : M Sending Turn) (r : Sending)
    → ((t : Sending) → Spent n (more t))
    → Spent n (wait_again e more r)
wait_again-Spent n e more r spent =
    let there = record r { zcrcw_retries = r.zcrcw_retries + 1 } in
    if-Spent n (leb (max_tries r) (r.zcrcw_retries + 1)) (err e there) (more there) tt (spent there)

on_flush_header-Spent :
    (n : ℕ) (more : M Sending Turn) (h : Header) (r : Sending)
    → ((t : Sending) → Spent n (more t))
    → Spent n (on_flush_header more h r)
unfolding on_flush_header
on_flush_header-Spent n more h r spent =
    let ack =
      if position h == r.file_offset then flushed (position h) else wait_again stale_acks more in
    let other = wait_again unexpected_frames more in
    if-Spent n (h.frame_type == zack) (ack r)
      (if h.frame_type == zrpos then restart (position h) r else other r)
      (pick-Spent n (position h == r.file_offset) (flushed (position h))
        (wait_again stale_acks more) r tt (wait_again-Spent n stale_acks more r spent))
      (if-Spent n (h.frame_type == zrpos) (restart (position h) r) (other r)
        (restart-Spent n (position h) r) (wait_again-Spent n unexpected_frames more r spent))

flush_loop-Spent : (fuel n : ℕ) (r : Sending) → Spent n (flush_loop fuel r)
unfolding flush_loop
flush_loop-Spent zero n r = tt
flush_loop-Spent (suc fuel) n r =
    let more = flush_loop fuel in
    header_read (Spent n) (on_flush_read more) r
      (λ h t less. on_flush_header-Spent n more h t (flush_loop-Spent fuel n))
      (λ e t within.
        let f = wrapped flush_timeout e in
        pick-Spent n (is_abort_received e) (fail e) (wait_again f more) t tt
          (wait_again-Spent n f more t (flush_loop-Spent fuel n)))

await_flush-Spent : (n : ℕ) (r : Sending) → Spent n (await_flush r)
unfolding await_flush
await_flush-Spent n r = flush_loop-Spent (suc (max_tries r - r.zcrcw_retries)) n r

pub await_ack-Held :
    (n end_type : ℕ) (r : Sending) → to_consume r ≤ n → Held n (await_ack end_type r)
await_ack-Held n end_type r low =
    if-Held n (end_type == zcrcw) await_flush _ r
      (Held-Spent n (await_flush r) (await_flush-Spent n r))
      (if-Held n (end_type == zcrcq) (await_response response_timeout zcrcq) (pure go_on) r
        (Held-Spent n (await_response response_timeout zcrcq r)
          (await_response-Spent n response_timeout zcrcq r low))
        low)
