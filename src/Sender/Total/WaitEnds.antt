-- ===== src/Sender/Total/WaitEnds.antt =====
-- `sender.go`: the waits of a round in the state `stxData` come to an end.
use go_zmodem.Prelude.{
  ◌≡◌, refl, arith, ℕ, zero, suc, ◌+◌, ◌-◌, ◌<◌, Bool, true, false, ◌&&◌, [], leb, ltb, ◌==◌,
  if◌then◌else◌,
}
use go_zmodem.Monad.{
  Res, ok, err, M, pure, fail, ◌>>◌, Error, is_out_of_fuel, wrapped, flush_timeout, stale_acks,
  unexpected_frames, window_timeout, response_timeout, final,
}
use go_zmodem.Monad.Ends.{Ends, Sure, bind-Sure, if-Ends, if-Sure}
use go_zmodem.Constants.{zack, zrpos, zcrcq, zcrcw}
use go_zmodem.Frame.{Header, position}
use go_zmodem.Subpacket.{send_subpacket}
use go_zmodem.Sender.{Sending, send_data, max_tries}
use go_zmodem.Sender.Stream
use go_zmodem.Sender.Stream.{
  Turn, go_on, again, leave, ◌then_turn◌, acked, restart, on_sampled, is_abort_received, on_sample,
  sample_reverse, answered, on_response, solicit_again, on_awaited, response_loop, await_response,
  window_is_full, window_end_type, check_window, control_window, flushed, wait_again,
  on_flush_header, on_flush_read, flush_loop, await_flush, await_ack,
}
use go_zmodem.Sender.Total.{on_wire-max_tries}
use go_zmodem.Sender.Total.Ends.{send_data-Sure, restart-Sure, header-Ends, on_response-Sure}

-- The end of a wait, or another round where a try is left.
unless_spent :
    (b : Bool) (failed more : Res Sending Turn)
    → Ends failed
    → (b ≡ false → Ends more)
    → Ends (if b then failed else more)
unless_spent true failed more p q = p
unless_spent false failed more p q = q refl

resent-Ends :
    (end_type : ℕ) (more : M Sending Turn) (r : Sending)
    → ((t : Sending) → max_tries t ≡ max_tries r → Ends (more t))
    → Ends ((send_data [] end_type >> more) r)
resent-Ends end_type more r rest =
    go (send_data [] end_type r) (send_data-Sure [] end_type r)
      (on_wire-max_tries (send_subpacket r.session.use_crc32 [] end_type) r)
  where
    go :
        (x : Res Sending (Unit {0}))
        → Ends x
        → max_tries (final x) ≡ max_tries r
        → Ends (((λ _. x) >> more) r)
    go (ok a t) ends kept = rest t kept
    go (err e t) ends kept = ends

response_loop-Ends :
    (fuel : ℕ) (e : Error) (end_type tries : ℕ) (r : Sending)
    → is_out_of_fuel e ≡ false
    → 0 < fuel
    → max_tries r < tries + fuel
    → Ends (response_loop fuel e end_type tries r)
unfolding response_loop
response_loop-Ends zero e end_type tries r own some_fuel enough = absurd (omega arith)
response_loop-Ends (suc fuel) e end_type tries r own some_fuel enough =
    let more = response_loop fuel e end_type (suc tries) in
    header-Ends (on_awaited e end_type tries more) r
      (λ h tr. on_response-Sure end_type h (record r { session = record r.session { tr = tr } }))
      (λ f tr _.
        let t = record r { session = record r.session { tr = tr } } in
        unless_spent (leb (max_tries r) (suc tries)) (err e t) ((send_data [] end_type >> more) t)
          own
          (λ left_over. resent-Ends end_type more t (λ u kept.
            response_loop-Ends fuel e end_type (suc tries) u own (ground arith) (omega arith))))

pub await_response-Sure :
    (e : Error) (end_type : ℕ) → is_out_of_fuel e ≡ false → Sure (await_response e end_type)
unfolding await_response
await_response-Sure e end_type own r =
    response_loop-Ends (suc (max_tries r)) e end_type 0 r own (omega arith) (omega arith)

-- The rounds that follow another retry come to an end.
abbrev Retries : M Sending Turn → Sending → Type 0
Retries more r =
    r.zcrcw_retries + 1 < max_tries r
    → Ends (more (record r { zcrcw_retries = r.zcrcw_retries + 1 }))

wait_again-Ends :
    (e : Error) (more : M Sending Turn) (r : Sending)
    → is_out_of_fuel e ≡ false
    → Retries more r
    → Ends (wait_again e more r)
wait_again-Ends e more r own rest =
    let there = record r { zcrcw_retries = r.zcrcw_retries + 1 } in
    unless_spent (leb (max_tries r) (r.zcrcw_retries + 1)) (err e there) (more there) own
      (λ left_over. rest (ground arith))

pick-Ends :
    (b : Bool) (m k : M Sending Turn) (r : Sending)
    → Ends (m r)
    → Ends (k r)
    → Ends ((if b then m else k) r)
pick-Ends true m k r p q = p
pick-Ends false m k r p q = q

on_flush_header-Ends :
    (more : M Sending Turn) (h : Header) (r : Sending)
    → Retries more r
    → Ends (on_flush_header more h r)
unfolding on_flush_header
on_flush_header-Ends more h r rest =
    let ack =
      if position h == r.file_offset then flushed (position h) else wait_again stale_acks more in
    let other = wait_again unexpected_frames more in
    if-Ends (h.frame_type == zack) (ack r)
      (if h.frame_type == zrpos then restart (position h) r else other r)
      (pick-Ends (position h == r.file_offset) (flushed (position h)) (wait_again stale_acks more) r
        tt (wait_again-Ends stale_acks more r refl rest))
      (if-Ends (h.frame_type == zrpos) (restart (position h) r) (other r)
        (restart-Sure (position h) r) (wait_again-Ends unexpected_frames more r refl rest))

flush_loop-Ends :
    (fuel : ℕ) (r : Sending)
    → 0 < fuel
    → max_tries r < r.zcrcw_retries + fuel
    → Ends (flush_loop fuel r)
unfolding flush_loop
flush_loop-Ends zero r some_fuel enough = absurd (omega arith)
flush_loop-Ends (suc fuel) r some_fuel enough =
    let more = flush_loop fuel in
    header-Ends (on_flush_read more) r
      (λ h tr.
        let t = record r { session = record r.session { tr = tr } } in
        on_flush_header-Ends more h t (λ low.
          flush_loop-Ends fuel (record t { zcrcw_retries = t.zcrcw_retries + 1 }) (omega arith)
            (omega arith)))
      (λ e tr own.
        let t = record r { session = record r.session { tr = tr } } in
        let f = wrapped flush_timeout e in
        pick-Ends (is_abort_received e) (fail e) (wait_again f more) t own (
          wait_again-Ends f more t own (λ low.
            flush_loop-Ends fuel (record t { zcrcw_retries = t.zcrcw_retries + 1 }) (omega arith)
              (omega arith))))

pub await_flush-Sure : Sure await_flush
unfolding await_flush
await_flush-Sure r =
    flush_loop-Ends (suc (max_tries r - r.zcrcw_retries)) r (omega arith) (omega arith)

pub then_turn-Sure : (m k : M Sending Turn) → Sure m → Sure k → Sure (m then_turn k)
then_turn-Sure m k p q = bind-Sure m (Stream.behind k) p behind
  where
    behind : (t : Turn) → Sure (Stream.behind k t)
    behind go_on = q
    behind again = λ r. tt
    behind (leave st) = λ r. tt

pub await_ack-Sure : (end_type : ℕ) → Sure (await_ack end_type)
await_ack-Sure end_type = if-Sure (end_type == zcrcw) await_flush _ await_flush-Sure (
    if-Sure (end_type == zcrcq) (await_response response_timeout zcrcq) (pure go_on)
      (await_response-Sure response_timeout zcrcq refl) (λ r. tt))

pub control_window-Sure : Sure control_window
unfolding control_window
control_window-Sure r =
    let e = window_end_type r in
    let wait = await_response window_timeout e in
    let solicit = send_data [] e >> wait in
    if-Ends (ltb 0 r.session.remote_window_size && window_is_full r)
      ((solicit then_turn check_window) r) (ok go_on r)
      (then_turn-Sure solicit check_window
        (bind-Sure (send_data [] e) (λ _. wait) (send_data-Sure [] e)
          (λ _. await_response-Sure window_timeout e refl))
        (λ t. tt) r)
      tt
