-- ===== src/Sender/Total/Budget.antt =====
-- `sender.go`: the fuel of the waits in the state `stxData`.
use go_zmodem.Prelude.{
  ◌≡◌, refl, ap, ◌∙◌, arith, ℕ, zero, suc, ◌+◌, ◌-◌, ◌<◌, Bool, true, false, [], leb, ◌==◌,
  if◌then◌else◌,
}
use go_zmodem.Monad.{
  Res, ok, err, M, fail, attempt, ◌>>=◌, ◌>>◌, Error, is_out_of_fuel, wrapped, flush_timeout,
  stale_acks, unexpected_frames, final,
}
use go_zmodem.Constants.{zack, zrpos}
use go_zmodem.Reader.{Reader}
use go_zmodem.Frame.{Header, recv_header, position}
use go_zmodem.Subpacket.{send_subpacket}
use go_zmodem.Session.{on_reader}
use go_zmodem.Sender.{Sending, on_session, send_data, max_tries}
use go_zmodem.Sender.Total.{on_wire-max_tries}
use go_zmodem.Sender.Total.WaitEnds.{await_response-Sure, await_flush-Sure}
use go_zmodem.Monad.Ends.{Ends}
use go_zmodem.Sender.Stream.{
  Turn, restart, is_abort_received, on_awaited, response_loop, await_response, flushed, wait_again,
  on_flush_header, on_flush_read, flush_loop, await_flush,
}

-- Two ways on that agree where a zero-length subpacket leaves the tries.
resent :
    (end_type : ℕ) (more fewer : M Sending Turn) (r : Sending)
    → ((t : Sending) → max_tries t ≡ max_tries r → more t ≡ fewer t)
    → (send_data [] end_type >> more) r ≡ (send_data [] end_type >> fewer) r
resent end_type more fewer r same =
    go (send_data [] end_type r)
      (on_wire-max_tries (send_subpacket r.session.use_crc32 [] end_type) r)
  where
    go :
        (x : Res Sending (Unit {0}))
        → max_tries (final x) ≡ max_tries r
        → ((λ _. x) >> more) r ≡ ((λ _. x) >> fewer) r
    go (ok a t) kept = same t kept
    go (err e t) kept = refl

-- The answer to a wait that read nothing, where the ways on agree behind another try.
unless_spent :
    (b : Bool) (failed more fewer : Res Sending Turn)
    → (b ≡ false → more ≡ fewer)
    → (if b then failed else more) ≡ (if b then failed else fewer)
unless_spent true failed more fewer same = refl
unless_spent false failed more fewer same = same refl

-- A round of the wait for a response, where what comes behind another try agrees.
awaited_agrees :
    (x : Res Reader Header) (e : Error) (end_type tries : ℕ) (more fewer : M Sending Turn)
    (r : Sending)
    → ((t : Sending) → suc tries < max_tries r → max_tries t ≡ max_tries r → more t ≡ fewer t)
    → (attempt (on_session (on_reader (λ _. x))) >>= on_awaited e end_type tries more) r
      ≡ (attempt (on_session (on_reader (λ _. x))) >>= on_awaited e end_type tries fewer) r
awaited_agrees (ok h tr) e end_type tries more fewer r same = refl
awaited_agrees (err f tr) e end_type tries more fewer r same =
    let t = record r { session = record r.session { tr = tr } } in
    unless_spent (leb (max_tries r) (suc tries)) (err e t) ((send_data [] end_type >> more) t)
      ((send_data [] end_type >> fewer) t)
      (λ left_over. resent end_type more fewer t (same_at t left_over))
  where
    same_at :
        (t : Sending)
        → leb (max_tries r) (suc tries) ≡ false
        → (u : Sending) → max_tries u ≡ max_tries r
        → more u ≡ fewer u
    same_at t left_over u kept = same u (ground arith) kept

response_loop-suc :
    (fuel : ℕ) (e : Error) (end_type tries : ℕ) (r : Sending)
    → 0 < fuel
    → max_tries r < tries + fuel
    → response_loop (suc fuel) e end_type tries r ≡ response_loop fuel e end_type tries r
unfolding response_loop
response_loop-suc zero e end_type tries r some_fuel enough = absurd (omega arith)
response_loop-suc (suc fuel) e end_type tries r some_fuel enough =
    awaited_agrees (recv_header r.session.tr) e end_type tries
      (response_loop (suc fuel) e end_type (suc tries)) (response_loop fuel e end_type (suc tries))
      r (λ t low kept. response_loop-suc fuel e end_type (suc tries) t (omega arith) (omega arith))

response_loop-more :
    (extra : ℕ) (e : Error) (end_type : ℕ) (r : Sending)
    → response_loop (extra + suc (max_tries r)) e end_type 0 r ≡ await_response e end_type r
unfolding await_response
response_loop-more zero e end_type r = ap (λ n. response_loop n e end_type 0 r) (omega arith)
response_loop-more (suc extra) e end_type r =
    let fuel = extra + suc (max_tries r) in
    let later : suc extra + suc (max_tries r) ≡ suc fuel = omega arith in
    ap (λ n. response_loop n e end_type 0 r) later
    ∙ response_loop-suc fuel e end_type 0 r (omega arith) (omega arith)
    ∙ response_loop-more extra e end_type r

-- The wait for a response ends within its retries, whatever the peer sends: with one round more than
-- MaxRetries it returns or fails with an error of the program, it does not run out of fuel, and with
-- more rounds the result is the same.
pub response_loop_fuel :
    (extra : ℕ) (e : Error) (end_type : ℕ) (r : Sending)
    → is_out_of_fuel e ≡ false
    → Ends (await_response e end_type r)
      × (response_loop (extra + suc (max_tries r)) e end_type 0 r ≡ await_response e end_type r)
response_loop_fuel extra e end_type r own =
    (await_response-Sure e end_type own r, response_loop-more extra e end_type r)

-- Two ways on that agree where a retry is left.
abbrev Agrees : M Sending Turn → M Sending Turn → Sending → Type 0
Agrees more fewer r =
    r.zcrcw_retries + 1 < max_tries r
    → more (record r { zcrcw_retries = r.zcrcw_retries + 1 })
      ≡ fewer (record r { zcrcw_retries = r.zcrcw_retries + 1 })

wait_again-Agrees :
    (e : Error) (more fewer : M Sending Turn) (r : Sending)
    → Agrees more fewer r
    → wait_again e more r ≡ wait_again e fewer r
wait_again-Agrees e more fewer r same =
    let there = record r { zcrcw_retries = r.zcrcw_retries + 1 } in
    unless_spent (leb (max_tries r) (r.zcrcw_retries + 1)) (err e there) (more there) (fewer there)
      (λ left_over. same (ground arith))

on_flush_header-Agrees :
    (more fewer : M Sending Turn) (h : Header) (r : Sending)
    → Agrees more fewer r
    → on_flush_header more h r ≡ on_flush_header fewer h r
unfolding on_flush_header
on_flush_header-Agrees more fewer h r same =
    let acked : M Sending Turn → Res Sending Turn = λ k.
      (if position h == r.file_offset then flushed (position h) else wait_again stale_acks k) r in
    let other : M Sending Turn → Res Sending Turn = λ k.
      if h.frame_type == zrpos then restart (position h) r else wait_again unexpected_frames k r in
    by_ack (h.frame_type == zack) (acked more) (acked fewer) (other more) (other fewer)
      (picked (position h == r.file_offset) (flushed (position h)) (wait_again stale_acks more)
        (wait_again stale_acks fewer) (wait_again-Agrees stale_acks more fewer r same))
      (unless_spent (h.frame_type == zrpos) (restart (position h) r)
        (wait_again unexpected_frames more r) (wait_again unexpected_frames fewer r)
        (λ _. wait_again-Agrees unexpected_frames more fewer r same))
  where
    picked :
        (b : Bool) (m k j : M Sending Turn)
        → k r ≡ j r
        → (if b then m else k) r ≡ (if b then m else j) r
    picked true m k j e = refl
    picked false m k j e = e

    by_ack :
        (b : Bool) (x y u v : Res Sending Turn)
        → x ≡ y
        → u ≡ v
        → (if b then x else u) ≡ (if b then y else v)
    by_ack true x y u v p q = p
    by_ack false x y u v p q = q

flush_read-Agrees :
    (x : Res Reader Header) (more fewer : M Sending Turn) (r : Sending)
    → ((tr : Reader) → Agrees more fewer (record r { session = record r.session { tr = tr } }))
    → (attempt (on_session (on_reader (λ _. x))) >>= on_flush_read more) r
      ≡ (attempt (on_session (on_reader (λ _. x))) >>= on_flush_read fewer) r
flush_read-Agrees (ok h tr) more fewer r same =
    on_flush_header-Agrees more fewer h (record r { session = record r.session { tr = tr } })
      (same tr)
flush_read-Agrees (err f tr) more fewer r same =
    let t = record r { session = record r.session { tr = tr } } in
    kept (is_abort_received f) t
      (wait_again-Agrees (wrapped flush_timeout f) more fewer t (same tr))
  where
    kept :
        (b : Bool) (t : Sending)
        → wait_again (wrapped flush_timeout f) more t ≡ wait_again (wrapped flush_timeout f) fewer t
        → (if b then fail f else wait_again (wrapped flush_timeout f) more) t
          ≡ (if b then fail f else wait_again (wrapped flush_timeout f) fewer) t
    kept true t e = refl
    kept false t e = e

flush_loop-suc :
    (fuel : ℕ) (r : Sending)
    → 0 < fuel
    → max_tries r < r.zcrcw_retries + fuel
    → flush_loop (suc fuel) r ≡ flush_loop fuel r
unfolding flush_loop
flush_loop-suc zero r some_fuel enough = absurd (omega arith)
flush_loop-suc (suc fuel) r some_fuel enough =
    flush_read-Agrees (recv_header r.session.tr) (flush_loop (suc fuel)) (flush_loop fuel) r
      (λ tr low.
        flush_loop-suc fuel
          (record r { session = record r.session { tr = tr }; zcrcw_retries = r.zcrcw_retries + 1 })
          (omega arith) (omega arith))

flush_loop-more :
    (extra : ℕ) (r : Sending)
    → flush_loop (extra + suc (max_tries r - r.zcrcw_retries)) r ≡ await_flush r
unfolding await_flush
flush_loop-more zero r = ap (λ n. flush_loop n r) (omega arith)
flush_loop-more (suc extra) r =
    let start = suc (max_tries r - r.zcrcw_retries) in
    let later : suc extra + start ≡ suc (extra + start) = omega arith in
    ap (λ n. flush_loop n r) later
    ∙ flush_loop-suc (extra + start) r (omega arith) (omega arith)
    ∙ flush_loop-more extra r

-- The wait for the answer to ZCRCW ends within its retries, whatever the peer sends: with one round
-- more than there are retries left it returns or fails with an error of the program, it does not run
-- out of fuel, and with more rounds the result is the same.
pub flush_loop_fuel :
    (extra : ℕ) (r : Sending)
    → Ends (await_flush r)
      × (flush_loop (extra + suc (max_tries r - r.zcrcw_retries)) r ≡ await_flush r)
flush_loop_fuel extra r = (await_flush-Sure r, flush_loop-more extra r)
