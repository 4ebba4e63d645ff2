-- ===== src/Receiver/Waiting.antt =====
-- `receiver.go`: the counts of the state `srxFileWait`.
use go_zmodem.Prelude.{
  ◌≡◌, refl, arith, inl, inr, Bool-cases, ◌∙◌, ℕ, ◌+◌, ◌≤◌, ◌<◌, Bool, true, false, ◌||◌, leb, ◌==◌,
}
use go_zmodem.Monad.{
  ok, err, M, pure, bind_ok, bind_err, good, bad, Error, ◌>>◌, consecutive_errors,
  wait_retries_exceeded,
}
use go_zmodem.Constants.{zrqinit, zsinit, zfile, zfin, zcommand, zfreecnt}
use go_zmodem.Frame.{Header}
use go_zmodem.Receiver.{Receiving, on_session, send_zrinit}
use go_zmodem.Receiver.Data.{ReceiverState, srx_file_wait}
use go_zmodem.Receiver.FileWait.{
  max_consecutive_err, on_wait_header, on_wait_read, give_up_waiting, check_waits, prompt_again,
  count_wait,
}

-- The frames that `srxFileWait` acts on.
abbrev pub is_expected : ℕ → Bool
is_expected t =
    t == zrqinit || (t == zsinit || (t == zfile || (t == zfin || (t == zcommand || t == zfreecnt))))

abbrev pub heard : Receiving → Receiving
heard r = record r { consecutive_err = 1 }

-- Behind an unexpected frame the receiver waits on with a count of 1, whatever the count was: the
-- guard against a peer that is not ZMODEM never ends the session, however many such frames come.
pub unexpected_waits_on :
    (h : Header) (r : Receiving)
    → is_expected h.frame_type ≡ false
    → on_wait_read (good h) r ≡ ok srx_file_wait (heard r)
unfolding on_wait_header give_up_waiting
unexpected_waits_on h r unexpected = ground arith

gives_up :
    (r : Receiving)
    → leb max_consecutive_err r.consecutive_err ≡ true
    → give_up_waiting r ≡ err consecutive_errors r
unfolding give_up_waiting
gives_up r many = rw many refl

waits_on :
    (r : Receiving)
    → leb max_consecutive_err r.consecutive_err ≡ false
    → give_up_waiting r ≡ ok tt r
unfolding give_up_waiting
waits_on r few = rw few refl

waited :
    (r : Receiving)
    → leb r.session.cfg.max_retries r.retries ≡ true
    → check_waits r ≡ err wait_retries_exceeded r
unfolding check_waits
waited r late = rw late refl

-- Where no header comes, the wait ends with an error as soon as the fifteenth read in a row fails,
-- or as the failed reads of the session before a file reach MaxRetries; nothing is sent then.
pub wait_gives_up :
    (e : Error) (r : Receiving)
    → (r.consecutive_err + 1 < max_consecutive_err → r.session.cfg.max_retries ≤ r.retries + 1)
    → (t : Receiving) × (failure : Error) × (on_wait_read (bad e) r ≡ err failure t)
      × (t.session ≡ r.session)
unfolding prompt_again
wait_gives_up e r spent =
    let counted = record r { consecutive_err = r.consecutive_err + 1 } in
    let again = record counted { retries = r.retries + 1 } in
    let prompt : M Receiving ReceiverState = on_session send_zrinit >> pure srx_file_wait in
    let wait : M Receiving ReceiverState = count_wait >> (check_waits >> prompt) in
    elim (Bool-cases (leb max_consecutive_err (r.consecutive_err + 1))) [
      | inl many ↦ (
        counted,
        consecutive_errors,
        bind_err give_up_waiting (λ _. wait) counted (gives_up counted many),
        refl,
      )
      | inr few ↦
          let late : leb r.session.cfg.max_retries (r.retries + 1) ≡ true = ground arith in
          (
            again,
            wait_retries_exceeded,
            bind_ok give_up_waiting (λ _. wait) counted (waits_on counted few)
                ∙ bind_err check_waits (λ _. prompt) again (waited again late),
            refl,
          )
    ]
