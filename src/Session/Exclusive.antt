-- ===== src/Session/Exclusive.antt =====
-- `acquire` and `release` around a transfer.
use go_zmodem.Prelude.{◌≡◌, refl, ap, ◌∙◌, Bool, true, false, if◌then◌else◌}
use go_zmodem.Monad.{Res, ok, err, M, final, outcome, already_active, bind_ok, fail}
use go_zmodem.Session.{Session, acquire, exclusively, releasing}

-- The session while a transfer runs on it.
abbrev pub activated : Session → Session
activated s = record s { active = true }

acquire_free : (s : Session) → s.active ≡ false → acquire s ≡ ok true (activated s)
unfolding acquire
acquire_free s free = ap (λ b. if b then ok false s else ok true (activated s)) free

abbrev started : M Session (Unit {0}) → Bool → M Session (Unit {0})
started run free = if free then releasing run else fail already_active

released : (x : Res Session (Unit {0})) → outcome (releasing (λ _. x) (final x)) ≡ outcome x
released (ok a t) = refl
released (err e t) = refl

inactive :
    (x : Res Session (Unit {0})) (s : Session) → (final (releasing (λ _. x) s)).active ≡ false
inactive (ok a t) s = refl
inactive (err e t) s = refl

-- On a free session, a transfer runs with the session marked active, its result is the result,
-- and the session is free afterwards, whether the transfer failed or not.
pub exclusively_free :
    (run : M Session (Unit {0})) (s : Session)
    → s.active ≡ false
    → (outcome (exclusively run s) ≡ outcome (run (activated s)))
      × ((final (exclusively run s)).active ≡ false)
unfolding exclusively
exclusively_free run s free =
    let runs = bind_ok acquire (started run) s (acquire_free s free) in
    let x = run (activated s) in
    (
      ap outcome runs ∙ released x,
      ap (λ (y : Res Session (Unit {0})). (final y).active) runs ∙ inactive x (activated s),
    )
