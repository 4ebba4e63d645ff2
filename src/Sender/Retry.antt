-- ===== src/Sender/Retry.antt =====
-- `sender.go`: the rounds of `recvHeaderRetry`, and of the waits in `stxData`.
use go_zmodem.Prelude.{
  ◌≡◌, refl, arith, ℕ, zero, suc, ◌+◌, ◌-◌, ◌≤◌, ◌<◌, Bool, true, false, Option, none, some, length,
  leb, if◌then◌else◌,
}
use go_zmodem.Monad.{
  Res, ok, err, M, attempt, ◌>>=◌, ◌>>◌, Error, is_out_of_fuel, wrapped, retries_exceeded,
  max_retries,
}
use go_zmodem.Reader.Total.{Below}
use go_zmodem.Frame.Total.{recv_header-Below}
use go_zmodem.Reader.{Reader}
use go_zmodem.Frame.{Header, recv_header}
use go_zmodem.Session.{ctx_err, ctx_err_of, on_world, on_reader}
use go_zmodem.Sender.{
  Sending, on_session, max_tries, retry, retry_loop, recv_header_retry, check_context, next_header,
  out_of_retries,
}

-- With `n` retries before and at most `m` allowed: a header came within the retries, or the call
-- failed with an error of the program.
abbrev pub Tried : ℕ → ℕ → Res Sending Header → Type 0
Tried n m (ok h t) = (n ≤ t.retries) × (t.retries < m)
Tried n m (err e t) = is_out_of_fuel e ≡ false

Tried-if :
    (n m : ℕ) (b : Bool) (x y : Res Sending Header)
    → (b ≡ true → Tried n m x)
    → (b ≡ false → Tried n m y)
    → Tried n m (if b then x else y)
Tried-if n m true x y p q = p refl
Tried-if n m false x y p q = q refl

Tried-mono : (n k m : ℕ) (x : Res Sending Header) → n ≤ k → Tried k m x → Tried n m x
Tried-mono n k m (ok h t) le p = (omega arith, p.1)
Tried-mono n k m (err e t) le p = p

-- The rounds that follow, from a state with so many retries.
abbrev Goes : ℕ → ℕ → M Sending Header → Type 0
Goes n m again = (u : Sending) → u.retries ≡ n → max_tries u ≡ m → Tried n m (again u)

leb_lt : (a b : ℕ) → leb a b ≡ false → b < a
leb_lt a b h = ground arith

out_of_retries-Tried :
    (e : Error) (again : M Sending Header) (n m : ℕ)
    → is_out_of_fuel e ≡ false
    → (n < m → Goes n m again)
    → Goes n m (out_of_retries e again)
out_of_retries-Tried e again n m own goes u same top =
    Tried-if n m (leb (max_tries u) u.retries) (err e u) (again u) (λ _. own)
      (λ left. let some = leb_lt (max_tries u) u.retries left in goes (omega arith) u same top)

module _ (again : M Sending Header) (n m : ℕ) (few : n < m)
    (goes : suc n < m → Goes (suc n) m again) where
  read-Tried :
      (k : ℕ) (x : Res Reader Header) (u : Sending)
      → Below k x
      → u.retries ≡ n
      → max_tries u ≡ m
      → Tried n m ((attempt (on_session (on_reader (λ _. x))) >>= retry again) u)
  read-Tried k (ok h tr) u below same top = (omega arith, omega arith)
  read-Tried k (err e tr) u below same top =
      let there = record u { session = record u.session { tr = tr }; retries = u.retries + 1 } in
      Tried-mono n (suc n) m (out_of_retries (wrapped max_retries e) again there) (omega arith) (
        out_of_retries-Tried (wrapped max_retries e) again (suc n) m below goes there (omega arith)
          top)

  context-Tried :
      (o : Option ℕ) (u : Sending)
      → u.retries ≡ n
      → max_tries u ≡ m
      → Tried n m
          ((on_session (on_world (ctx_err_of o)) >> (attempt next_header >>= retry again)) u)
  context-Tried none u same top =
      let tr = u.session.tr in
      read-Tried (length tr.input) (recv_header tr) u (recv_header-Below tr) same top
  context-Tried (some zero) u same top = refl
  context-Tried (some (suc k)) u same top =
      let there = record u {
        session = record u.session { world = record u.session.world { live_for = some k } };
      } in
      let tr = u.session.tr in
      read-Tried (length tr.input) (recv_header tr) there (recv_header-Below tr) same top

  round-Tried : Goes n m (check_context >> (attempt next_header >>= retry again))
  unfolding ctx_err
  round-Tried u same top = context-Tried u.session.world.live_for u same top

retry_loop-Tried : (fuel n m : ℕ) → 0 < fuel → m < fuel + n → Goes n m (retry_loop fuel)
unfolding retry_loop
retry_loop-Tried zero n m fuelled enough = absurd (omega arith)
retry_loop-Tried (suc fuel) n m fuelled enough =
    let again = retry_loop fuel in
    out_of_retries-Tried retries_exceeded (check_context >> (attempt next_header >>= retry again)) n
      m refl
      (λ few.
        round-Tried again n m few
          (λ more. retry_loop-Tried fuel (suc n) m (omega arith) (omega arith)))

-- `recvHeaderRetry` returns whatever the peer sends, and its loop does not run out of fuel: with a
-- header, behind which fewer retries than MaxRetries are counted and not fewer than before, or with
-- an error of the program.
pub recv_header_retry-Tried : (r : Sending) → Tried r.retries (max_tries r) (recv_header_retry r)
unfolding recv_header_retry
recv_header_retry-Tried r =
    retry_loop-Tried (suc (max_tries r - r.retries)) r.retries (max_tries r) (omega arith)
      (omega arith) r refl refl
