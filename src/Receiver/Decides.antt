-- ===== src/Receiver/Decides.antt =====
-- `recoverData`: when the receiver gives up, and what it asks for when it does not.
use go_zmodem.Prelude.{
  inl, inr, ◌⊎◌, Bool-cases, ◌≡◌, refl, ap, ◌∙◌, arith, ℕ, ◌+◌, ◌-◌, ◌<◌, ◌≤◌, Bool, true, false,
  List, [], ◌∷◌, ◌++◌, ltb, leb, if◌then◌else◌,
}
use go_zmodem.Monad.{
  Error, ok, err, M, pure, fail, zoom, ◌>>=◌, ◌>>◌, retries_exceeded, stalled, final, bind_ok,
  bind_err,
}
use go_zmodem.Constants.{zrpos}
use go_zmodem.Bufio.Output.{IsHealthy, stream}
use go_zmodem.Reader.{purge}
use go_zmodem.Frame.{make_pos_header}
use go_zmodem.Frame.Encode.{hex_wire, send_hex_header-Sends}
use go_zmodem.Session.{Session, World, now, now_of, on_world, on_reader, on_writer}
use go_zmodem.Receiver.{
  Receiving, recover_data, check_budget, check_stalled, data_retry_budget, send_attn, send_attn_of,
  on_session, send_position,
}

budget_spent :
    (r : Receiving)
    → r.session.cfg.data_stall_timeout ≡ 0
    → data_retry_budget < r.retries
    → check_budget r ≡ err retries_exceeded r
unfolding check_budget
budget_spent r count_based spent = ground arith

budget_left :
    (r : Receiving)
    → r.session.cfg.data_stall_timeout ≡ 0
    → r.retries ≤ data_retry_budget
    → check_budget r ≡ ok tt r
unfolding check_budget
budget_left r count_based left = ground arith

ltb_of : {n : ℕ} → 0 < n → ltb 0 n ≡ true
ltb_of h = ground arith

abbrev ask : M Receiving (Unit {0})
ask = on_session (on_reader purge) >> (on_session send_attn >> send_position)

send_attn_none : (s : Session) → s.attn_seq ≡ [] → send_attn s ≡ ok tt s
unfolding send_attn
send_attn_none s empty = ap (λ a. send_attn_of a s) empty

-- The session behind a reading of the clock.
abbrev clock_read : Session → Session
clock_read s = record s { world = final (now s.world) }

abbrev pub clock_time : Receiving → ℕ
clock_time r = (final (now r.session.world)).time

now_lem : (w : World) → now w ≡ ok (final (now w)).time (final (now w))
unfolding now
now_lem w = go w.ticks
  where
    go :
        (ticks : List ℕ)
        → now_of ticks w ≡ ok (final (now_of ticks w)).time (final (now_of ticks w))
    go [] = refl
    go (t ∷ ts) = refl

abbrev elapsed_over : Session → Bool
elapsed_over s = leb s.cfg.data_stall_timeout ((final (now s.world)).time - s.last_progress_at)

check_stalled_lem :
    (s : Session)
    → check_stalled s
      ≡ (if elapsed_over s then err stalled (clock_read s) else ok tt (clock_read s))
unfolding check_stalled
check_stalled_lem s = rw (now_lem s.world, ◌>>=◌, on_world, zoom) (go (elapsed_over s))
  where
    go :
        (b : Bool)
        → (if b then fail stalled else pure tt) (clock_read s)
          ≡ (if b then err stalled (clock_read s) else ok tt (clock_read s))
    go true = refl
    go false = refl

-- One retry more than before, and the world behind the check of the budget.
abbrev counted : World → Receiving → Receiving
counted w r = record r { retries = r.retries + 1; session = record r.session { world = w } }

check_timed :
    (r : Receiving) (b : Bool)
    → 0 < r.session.cfg.data_stall_timeout
    → elapsed_over r.session ≡ b
    → check_budget (record r { retries = r.retries + 1 }) ≡ (
        if b
        then err stalled (counted (final (now r.session.world)) r)
        else ok tt (counted (final (now r.session.world)) r))
unfolding check_budget
check_timed r b timed over =
    rw (ltb_of timed) (rw (check_stalled_lem r.session, over, on_session, zoom) (go b))
  where
    there : Session
    there = clock_read r.session

    go :
        (b : Bool)
        → on_session
            (λ _. if b then err stalled there else ok tt there)
            (record r { retries = r.retries + 1 })
          ≡ (if b
              then err stalled (counted (final (now r.session.world)) r)
              else ok tt (counted (final (now r.session.world)) r))
    go true = refl
    go false = refl

-- A header ZRPOS with the write offset goes on the wire behind what was sent before; the offset
-- stays, and a retry is counted.
abbrev pub Asks : Receiving → Type 0
Asks r =
    (t : Receiving) × (recover_data r ≡ ok tt t)
    × (t.session.tw.w.wire
        ≡ stream r.session.tw.w ++ hex_wire (make_pos_header zrpos r.file_offset))
    × (t.file_offset ≡ r.file_offset)
    × (t.retries ≡ r.retries + 1)

-- The call fails and sends nothing.
abbrev pub GivesUp : Error → Receiving → Type 0
GivesUp e r =
    (t : Receiving) × (recover_data r ≡ err e t)
    × (t.session.tw ≡ r.session.tw)
    × (t.file_offset ≡ r.file_offset)

checked-Asks :
    (r : Receiving) (w : World)
    → check_budget (record r { retries = r.retries + 1 }) ≡ ok tt (counted w r)
    → r.session.attn_seq ≡ []
    → IsHealthy r.session.tw.w
    → Asks r
unfolding recover_data send_attn purge
checked-Asks r w budget no_attn healthy =
    let start = record r { retries = r.retries + 1 } in
    let there = counted w r in
    let sends = send_hex_header-Sends (make_pos_header zrpos r.file_offset) r.session.tw healthy in
    let purged = record there {
      session = record there.session { tr = final (purge r.session.tr) };
    } in
    let asked = record purged { session = record purged.session { tw = sends.after } } in
    let silent = ap (λ x. on_session (λ _. x) purged) (send_attn_none purged.session no_attn) in
    let sent = ap (λ x. on_session (on_writer (λ _. x)) purged) sends.returns in
    (
      asked,
      bind_ok check_budget (λ _. ask) start budget
          ∙ bind_ok (on_session send_attn) (λ _. send_position) purged silent
          ∙ sent,
      sends.on_wire,
      refl,
      refl,
    )

checked-GivesUp :
    (e : Error) (r : Receiving) (w : World)
    → check_budget (record r { retries = r.retries + 1 }) ≡ err e (counted w r)
    → GivesUp e r
unfolding recover_data
checked-GivesUp e r w fails = (
  counted w r,
  bind_err check_budget (λ _. ask) (record r { retries = r.retries + 1 }) fails,
  refl,
  refl,
)

-- What `recoverData` does, with no attention sequence set and a transport that takes the bytes.
-- Without a stall timeout it gives up if 25 retries were counted before, and otherwise asks. With
-- one it gives up if, at the clock, no valid subpacket came for that long, and otherwise asks,
-- however many retries there were. To ask is to count a retry and to send ZRPOS with the write
-- offset; when it gives up nothing is sent.
pub recover_data_decides :
    (r : Receiving)
    → r.session.attn_seq ≡ []
    → IsHealthy r.session.tw.w
    → (((r.session.cfg.data_stall_timeout ≡ 0) × (25 ≤ r.retries) × GivesUp retries_exceeded r)
        ⊎ ((r.session.cfg.data_stall_timeout ≡ 0) × (r.retries < 25) × Asks r))
      ⊎ (((0 < r.session.cfg.data_stall_timeout)
            × (r.session.last_progress_at + r.session.cfg.data_stall_timeout ≤ clock_time r)
            × GivesUp stalled r)
          ⊎ ((0 < r.session.cfg.data_stall_timeout)
              × (clock_time r < r.session.last_progress_at + r.session.cfg.data_stall_timeout)
              × Asks r))
recover_data_decides r no_attn healthy =
    elim (Bool-cases (ltb 0 r.session.cfg.data_stall_timeout)) [
      | inl on ↦
          let timed : 0 < r.session.cfg.data_stall_timeout = ground arith in
          inr (by_clock timed (Bool-cases (elapsed_over r.session)))
      | inr off ↦
          let untimed : r.session.cfg.data_stall_timeout ≡ 0 = ground arith in
          inl (by_count untimed (Bool-cases (ltb r.retries 25)))
    ]
  where
    w : World
    w = r.session.world

    start : Receiving
    start = record r { retries = r.retries + 1 }

    by_count :
        r.session.cfg.data_stall_timeout ≡ 0
        → (ltb r.retries 25 ≡ true) ⊎ (ltb r.retries 25 ≡ false)
        → ((r.session.cfg.data_stall_timeout ≡ 0) × (25 ≤ r.retries) × GivesUp retries_exceeded r)
          ⊎ ((r.session.cfg.data_stall_timeout ≡ 0) × (r.retries < 25) × Asks r)
    by_count untimed (inl few) =
        let low : r.retries < 25 = ground arith in
        inr
          (untimed, low, checked-Asks r w (budget_left start untimed (omega arith)) no_attn healthy)
    by_count untimed (inr many) =
        let high : 25 ≤ r.retries = ground arith in
        inl (
          untimed,
          high,
          checked-GivesUp retries_exceeded r w (budget_spent start untimed (omega arith)),
        )

    by_clock :
        0 < r.session.cfg.data_stall_timeout
        → (elapsed_over r.session ≡ true) ⊎ (elapsed_over r.session ≡ false)
        → ((0 < r.session.cfg.data_stall_timeout)
            × (r.session.last_progress_at + r.session.cfg.data_stall_timeout ≤ clock_time r)
            × GivesUp stalled r)
          ⊎ ((0 < r.session.cfg.data_stall_timeout)
              × (clock_time r < r.session.last_progress_at + r.session.cfg.data_stall_timeout)
              × Asks r)
    by_clock timed (inl over) =
        let late : r.session.last_progress_at + r.session.cfg.data_stall_timeout ≤ clock_time r =
          ground arith in
        inl (timed, late, checked-GivesUp stalled r (final (now w)) (check_timed r true timed over))
    by_clock timed (inr in_time) =
        let soon : clock_time r < r.session.last_progress_at + r.session.cfg.data_stall_timeout =
          ground arith in
        inr (
          timed,
          soon,
          checked-Asks r (final (now w)) (check_timed r false timed in_time) no_attn healthy,
        )
