-- ===== src/Session/Ranges.antt =====
-- The numbers of a configuration behind `defaults`.
use go_zmodem.Prelude.{
  ◌≡◌, refl, ap, arith, inl, inr, ℕ, ◌≤◌, ◌<◌, true, false, ltb, Bool-cases, if◌then◌else◌,
}
use go_zmodem.Prelude.Int.{ℤ, pos, pos_part}
use go_zmodem.Session.{Settings, defaults, or_default, at_most, not_negative}

or_default_positive : (d : ℕ) (n : ℤ) → 0 < d → 1 ≤ pos_part (or_default d n)
or_default_positive d n h = elim (Bool-cases (ltb 0 (pos_part n))) [
  | inl kept ↦ rw kept (ground arith)
  | inr replaced ↦ rw replaced h
]

or_default_again : (d : ℕ) (n : ℤ) → 0 < d → or_default d (or_default d n) ≡ or_default d n
or_default_again d n h =
    let positive : ltb 0 (pos_part (or_default d n)) ≡ true =
      let least = or_default_positive d n h in ground arith in
    ap (λ b. if b then or_default d n else pos d) positive

at_most_bounds :
    (top : ℕ) (n : ℤ)
    → 1 ≤ top
    → 1 ≤ pos_part n
    → (1 ≤ pos_part (at_most top n)) × (pos_part (at_most top n) ≤ top)
at_most_bounds top n some least = elim (Bool-cases (ltb top (pos_part n))) [
  | inl cut ↦ rw cut (some, omega arith)
  | inr kept ↦ rw kept (least, ground arith)
]

block_size_bounds :
    (n : ℤ)
    → (1 ≤ pos_part (at_most 8192 (or_default 1024 n)))
      × (pos_part (at_most 8192 (or_default 1024 n)) ≤ 8192)
block_size_bounds n =
    at_most_bounds 8192 (or_default 1024 n) (omega arith) (or_default_positive 1024 n (omega arith))

-- A number in its range stays as it is.
in_range :
    (d top : ℕ) (n : ℤ) → 1 ≤ pos_part n → pos_part n ≤ top → at_most top (or_default d n) ≡ n
in_range d top n least low =
    let positive : ltb 0 (pos_part n) ≡ true = ground arith in
    let fits : ltb top (pos_part n) ≡ false = ground arith in rw positive (rw fits refl)

-- Whatever the application supplies, negative numbers included: behind `defaults` a block has
-- between 1 and 8192 bytes, a retry and a garbage byte are allowed, the timeout is not negative and
-- is kept if it was not, a block size, retries and a threshold in their ranges are kept, and a
-- second application changes nothing.
pub defaults_bounds :
    (c : Settings)
    → (1 ≤ pos_part (defaults c).max_block_size)
      × (pos_part (defaults c).max_block_size ≤ 8192)
      × (1 ≤ pos_part (defaults c).max_retries)
      × (1 ≤ pos_part (defaults c).garbage_threshold)
      × ((defaults c).recv_timeout ≡ pos (pos_part c.recv_timeout))
      × (1 ≤ pos_part c.max_block_size
          → pos_part c.max_block_size ≤ 8192
          → (defaults c).max_block_size ≡ c.max_block_size)
      × (1 ≤ pos_part c.max_retries → (defaults c).max_retries ≡ c.max_retries)
      × (1 ≤ pos_part c.garbage_threshold → (defaults c).garbage_threshold ≡ c.garbage_threshold)
      × (defaults (defaults c) ≡ defaults c)
unfolding defaults
defaults_bounds c =
    let (low, high) = block_size_bounds c.max_block_size in
    (
      low,
      high,
      or_default_positive 10 c.max_retries (omega arith),
      or_default_positive 1200 c.garbage_threshold (omega arith),
      refl,
      in_range 1024 8192 c.max_block_size,
      kept 10 c.max_retries,
      kept 1200 c.garbage_threshold,
      λ i. record c {
        max_block_size = in_range 1024 8192 (defaults c).max_block_size low high i;
        recv_timeout = not_negative c.recv_timeout;
        max_retries = or_default_again 10 c.max_retries (omega arith) i;
        garbage_threshold = or_default_again 1200 c.garbage_threshold (omega arith) i;
      },
    )
  where
    kept : (d : ℕ) (n : ℤ) → 1 ≤ pos_part n → or_default d n ≡ n
    kept d n least = let positive : ltb 0 (pos_part n) ≡ true = ground arith in rw positive refl
