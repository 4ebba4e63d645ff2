-- ===== src/Crc/Residue16.antt =====
-- The register of the CRC-16 behind a message and its own CRC.
use go_zmodem.Prelude.{
  ◌≡◌, refl, sym, ap, ◌∙◌, arith, ℕ, ◌*◌, ◌/◌, ◌%◌, ◌^◌, ◌<◌, bit_xor, true, [], ◌∷◌, ◌++◌, Bytes,
  get_or, ==_iff, ltb, all_below, all_below_at,
}
use go_zmodem.Prelude.Xor.{
  bit_xor-zero, bit_xor_self, bit_xor_assoc, bit_xor-div, bit_xor-mod, bit_xor-lt, bit_xor-shift,
  bit_xor_fields,
}
use go_zmodem.Crc.{
  crctab, updcrc16, crc16_update, crc16_finalize, crc16_calc, crc16_verify, crc16_bytes,
}

pub crc16_update-append :
    (xs ys : Bytes) (crc : ℕ) → crc16_update crc (xs ++ ys) ≡ crc16_update (crc16_update crc xs) ys
unfolding crc16_update
crc16_update-append [] ys crc = refl
crc16_update-append (x ∷ xs) ys crc = crc16_update-append xs ys (updcrc16 x crc)

-- Both ways to the transmitted value: `crc16Calc`, and `crc16Finalize` on a running CRC.
pub crc16_calc-finalize : (xs : Bytes) → crc16_calc xs ≡ crc16_finalize (crc16_update 0 xs)
unfolding crc16_calc crc16_finalize
crc16_calc-finalize xs = refl

crctab_lt : (i : ℕ) → i < 256 → get_or crctab i 0 < 2 ^ 16
crctab_lt i h = ground (arith, all_below_at 256 (λ i. ltb (get_or crctab i 0) (2 ^ 16)) i h table)
  where
    table : all_below 256 (λ i. ltb (get_or crctab i 0) (2 ^ 16)) ≡ true
    table = unfold all_below crctab in refl

-- The register stays a `uint16`.
updcrc16_lt : (b crc : ℕ) → b < 2 ^ 16 → updcrc16 b crc < 2 ^ 16
unfolding updcrc16
updcrc16_lt b crc h =
    let entry = crctab_lt (crc / 2 ^ 8 % 2 ^ 8) (omega arith) in
    let shifted : crc * 2 ^ 8 % 2 ^ 16 < 2 ^ 16 = omega arith in
    bit_xor-lt 16 _ b (bit_xor-lt 16 _ _ entry shifted) h

pub crc16_finalize-lt : (crc : ℕ) → crc16_finalize crc < 2 ^ 16
unfolding crc16_finalize
crc16_finalize-lt crc = updcrc16_lt 0 (updcrc16 0 crc) (omega arith)

-- A byte only changes the register by an exclusive or.
updcrc16_byte : (b crc : ℕ) → updcrc16 b crc ≡ bit_xor (updcrc16 0 crc) b
unfolding updcrc16
updcrc16_byte b crc =
    rw (bit_xor-zero (bit_xor (get_or crctab (crc / 2 ^ 8 % 2 ^ 8) 0) (crc * 2 ^ 8 % 2 ^ 16)))

times_256 : (n : ℕ) → n * 2 ^ 8 % 2 ^ 16 ≡ n % 2 ^ 8 * 2 ^ 8
times_256 n = omega arith

-- The next byte shifts the earlier one up.
updcrc16_shift :
    (hi crc : ℕ) → hi < 256 → updcrc16 0 (bit_xor crc hi) ≡ bit_xor (updcrc16 0 crc) (hi * 2 ^ 8)
unfolding updcrc16
updcrc16_shift hi crc h =
    let hi_div : hi / 2 ^ 8 ≡ 0 = omega arith in
    let hi_mod : hi % 2 ^ 8 ≡ hi = omega arith in
    let index : bit_xor crc hi / 2 ^ 8 ≡ crc / 2 ^ 8 =
      bit_xor-div 8 crc hi ∙ ap (bit_xor (crc / 2 ^ 8)) hi_div ∙ bit_xor-zero (crc / 2 ^ 8) in
    let low : bit_xor crc hi % 2 ^ 8 ≡ bit_xor (crc % 2 ^ 8) hi =
      bit_xor-mod 8 crc hi ∙ ap (bit_xor (crc % 2 ^ 8)) hi_mod in
    let shifted : bit_xor crc hi * 2 ^ 8 % 2 ^ 16 ≡ bit_xor (crc * 2 ^ 8 % 2 ^ 16) (hi * 2 ^ 8) =
      times_256 (bit_xor crc hi)
      ∙ ap (λ t. t * 2 ^ 8) low
      ∙ sym (bit_xor-shift 8 (crc % 2 ^ 8) hi)
      ∙ ap (λ t. bit_xor t (hi * 2 ^ 8)) (sym (times_256 crc)) in
    rw (index, shifted) (simp (bit_xor-zero, bit_xor_assoc))

feed_twice :
    (hi lo crc : ℕ)
    → hi < 256
    → updcrc16 lo (updcrc16 hi crc) ≡ bit_xor (crc16_finalize crc) (bit_xor (hi * 2 ^ 8) lo)
unfolding crc16_finalize
feed_twice hi lo crc h =
    updcrc16_byte lo (updcrc16 hi crc)
    ∙ ap (λ t. bit_xor (updcrc16 0 t) lo) (updcrc16_byte hi crc)
    ∙ ap (λ t. bit_xor t lo) (updcrc16_shift hi (updcrc16 0 crc) h)
    ∙ bit_xor_assoc (crc16_finalize crc) (hi * 2 ^ 8) lo

-- What `crc16Verify` tests.
pub crc16_update_residue :
    (xs : Bytes) (crc : ℕ)
    → crc16_update crc (xs ++ crc16_bytes (crc16_finalize (crc16_update crc xs))) ≡ 0
crc16_update_residue xs crc =
    let run = crc16_update crc xs in
    let sum = crc16_finalize run in
    let fits = crc16_finalize-lt run in
    let joined : bit_xor (sum / 2 ^ 8 % 2 ^ 8 * 2 ^ 8) (sum % 2 ^ 8) ≡ sum =
      bit_xor_fields (sum / 2 ^ 8 % 2 ^ 8) (sum % 2 ^ 8) (omega arith) ∙ omega arith in
    crc16_update-append xs (crc16_bytes sum) crc
    ∙ unfold crc16_update in
      feed_twice (sum / 2 ^ 8 % 2 ^ 8) (sum % 2 ^ 8) run (omega arith)
      ∙ ap (bit_xor sum) joined
      ∙ bit_xor_self sum

-- A message of any length followed by its own CRC-16 passes `crc16Verify`.
pub crc16_verify-append : (xs : Bytes) → crc16_verify (xs ++ crc16_bytes (crc16_calc xs)) ≡ true
unfolding crc16_verify
crc16_verify-append xs = (==_iff _ 0).1 (rw crc16_calc-finalize (crc16_update_residue xs 0))

-- The residue property behind merged subpackets: whatever follows a message and its CRC has the
-- CRC that it has alone.
pub crc16_calc_merged :
    (xs ys : Bytes) → crc16_calc (xs ++ crc16_bytes (crc16_calc xs) ++ ys) ≡ crc16_calc ys
crc16_calc_merged xs ys = rw (
  crc16_calc-finalize ys,
  crc16_calc-finalize xs,
  crc16_calc-finalize (xs ++ crc16_bytes (crc16_finalize (crc16_update 0 xs)) ++ ys),
  crc16_update-append (xs ++ crc16_bytes (crc16_finalize (crc16_update 0 xs))) ys 0,
  crc16_update_residue xs 0,
)
