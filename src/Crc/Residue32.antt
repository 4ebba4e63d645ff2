-- ===== src/Crc/Residue32.antt =====
-- The register of the CRC-32 behind a message and its own CRC.
use go_zmodem.Prelude.{
  ◌≡◌, refl, sym, ap, ◌∙◌, arith, ℕ, zero, suc, ◌/◌, ◌%◌, ◌^◌, ◌<◌, bit_xor, true, [], ◌∷◌, ◌++◌,
  Bytes, IsBytes, ◌==◌, ==_iff, if◌then◌else◌,
}
use go_zmodem.Prelude.Xor.{
  zero-bit_xor, bit_xor-zero, bit_xor_self, bit_xor_assoc, bit_xor-div, bit_xor-mod, bit_xor-lt,
}
use go_zmodem.Crc.{
  crc32_rounds, crc32_step, crc32_loop, crc32_update, crc32_calc, crc32_verify, crc32_verify_magic,
  le32_bytes,
}

pub crc32_loop-append :
    (xs ys : Bytes) (crc : ℕ) → crc32_loop crc (xs ++ ys) ≡ crc32_loop (crc32_loop crc xs) ys
unfolding crc32_loop
crc32_loop-append [] ys crc = refl
crc32_loop-append (x ∷ xs) ys crc = crc32_loop-append xs ys (crc32_step crc x)

crc32_rounds_lt : (n crc : ℕ) → crc < 2 ^ 32 → crc32_rounds n crc < 2 ^ 32
unfolding crc32_rounds
crc32_rounds_lt zero crc h = h
crc32_rounds_lt (suc n) crc h = crc32_rounds_lt n _ (round h)
  where
    round : crc < 2 ^ 32 → (if crc % 2 == 1 then bit_xor (crc / 2) 0xedb88320 else crc / 2) < 2 ^ 32
    round h = ground (arith, bit_xor-lt 32 (crc / 2) 0xedb88320 (omega arith) (omega arith))

-- The register stays a `uint32`.
crc32_step-lt : (crc b : ℕ) → crc < 2 ^ 32 → b < 256 → crc32_step crc b < 2 ^ 32
unfolding crc32_step
crc32_step-lt crc b h k =
    let index = bit_xor-lt 8 (crc % 2 ^ 8) b (omega arith) k in
    bit_xor-lt 32 _ _ (crc32_rounds_lt 8 _ (omega (arith, index))) (omega arith)

pub crc32_loop-lt : (xs : Bytes) (crc : ℕ) → crc < 2 ^ 32 → IsBytes xs → crc32_loop crc xs < 2 ^ 32
unfolding crc32_loop
crc32_loop-lt [] crc h _ = h
crc32_loop-lt (x ∷ xs) crc h (hx, hxs) = crc32_loop-lt xs _ (crc32_step-lt crc x h hx) hxs

-- Feeding the inverted low byte of `y` into `c ^ y` makes the table index independent of `y`.
crc32_step_inverted :
    (c y : ℕ)
    → crc32_step (bit_xor c y) (bit_xor (y % 2 ^ 8) 0xff) ≡ bit_xor (crc32_step c 0xff) (y / 2 ^ 8)
unfolding crc32_step
crc32_step_inverted c y =
    let index : bit_xor (bit_xor c y % 2 ^ 8) (bit_xor (y % 2 ^ 8) 0xff)
        ≡ bit_xor (c % 2 ^ 8) 0xff =
      rw (bit_xor-mod 8 c y) (
        bit_xor_assoc (c % 2 ^ 8) (y % 2 ^ 8) (bit_xor (y % 2 ^ 8) 0xff)
        ∙ ap (bit_xor (c % 2 ^ 8)) (
            sym (bit_xor_assoc (y % 2 ^ 8) (y % 2 ^ 8) 0xff)
            ∙ ap (λ t. bit_xor t 0xff) (bit_xor_self (y % 2 ^ 8))
            ∙ zero-bit_xor 0xff)) in
    rw (index, bit_xor-div 8 c y)
      (sym (bit_xor_assoc (crc32_rounds 8 (bit_xor (c % 2 ^ 8) 0xff)) (c / 2 ^ 8) (y / 2 ^ 8)))

-- The byte of `^r` at bit `k`.
inverted_byte :
    (k r : ℕ)
    → 0xffffffff / 2 ^ k % 2 ^ 8 ≡ 0xff
    → bit_xor r 0xffffffff / 2 ^ k % 2 ^ 8 ≡ bit_xor (r / 2 ^ k % 2 ^ 8) 0xff
inverted_byte k r e =
    ap (λ t. t % 2 ^ 8) (bit_xor-div k r 0xffffffff)
    ∙ bit_xor-mod 8 (r / 2 ^ k) (0xffffffff / 2 ^ k)
    ∙ ap (bit_xor (r / 2 ^ k % 2 ^ 8)) e

-- The register after the inverted bytes of `r` were fed into `r`.
residue : ℕ
residue = crc32_step (crc32_step (crc32_step (crc32_step 0 0xff) 0xff) 0xff) 0xff

crc32_loop_inverted :
    (r : ℕ) → r < 2 ^ 32 → crc32_loop r (le32_bytes (bit_xor r 0xffffffff)) ≡ residue
unfolding crc32_loop residue
crc32_loop_inverted r h =
    let r2 : r / 2 ^ 16 ≡ r / 2 ^ 8 / 2 ^ 8 = omega arith in
    let r3 : r / 2 ^ 24 ≡ r / 2 ^ 8 / 2 ^ 8 / 2 ^ 8 = omega arith in
    let r4 : r / 2 ^ 8 / 2 ^ 8 / 2 ^ 8 / 2 ^ 8 ≡ 0 = omega arith in
    let b0 : bit_xor r 0xffffffff % 2 ^ 8 ≡ bit_xor (r % 2 ^ 8) 0xff = bit_xor-mod 8 r 0xffffffff in
    let b1 = inverted_byte 8 r refl in
    let b2 = inverted_byte 16 r refl in
    let b3 = inverted_byte 24 r refl in
    let x0 = bit_xor (r % 2 ^ 8) 0xff in
    let x1 = bit_xor (r / 2 ^ 8 % 2 ^ 8) 0xff in
    let x2 = bit_xor (r / 2 ^ 8 / 2 ^ 8 % 2 ^ 8) 0xff in
    let x3 = bit_xor (r / 2 ^ 8 / 2 ^ 8 / 2 ^ 8 % 2 ^ 8) 0xff in
    let c1 = crc32_step 0 0xff in
    let c2 = crc32_step c1 0xff in
    let c3 = crc32_step c2 0xff in
    rw (b0, b1, b2, b3, r2, r3)
      (ap (λ t. crc32_step (crc32_step (crc32_step (crc32_step t x0) x1) x2) x3)
          (sym (zero-bit_xor r))
        ∙ ap (λ t. crc32_step (crc32_step (crc32_step t x1) x2) x3) (crc32_step_inverted 0 r)
        ∙ ap (λ t. crc32_step (crc32_step t x2) x3) (crc32_step_inverted c1 (r / 2 ^ 8))
        ∙ ap (λ t. crc32_step t x3) (crc32_step_inverted c2 (r / 2 ^ 8 / 2 ^ 8))
        ∙ crc32_step_inverted c3 (r / 2 ^ 8 / 2 ^ 8 / 2 ^ 8)
        ∙ ap (bit_xor (crc32_step c3 0xff)) r4
        ∙ bit_xor-zero (crc32_step c3 0xff))

residue_magic : bit_xor residue 0xffffffff ≡ crc32_verify_magic
unfolding residue crc32_step
residue_magic = refl

-- Bytes followed by their own CRC-32 pass `crc32Verify`.
pub crc32_verify-append :
    (xs : Bytes) → IsBytes xs → crc32_verify (xs ++ le32_bytes (crc32_calc xs)) ≡ true
unfolding crc32_verify crc32_calc crc32_update
crc32_verify-append xs h =
    let run = crc32_loop 0xffffffff xs in
    let fits = crc32_loop-lt xs 0xffffffff (omega arith) h in
    (==_iff _ crc32_verify_magic).1 (
      rw (crc32_loop-append xs (le32_bytes (bit_xor run 0xffffffff)) 0xffffffff)
        (ap (λ t. bit_xor t 0xffffffff) (crc32_loop_inverted run fits) ∙ residue_magic))

-- The CRC is a `uint32`.
pub crc32_update-lt :
    (xs : Bytes) (crc : ℕ) → crc < 2 ^ 32 → IsBytes xs → crc32_update crc xs < 2 ^ 32
unfolding crc32_update
crc32_update-lt xs crc h bytes =
    let start = bit_xor-lt 32 crc 0xffffffff h (omega arith) in
    bit_xor-lt 32 (crc32_loop (bit_xor crc 0xffffffff) xs) 0xffffffff
      (crc32_loop-lt xs (bit_xor crc 0xffffffff) start bytes) (omega arith)
