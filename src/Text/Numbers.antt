-- ===== src/Text/Numbers.antt =====
-- Printing numbers and parsing them.
use native.Mathlib.Nat.{div-add-mod', mod-lt, div-lt_self}
use go_zmodem.Prelude.{
  ◌≡◌, refl, ap, ◌∙◌, arith, ℕ, zero, suc, ◌+◌, ◌-◌, ◌*◌, ◌/◌, ◌%◌, ◌^◌, ◌<◌, ◌≤◌, true, false,
  ◌&&◌, some, [], ◌∷◌, Bytes, IsBytes, All, ltb, leb, ◌==◌, Bool-cases, inl, inr,
}
use go_zmodem.Prelude.Int.{ℤ, pos, negsuc}
use go_zmodem.Text.{
  digits, format_uint, format_int, scan_digits, parse_uint, positive, negative, parse_int,
}
use go_zmodem.Text.Words.{IsVisible}

abbrev pub IsDigit : ℕ → Type 0
IsDigit c = (b'0' ≤ c) × (c < b'0' + 10)

-- Within 64 bits.
abbrev pub IsInt64 : ℤ → Type 0
IsInt64 (pos n) = n < 2 ^ 63
IsInt64 (negsuc n) = n < 2 ^ 63

All-map : (P Q : ℕ → Type 0) → ((c : ℕ) → P c → Q c) → (cs : Bytes) → All P cs → All Q cs
All-map P Q f [] h = tt
All-map P Q f (c ∷ cs) (h, hs) = (f c h, All-map P Q f cs hs)

module _ (base : ℕ) (low : 2 ≤ base) (high : base ≤ 10) where
  positive_base : 0 < base
  positive_base = omega arith

  scan_digits-digit :
      (n : ℕ) (out : Bytes)
      → scan_digits base ((b'0' + n % base) ∷ out) (n / base) ≡ scan_digits base out n
  unfolding scan_digits
  scan_digits-digit n out =
      let small = mod-lt n positive_base in
      let value : n / base * base + (b'0' + n % base - b'0') ≡ n =
        omega (arith, div-add-mod' n base) in
      let is_digit : leb b'0' (b'0' + n % base) && ltb (b'0' + n % base) (b'0' + base) ≡ true =
        ground (arith, small) in
      rw (is_digit, value) refl

  div_less : (n : ℕ) → 0 < n → n / base < n
  div_less n h = div-lt_self h low

  scan_digits-digits :
      (fuel n : ℕ) (out : Bytes)
      → n ≤ fuel
      → scan_digits base (digits base fuel n out) 0 ≡ scan_digits base out n
  unfolding digits
  scan_digits-digits zero n out h = ap (scan_digits base out) (omega arith)
  scan_digits-digits (suc fuel) n out h = elim (Bool-cases (n == 0)) [
    | inl done ↦ rw done (ap (scan_digits base out) (ground arith))
    | inr more ↦
        let less : n / base ≤ fuel = omega (arith, div_less n (ground arith)) in
        rw more (
          scan_digits-digits fuel (n / base) ((b'0' + n % base) ∷ out) less
          ∙ scan_digits-digit n out)
  ]

  -- A number is printed with a digit at least.
  digits_cons :
      (fuel n d : ℕ) (out : Bytes)
      → (c : ℕ) × (cs : Bytes) × (digits base fuel n (d ∷ out) ≡ c ∷ cs)
  unfolding digits
  digits_cons zero n d out = (d, out, refl)
  digits_cons (suc fuel) n d out = elim (Bool-cases (n == 0)) [
    | inl done ↦ (d, out, rw done refl)
    | inr more ↦
        let (c, cs, e) = digits_cons fuel (n / base) (b'0' + n % base) (d ∷ out) in
        (c, cs, rw more e)
  ]

  digits-IsDigit :
      (fuel n : ℕ) (out : Bytes) → All IsDigit out → All IsDigit (digits base fuel n out)
  unfolding digits
  digits-IsDigit zero n out h = h
  digits-IsDigit (suc fuel) n out h = elim (Bool-cases (n == 0)) [
    | inl done ↦ rw done h
    | inr more ↦
        let small = mod-lt n positive_base in
        rw more
          (digits-IsDigit fuel (n / base) ((b'0' + n % base) ∷ out) ((omega arith, omega arith), h))
  ]

  format_uint-IsDigit : (n : ℕ) → All IsDigit (format_uint base n)
  unfolding format_uint
  format_uint-IsDigit n = elim (Bool-cases (n == 0)) [
    | inl zeros ↦ rw zeros ((omega arith, omega arith), tt)
    | inr more ↦ rw more (digits-IsDigit n n [] tt)
  ]

  format_uint_digit :
      (n : ℕ) → format_uint base (suc n) ≡ digits base n (suc n / base) ((b'0' + suc n % base) ∷ [])
  unfolding format_uint digits
  format_uint_digit n = let more : (suc n == 0) ≡ false = ground arith in rw more refl

  format_uint_cons : (n : ℕ) → (c : ℕ) × (cs : Bytes) × (format_uint base n ≡ c ∷ cs)
  unfolding format_uint
  format_uint_cons zero = (b'0', [], refl)
  format_uint_cons (suc n) =
      let (c, cs, e) = digits_cons n (suc n / base) (b'0' + suc n % base) [] in
      (c, cs, format_uint_digit n ∙ e)

  scanned_end : (n : ℕ) → scan_digits base [] n ≡ some n
  unfolding scan_digits
  scanned_end n = refl

  zero_scanned : scan_digits base (b'0' ∷ []) 0 ≡ some 0
  unfolding scan_digits
  zero_scanned =
      let digit : ltb b'0' (b'0' + base) ≡ true = ground arith in
      let value : 0 * base + 0 ≡ 0 = omega arith in rw digit (rw value refl)

  scan_digits-format_uint : (n : ℕ) → scan_digits base (format_uint base n) 0 ≡ some n
  unfolding format_uint
  scan_digits-format_uint zero = zero_scanned
  scan_digits-format_uint (suc n) =
      ap (λ bs. scan_digits base bs 0) (format_uint_digit n)
      ∙ scan_digits-digits n (suc n / base) ((b'0' + suc n % base) ∷ [])
          (omega (arith, div_less (suc n) (omega arith)))
      ∙ scan_digits-digit (suc n) []
      ∙ scanned_end (suc n)

  pub parse_uint-format_uint :
      (limit n : ℕ) → n < limit → parse_uint base limit (format_uint base n) ≡ some n
  unfolding parse_uint
  parse_uint-format_uint limit n h =
      let (c, cs, e) = format_uint_cons n in
      let scanned = rw e at (scan_digits-format_uint n) in
      let fits : ltb n limit ≡ true = ground arith in rw e (rw scanned (rw fits refl))

  parse_int_digit :
      (c : ℕ) (cs : Bytes)
      → IsDigit c
      → parse_int base (c ∷ cs) ≡ positive (parse_uint base (2 ^ 63) (c ∷ cs))
  unfolding parse_int
  parse_int_digit c cs h =
      let not_minus : (c == b'-') ≡ false = ground arith in
      let not_plus : (c == b'+') ≡ false = ground arith in rw not_minus (rw not_plus refl)

  parse_int_minus :
      (cs : Bytes) → parse_int base (b'-' ∷ cs) ≡ negative (parse_uint base (2 ^ 63 + 1) cs)
  unfolding parse_int
  parse_int_minus cs = refl

  pub parse_int-format_int : (i : ℤ) → IsInt64 i → parse_int base (format_int base i) ≡ some i
  unfolding format_int
  parse_int-format_int (pos n) h =
      let (c, cs, e) = format_uint_cons n in
      let digit = rw e at (format_uint-IsDigit n) in
      let parsed = rw e at (parse_uint-format_uint (2 ^ 63) n h) in
      rw e (parse_int_digit c cs digit.0 ∙ ap positive parsed)
  parse_int-format_int (negsuc n) h =
      parse_int_minus (format_uint base (suc n))
      ∙ ap negative (parse_uint-format_uint (2 ^ 63 + 1) (suc n) (omega arith))

  pub digits-IsVisible : (n : ℕ) → IsVisible (format_uint base n)
  digits-IsVisible n =
      All-map IsDigit (λ c. 33 ≤ c) (λ c h. omega arith) (format_uint base n)
        (format_uint-IsDigit n)

  pub format_int-IsVisible : (i : ℤ) → IsVisible (format_int base i)
  unfolding format_int
  format_int-IsVisible (pos n) = digits-IsVisible n
  format_int-IsVisible (negsuc n) = (omega arith, digits-IsVisible (suc n))

  pub format_uint-IsBytes : (n : ℕ) → IsBytes (format_uint base n)
  format_uint-IsBytes n =
      All-map IsDigit (λ c. c < 256) (λ c h. omega arith) (format_uint base n)
        (format_uint-IsDigit n)

  pub format_int-IsBytes : (i : ℤ) → IsBytes (format_int base i)
  unfolding format_int
  format_int-IsBytes (pos n) = format_uint-IsBytes n
  format_int-IsBytes (negsuc n) = (omega arith, format_uint-IsBytes (suc n))

  pub format_uint_word :
      (n : ℕ) → (c : ℕ) × (cs : Bytes) × (format_uint base n ≡ c ∷ cs) × IsVisible (c ∷ cs)
  format_uint_word n =
      let (c, cs, e) = format_uint_cons n in (c, cs, e, rw e at (digits-IsVisible n))

  pub format_int_word :
      (i : ℤ) → (c : ℕ) × (cs : Bytes) × (format_int base i ≡ c ∷ cs) × IsVisible (c ∷ cs)
  unfolding format_int
  format_int_word (pos n) = format_uint_word n
  format_int_word (negsuc n) =
      (b'-', format_uint base (suc n), refl, (omega arith, digits-IsVisible (suc n)))
