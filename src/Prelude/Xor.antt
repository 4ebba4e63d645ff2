-- ===== src/Prelude/Xor.antt =====
-- Laws of `bit_xor` at variables, from the digit recursion that the native operation stands for.
use Prim.Native.Nat.{
  ℕ, zero, suc, ◌+◌, ◌*◌, ◌/◌, ◌%◌, ◌^◌, ◌-◌, ◌≤◌, ◌<◌, bit_xor, digits, bit_xor-bitwise, differ,
}
use mathlib.Core.Path.{◌≡◌, refl, ap, ◌∙◌, sym}
use native.Mathlib.Nat.{
  pow-suc, le_refl, div-one, mod-one, div-div-eq-div-mul, div-add-mod, one-le-pow, mod-lt,
  mod-eq_of_lt, add-mul-mod_self_left, mul-one, zero-add, suc-add,
}
use native.Mathlib.Omega.{arith}

abbrev xor_digits : ℕ → ℕ → ℕ → ℕ
xor_digits n a b = digits (λ b. b) differ n a b

-- One more unit of fuel changes nothing once the fuel covers the first number.
spare_digit : (a b n : ℕ) → a ≤ n → xor_digits (suc n) a b ≡ xor_digits n a b
spare_digit zero b zero enough = refl
spare_digit zero b (suc n) enough = refl
spare_digit (suc a) b zero enough = absurd (omega arith)
spare_digit (suc a) b (suc n) enough =
    ap (λ t. t * 2 + differ (suc a % 2) (b % 2)) (spare_digit (suc a / 2) (b / 2) n (omega arith))

spare_digits : (a b k : ℕ) → xor_digits (k + a) a b ≡ xor_digits a a b
spare_digits a b zero = ap (λ n. xor_digits n a b) (zero-add a)
spare_digits a b (suc k) =
    ap (λ n. xor_digits n a b) (suc-add k a)
    ∙ spare_digit a b (k + a) (omega arith)
    ∙ spare_digits a b k

pub zero-bit_xor : (b : ℕ) → bit_xor 0 b ≡ b
zero-bit_xor b = bit_xor-bitwise 0 b

differ_lt : (x y : ℕ) → x < 2 → y < 2 → differ x y ≡ (x + y) % 2
differ_lt zero zero p q = refl
differ_lt zero (suc zero) p q = refl
differ_lt zero (suc (suc y)) p q = absurd (omega arith)
differ_lt (suc zero) zero p q = refl
differ_lt (suc zero) (suc zero) p q = refl
differ_lt (suc zero) (suc (suc y)) p q = absurd (omega arith)
differ_lt (suc (suc x)) y p q = absurd (omega arith)

-- The lowest digit.
pub bit_xor_step : (a b : ℕ) → bit_xor a b ≡ bit_xor (a / 2) (b / 2) * 2 + (a + b) % 2
bit_xor_step zero b = let whole = zero-bit_xor b in let half = zero-bit_xor (b / 2) in omega arith
bit_xor_step (suc a) b =
    let half = suc a / 2 in
    let whole = bit_xor-bitwise (suc a) b in
    let rest = bit_xor-bitwise half (b / 2) in
    let fuel : a - half + half ≡ a = omega arith in
    let spare = rw fuel at (spare_digits half (b / 2) (a - half)) in
    let parity = differ_lt (suc a % 2) (b % 2) (omega arith) (omega arith) in
    omega (arith, whole, rest, spare, parity)

bit_xor-half : (a b : ℕ) → bit_xor a b / 2 ≡ bit_xor (a / 2) (b / 2)
bit_xor-half a b = omega (arith, bit_xor_step a b)

bit_xor-parity : (a b : ℕ) → bit_xor a b % 2 ≡ (a + b) % 2
bit_xor-parity a b = omega (arith, bit_xor_step a b)

-- Each law goes from the halves to the numbers; the fuel bounds them.
comm_fuel : (n a b : ℕ) → a ≤ n → b ≤ n → bit_xor a b ≡ bit_xor b a
comm_fuel zero zero zero p q = refl
comm_fuel zero (suc a) b p q = absurd (omega arith)
comm_fuel zero zero (suc b) p q = absurd (omega arith)
comm_fuel (suc n) a b p q = omega (
  arith,
  bit_xor_step a b,
  bit_xor_step b a,
  comm_fuel n (a / 2) (b / 2) (omega arith) (omega arith),
)

pub bit_xor_comm : (a b : ℕ) → bit_xor a b ≡ bit_xor b a
bit_xor_comm a b = comm_fuel (a + b) a b (omega arith) (omega arith)

self_fuel : (n a : ℕ) → a ≤ n → bit_xor a a ≡ 0
self_fuel zero zero p = refl
self_fuel zero (suc a) p = absurd (omega arith)
self_fuel (suc n) a p = omega (arith, bit_xor_step a a, self_fuel n (a / 2) (omega arith))

pub bit_xor_self : (a : ℕ) → bit_xor a a ≡ 0
bit_xor_self a = self_fuel a a (le_refl _)

pub bit_xor-zero : (a : ℕ) → bit_xor a 0 ≡ a
bit_xor-zero a = bit_xor_comm a 0 ∙ zero-bit_xor a

assoc_fuel :
    (n a b c : ℕ) → a ≤ n → b ≤ n → c ≤ n → bit_xor (bit_xor a b) c ≡ bit_xor a (bit_xor b c)
assoc_fuel zero zero b c p q r =
    ap (λ t. bit_xor t c) (zero-bit_xor b) ∙ sym (zero-bit_xor (bit_xor b c))
assoc_fuel zero (suc a) b c p q r = absurd (omega arith)
assoc_fuel (suc n) a b c p q r =
    let left = bit_xor_step (bit_xor a b) c in
    let right = bit_xor_step a (bit_xor b c) in
    let ih = assoc_fuel n (a / 2) (b / 2) (c / 2) (omega arith) (omega arith) (omega arith) in
    omega (
      arith,
      rw bit_xor-half at left,
      rw bit_xor-half at right,
      ih,
      bit_xor-parity a b,
      bit_xor-parity b c,
    )

pub bit_xor_assoc : (a b c : ℕ) → bit_xor (bit_xor a b) c ≡ bit_xor a (bit_xor b c)
bit_xor_assoc a b c = assoc_fuel (a + b + c) a b c (omega arith) (omega arith) (omega arith)

-- Applying the same mask twice gives the value back.
pub bit_xor_cancel : (a b : ℕ) → bit_xor (bit_xor a b) b ≡ a
bit_xor_cancel a b = bit_xor_assoc a b b ∙ ap (bit_xor a) (bit_xor_self b) ∙ bit_xor-zero a

half_pow : (k a : ℕ) → a / 2 ^ suc k ≡ a / 2 ^ k / 2
half_pow k a = rw (pow-suc 2 k) (sym (div-div-eq-div-mul a (2 ^ k) 2))

mod_pow : (k a : ℕ) → a % 2 ^ suc k ≡ a / 2 % 2 ^ k * 2 + a % 2
mod_pow k a =
    let low = a / 2 % 2 ^ k * 2 + a % 2 in
    let split : a ≡ low + 2 ^ k * 2 * (a / 2 / 2 ^ k) =
      omega (arith, div-add-mod (a / 2) (2 ^ k)) in
    let fits : low < 2 ^ k * 2 = omega (arith, mod-lt (a / 2) (one-le-pow k 2 (omega arith))) in
    rw (pow-suc 2 k) (
      ap (λ t. t % (2 ^ k * 2)) split
      ∙ add-mul-mod_self_left low (2 ^ k * 2) (a / 2 / 2 ^ k)
      ∙ mod-eq_of_lt fits)

mod_pow_half : (k a : ℕ) → a % 2 ^ suc k / 2 ≡ a / 2 % 2 ^ k
mod_pow_half k a = omega (arith, mod_pow k a)

-- The digits above position `k` and those below it do not meet.
pub bit_xor-div : (k a b : ℕ) → bit_xor a b / 2 ^ k ≡ bit_xor (a / 2 ^ k) (b / 2 ^ k)
bit_xor-div zero a b = rw (div-one a, div-one b, div-one (bit_xor a b))
bit_xor-div (suc k) a b =
    rw (half_pow k a, half_pow k b, half_pow k (bit_xor a b), bit_xor-div k a b)
      (bit_xor-half (a / 2 ^ k) (b / 2 ^ k))

pub bit_xor-mod : (k a b : ℕ) → bit_xor a b % 2 ^ k ≡ bit_xor (a % 2 ^ k) (b % 2 ^ k)
bit_xor-mod zero a b = rw (mod-one a, mod-one b, mod-one (bit_xor a b))
bit_xor-mod (suc k) a b =
    let step = bit_xor_step (a % 2 ^ suc k) (b % 2 ^ suc k) in
    omega (
      arith,
      rw (mod_pow_half k a, mod_pow_half k b) at step,
      mod_pow k (bit_xor a b),
      mod_pow k a,
      mod_pow k b,
      ap (λ t. t % 2 ^ k) (bit_xor-half a b),
      bit_xor-mod k (a / 2) (b / 2),
      bit_xor-parity a b,
    )

pub bit_xor-lt : (k a b : ℕ) → a < 2 ^ k → b < 2 ^ k → bit_xor a b < 2 ^ k
bit_xor-lt zero zero zero p q = omega arith
bit_xor-lt zero (suc a) b p q = absurd (omega arith)
bit_xor-lt zero zero (suc b) p q = absurd (omega arith)
bit_xor-lt (suc k) a b p q = omega (
  arith,
  bit_xor_step a b,
  pow-suc 2 k,
  bit_xor-lt k (a / 2) (b / 2) (omega (arith, pow-suc 2 k)) (omega (arith, pow-suc 2 k)),
)

shift_half : (k a : ℕ) → a * 2 ^ suc k / 2 ≡ a * 2 ^ k
shift_half k a = omega (arith, ap (λ (t : ℕ). a * t) (pow-suc 2 k))

-- A shift to the left goes through.
pub bit_xor-shift : (k a b : ℕ) → bit_xor (a * 2 ^ k) (b * 2 ^ k) ≡ bit_xor a b * 2 ^ k
bit_xor-shift zero a b = rw (mul-one a, mul-one b, mul-one (bit_xor a b))
bit_xor-shift (suc k) a b = omega (
  arith,
  bit_xor_step (a * 2 ^ suc k) (b * 2 ^ suc k),
  rw (shift_half k a, shift_half k b) at (bit_xor_step (a * 2 ^ suc k) (b * 2 ^ suc k)),
  bit_xor-shift k a b,
  ap (λ (t : ℕ). a * t) (pow-suc 2 k),
  ap (λ (t : ℕ). b * t) (pow-suc 2 k),
  ap (λ (t : ℕ). bit_xor a b * t) (pow-suc 2 k),
)

-- Disjoint fields add up.
pub bit_xor_fields : (a b : ℕ) → b < 256 → bit_xor (a * 256) b ≡ a * 256 + b
bit_xor_fields a b p =
    let high = bit_xor-div 8 (a * 256) b in
    let low = bit_xor-mod 8 (a * 256) b in
    let a_high : a * 256 / 2 ^ 8 ≡ a = omega arith in
    let b_high : b / 2 ^ 8 ≡ 0 = omega arith in
    let a_low : a * 256 % 2 ^ 8 ≡ 0 = omega arith in
    let b_low : b % 2 ^ 8 ≡ b = omega arith in
    omega
      (arith, rw (a_high, b_high, bit_xor-zero a) at high, rw (a_low, b_low, zero-bit_xor b) at low)
