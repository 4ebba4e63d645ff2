-- ===== src/Monad.antt =====
-- Go functions with a receiver: state passing with an error result. The state survives an error,
-- since the callers go on after one.
pub mod Ends
use go_zmodem.Prelude.{ℕ, Bool, true, false, ◌≡◌, refl}

-- What a read of the transport reports.
pub data Fault : Type 0 where
  eof timeout broken_line : Fault

-- The error values of the package; `wrapped c e` is `fmt.Errorf("…: %w", e)`.
pub data Context : Type 0 where
  hex_header_read bin_header_read bin_header_crc_read bin32_header_crc_read : Context
  subpacket_read subpacket_crc_read subpacket_crc32_read : Context
  zsinit_data zfile_data parse_info accept_file file_write file_read max_retries : Context
  flush_timeout : Context

pub data Error : Type 0 where
  read_fault : Fault → Error
  write_failed : Error
  garbage_overflow abort_received : Error
  unsupported_enc : ℕ → Error
  invalid_hex : ℕ → ℕ → Error
  header_crc : ℕ → Error
  expected_cr expected_lf : ℕ → Error
  unexpected_frame_end : Error
  subpacket_crc : ℕ → ℕ → Error
  exceeds_max_length : ℕ → Error
  missing_null out_of_fuel : Error
  wrapped : Context → Error → Error
  skip_file eof_received merge_suspected overwrite_past_eof : Error
  ended_prematurely stalled retries_exceeded consecutive_errors already_active : Error
  cancelled not_seekable : Error
  unexpected_frame : ℕ → Error
  wait_retries_exceeded turnaround_fins not_resumable : Error
  window_timeout response_timeout stale_acks unexpected_frames out_of_range : Error
  application : ℕ → Error

abbrev pub is_out_of_fuel : Error → Bool
is_out_of_fuel out_of_fuel = true
is_out_of_fuel (wrapped c e) = is_out_of_fuel e
is_out_of_fuel e = false

-- An error of the application: any but the one that stands for a loop without an end.
abbrev pub Foreign : Type 0
Foreign = (e : Error) × (is_out_of_fuel e ≡ false)

pub data Res (S A : Type 0) : Type 0 where
  ok : A → S → Res S A
  err : Error → S → Res S A

abbrev pub M : Type 0 → Type 0 → Type 0
M S A = S → Res S A

abbrev pub pure : {S A : Type 0} → A → M S A
pure a s = ok a s

abbrev pub fail : {S A : Type 0} → Error → M S A
fail e s = err e s

infixl 5 ◌>>=◌ ◌>>◌
abbrev pub ◌>>=◌ : {S A B : Type 0} → M S A → (A → M S B) → M S B
◌>>=◌ m f s = elim (m s) [ ok a t ↦ f a t | err e t ↦ err e t ]

abbrev pub ◌>>◌ : {S A B : Type 0} → M S A → M S B → M S B
m >> k = m >>= λ _. k

-- `v, err := m()` where the caller looks at `err` and goes on.
pub data Either (A : Type 0) : Type 0 where
  good : A → Either A
  bad : Error → Either A

abbrev pub attempt : {S A : Type 0} → M S A → M S (Either A)
attempt m s = elim (m s) [ ok a t ↦ ok (good a) t | err e t ↦ ok (bad e) t ]

-- `fmt.Errorf("…: %w", err)` on the error of a call.
abbrev pub wrap : {S A : Type 0} → Context → M S A → M S A
wrap c m s = elim (m s) [ ok a t ↦ ok a t | err e t ↦ err (wrapped c e) t ]

-- A call on a part of the state.
abbrev pub zoom : {S T A : Type 0} → (S → T) → (S → T → S) → M T A → M S A
zoom get put m s = elim (m (get s)) [ ok a t ↦ ok a (put s t) | err e t ↦ err e (put s t) ]

-- The value or the error of a result, without its state.
abbrev pub outcome : {S A : Type 0} → Res S A → Either A
outcome (ok a s) = good a
outcome (err e s) = bad e

abbrev pub final : {S A : Type 0} → Res S A → S
final (ok a s) = s
final (err e s) = s

module _ {S T A : Type 0} (get : S → T) (put : S → T → S) where
  final-zoom_of : (s : S) (x : Res T A) → final (zoom get put (λ _. x) s) ≡ put s (final x)
  final-zoom_of s (ok a t) = refl
  final-zoom_of s (err e t) = refl

  pub final-zoom : (m : M T A) (s : S) → final (zoom get put m s) ≡ put s (final (m (get s)))
  final-zoom m s = final-zoom_of s (m (get s))

module _ {S A B : Type 0} (m : M S A) (f : A → M S B) (s : S) {t : S} where
  pub bind_ok : {a : A} → m s ≡ ok a t → (m >>= f) s ≡ f a t
  bind_ok returns = rw (returns, ◌>>=◌) refl

  pub bind_err : {e : Error} → m s ≡ err e t → (m >>= f) s ≡ err e t
  bind_err fails = rw (fails, ◌>>=◌) refl
