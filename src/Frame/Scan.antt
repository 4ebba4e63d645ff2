-- ===== src/Frame/Scan.antt =====
-- The hunt for a frame start behind noise.
use go_zmodem.Prelude.{
  ◌≡◌, ◌≢◌, refl, ap, ◌∙◌, arith, ℕ, zero, suc, ◌+◌, ◌≤◌, ◌<◌, Bool, true, false, ◌||◌, List, [],
  ◌∷◌, ◌++◌, Bytes, All, length, length-append, ==_ne, ◌==◌,
}
use go_zmodem.Monad.{Res, ok, M, ◌>>=◌}
use go_zmodem.Constants.{zpad, zdle, zbin, zhex, zbin32, can}
use go_zmodem.Bufio.Input.{Item}
use go_zmodem.Reader.{
  Reader, read_byte, count_garbage, reset_garbage, scan_encoding, scan_pad, scan_loop, scan_for_pad,
}
use go_zmodem.Reader.Decode.{Carries, at, read_byte-Carries, length-Carries}

-- Bytes that are neither a pad nor a CAN.
abbrev pub IsNoise : Bytes → Type 0
IsNoise = All (λ b. (b ≢ zpad) × (b ≢ can))

abbrev pub is_supported : ℕ → Bool
is_supported enc = enc == zbin || (enc == zhex || enc == zbin32)

abbrev pub second_pad : Bool → Bytes
second_pad false = []
second_pad true = zpad ∷ []

-- The reader behind a frame start.
abbrev pub scanned : Reader → List Item → Reader
scanned tr left = record tr { input = left; can_count = 0; garbage_count = 0 }

-- The call finds the encoding `enc` and leaves items that carry `bs`.
pub record Finds (r : Res Reader ℕ) (tr : Reader) (enc : ℕ) (bs : Bytes) (rest : List Item)
    : Type 0 where
  pub left : List Item
  pub returns : r ≡ ok enc (scanned tr left)
  pub carries : Carries false rest bs left

count_garbage_lem :
    (tr : Reader)
    → tr.garbage_count < tr.garbage_max
    → count_garbage tr ≡ ok tt (record tr { garbage_count = tr.garbage_count + 1 })
unfolding count_garbage
count_garbage_lem tr room = ground arith

scan_step_noise :
    (fuel : ℕ) (tr : Reader) (b : ℕ) {left : List Item}
    → (b ≢ zpad) × (b ≢ can)
    → tr.garbage_count < tr.garbage_max
    → read_byte tr ≡ ok b (at tr left)
    → scan_loop (suc fuel) tr
      ≡ scan_loop fuel
          (record tr { input = left; can_count = 0; garbage_count = tr.garbage_count + 1 })
unfolding scan_loop
scan_step_noise fuel tr b {left} nb room e =
    rw (e, ◌>>=◌)
      (rw (==_ne b can nb.1, ==_ne b zpad nb.0)
        (rw (count_garbage_lem (record tr { input = left; can_count = 0 }) room, ◌>>=◌) refl))

module _ {enc : ℕ} (supported : is_supported enc ≡ true) {bs : Bytes} {rest : List Item} where
  scan_encoding-Finds :
      (again : M Reader ℕ) (tr : Reader)
      → tr.can_count ≡ 0
      → Carries false rest (enc ∷ bs) tr.input
      → Finds (scan_encoding again tr) tr enc bs rest
  scan_encoding-Finds again tr zero_can c =
      let (left, e, c') = read_byte-Carries tr c in
      record {
        left = left;
        returns =
            unfold scan_encoding reset_garbage in
            rw (e, ◌>>=◌)
              (rw supported (
                ap (λ n. ok enc (record tr { input = left; can_count = n; garbage_count = 0 }))
                  zero_can));
        carries = c';
      }

  -- Behind the first pad.
  scan_pad-Finds :
      (again : M Reader ℕ) (tr : Reader) (double : Bool)
      → tr.can_count ≡ 0
      → Carries false rest (second_pad double ++ (zdle ∷ enc ∷ bs)) tr.input
      → Finds (scan_pad again tr) tr enc bs rest
  scan_pad-Finds again tr false zero_can c =
      let (left, e, c') = read_byte-Carries tr c in
      let found = scan_encoding-Finds again (at tr left) zero_can c' in
      record {
        left = found.left;
        returns = unfold scan_pad in rw (e, ◌>>=◌) found.returns;
        carries = found.carries;
      }
  scan_pad-Finds again tr true zero_can c =
      let (left, e, c') = read_byte-Carries tr c in
      let (left', e', c'') = read_byte-Carries (at tr left) c' in
      let found = scan_encoding-Finds again (at tr left') zero_can c'' in
      record {
        left = found.left;
        returns = unfold scan_pad in rw (e, ◌>>=◌) (rw (e', ◌>>=◌) found.returns);
        carries = found.carries;
      }

  -- At most `garbage_max` bytes of noise are skipped; each takes a round.
  scan_loop-Finds :
      (noise : Bytes) (double : Bool) (fuel : ℕ) (tr : Reader)
      → IsNoise noise
      → length noise < fuel
      → tr.garbage_count + length noise ≤ tr.garbage_max
      → Carries false rest (noise ++ (zpad ∷ second_pad double ++ (zdle ∷ enc ∷ bs))) tr.input
      → Finds (scan_loop fuel tr) tr enc bs rest
  scan_loop-Finds noise double zero tr n lt room c = absurd (omega arith)
  scan_loop-Finds [] double (suc fuel) tr n lt room c =
      let (left, e, c') = read_byte-Carries tr c in
      let behind = record tr { input = left; can_count = 0 } in
      let found = scan_pad-Finds (scan_loop fuel) behind double refl c' in
      record {
        left = found.left;
        returns = unfold scan_loop in rw (e, ◌>>=◌) found.returns;
        carries = found.carries;
      }
  scan_loop-Finds (b ∷ noise) double (suc fuel) tr (nb, ns) lt room c =
      let (left, e, c') = read_byte-Carries tr c in
      let behind = record tr {
        input = left;
        can_count = 0;
        garbage_count = tr.garbage_count + 1;
      } in
      let found = scan_loop-Finds noise double fuel behind ns (omega arith) (omega arith) c' in
      record {
        left = found.left;
        returns = scan_step_noise fuel tr b nb (omega arith) e ∙ found.returns;
        carries = found.carries;
      }

  -- Noise before a frame start is skipped, up to `garbage_max` bytes of it, whatever was read before.
  pub scan_for_pad-Finds :
      (noise : Bytes) (double : Bool) (tr : Reader)
      → IsNoise noise
      → length noise ≤ tr.garbage_max
      → Carries false rest (noise ++ (zpad ∷ second_pad double ++ (zdle ∷ enc ∷ bs))) tr.input
      → Finds (scan_for_pad tr) tr enc bs rest
  scan_for_pad-Finds noise double tr n room c =
      let enough = length-Carries c in
      let found =
        scan_loop-Finds noise double (suc (length tr.input))
          (record tr { can_count = 0; garbage_count = 0 }) n
          (omega
            (arith, enough, length-append noise (zpad ∷ second_pad double ++ (zdle ∷ enc ∷ bs))))
          (omega arith) c in
      record {
        left = found.left;
        returns = unfold scan_for_pad in found.returns;
        carries = found.carries;
      }
