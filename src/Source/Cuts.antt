-- ===== src/Source/Cuts.antt =====
-- A Read of a source that does not fail: short Reads, and an end of the file beside the last bytes.
use go_zmodem.Prelude.{
  ◌≡◌, refl, ap, arith, inl, inr, ◌⊎◌, ℕ, zero, suc, ◌+◌, ◌≤◌, ◌<◌, true, false, Bool-cases, List,
  [], ◌∷◌, Bytes, length, length-drop, length-take, take, drop, min, leb,
}
use go_zmodem.Monad.{Res, ok}
use go_zmodem.Source.{
  Source, Answer, at_most_bytes, last_with_eof, broken, ReadEnd, more_to_come, end_of_file, rest_of,
  taken, is_nil, read_of, read,
}

-- No Read to come fails.
unfoldable pub IsUnbroken : List Answer → Type 0
IsUnbroken [] = Unit
IsUnbroken (at_most_bytes k ∷ answers) = IsUnbroken answers
IsUnbroken (last_with_eof ∷ answers) = IsUnbroken answers
IsUnbroken (broken e ∷ answers) = ⊥

-- A Read of at most `n` bytes takes some from the front; it reports the end of the file only where
-- nothing is left, and otherwise leaves fewer bytes or answers. A source without answers to come fills
-- the slice.
pub record Cuts (n : ℕ) (src : Source) (x : Res Source (Bytes × ReadEnd)) : Type 0 where
  pub size : ℕ
  pub end : ReadEnd
  pub answers : List Answer
  pub room : size ≤ n
  pub returns :
      x
      ≡ ok
          (take size (rest_of src), end)
          (record src { at = src.at + length (take size (rest_of src)); answers = answers })
  pub unbroken : IsUnbroken answers
  pub fills : src.answers ≡ [] → 0 < length (rest_of src) → (size ≡ n) × (answers ≡ [])
  pub ends :
      ((end ≡ more_to_come)
        × (length (drop (length (take size (rest_of src))) (rest_of src)) + length answers
            < length (rest_of src) + length src.answers))
      ⊎ ((end ≡ end_of_file) × (drop (length (take size (rest_of src))) (rest_of src) ≡ []))

nil_of : (xs : Bytes) → is_nil xs ≡ true → xs ≡ []
nil_of [] h = refl
nil_of (x ∷ xs) h = absurd (cc)

drop-nil : (n : ℕ) → drop {A = ℕ} n [] ≡ []
drop-nil zero = refl
drop-nil (suc n) = refl

not_nil : (xs : Bytes) → is_nil xs ≡ false → 0 < length xs
not_nil [] h = absurd (cc)
not_nil (x ∷ xs) h = omega arith

length_nil : (xs : Bytes) → length xs ≡ 0 → xs ≡ []
length_nil [] h = refl
length_nil (x ∷ xs) h = absurd (omega arith)

module _ (n : ℕ) (src : Source) (answers : List Answer) (unbroken : IsUnbroken answers)
    (within : length answers ≤ length src.answers) where
  -- Where nothing is left to read.
  end-Cuts : rest_of src ≡ [] → Cuts n src (ok ([], end_of_file) (record src { answers = answers }))
  end-Cuts empty = record {
    size = 0;
    end = end_of_file;
    answers = answers;
    room = omega arith;
    returns =
        ap (λ at. ok ([], end_of_file) (record src { at = at; answers = answers })) (omega arith);
    unbroken = unbroken;
    fills = λ plain some. let none_left = ap length empty in absurd (omega arith);
    ends = inr (refl, empty);
  }

  taken-Cuts :
      (size : ℕ)
      → size ≤ n
      → ((0 < size) × (0 < length (rest_of src))) ⊎ (length answers < length src.answers)
      → (src.answers ≡ [] → (size ≡ n) × (answers ≡ []))
      → Cuts n src (taken size more_to_come answers src)
  taken-Cuts size room progress fills = record {
    size = size;
    end = more_to_come;
    answers = answers;
    room = room;
    returns = refl;
    unbroken = unbroken;
    fills = λ plain some. fills plain;
    ends = inl (refl, less progress);
  }
    where
      less :
          ((0 < size) × (0 < length (rest_of src))) ⊎ (length answers < length src.answers)
          → length (drop (length (take size (rest_of src))) (rest_of src)) + length answers
            < length (rest_of src) + length src.answers
      less (inl (some, left)) = omega (
        arith,
        length-take size (rest_of src),
        length-drop (length (take size (rest_of src))) (rest_of src),
      )
      less (inr fewer) = omega (arith, length-drop (length (take size (rest_of src))) (rest_of src))

read_of-Cuts :
    (answers : List Answer) (n : ℕ) (src : Source)
    → src.answers ≡ answers
    → IsUnbroken answers
    → 0 < n
    → Cuts n src (read_of answers n src)
unfolding IsUnbroken
read_of-Cuts [] n src e unbroken some = elim (Bool-cases (is_nil (rest_of src))) [
  | inl empty ↦
      let at_end : Bytes × ReadEnd = ([], end_of_file) in
      let here : ok at_end src ≡ ok at_end (record src { answers = [] }) =
        ap (λ a. ok at_end (record src { answers = a })) e in
      rw empty (rw here (end-Cuts n src [] unbroken (omega arith) (nil_of (rest_of src) empty)))
  | inr left ↦ rw left (
      taken-Cuts n src [] unbroken (omega arith) n (omega arith)
        (inl (some, not_nil (rest_of src) left)) (λ _. (refl, refl)))
]
read_of-Cuts (at_most_bytes k ∷ answers) n src e unbroken some =
    let fewer : length answers < length src.answers = rw e (omega arith) in
    elim (Bool-cases (is_nil (rest_of src))) [
      | inl empty ↦
          rw empty (end-Cuts n src answers unbroken (omega arith) (nil_of (rest_of src) empty))
      | inr left ↦ rw left (
          taken-Cuts n src answers unbroken (omega arith) (min n k) (omega arith) (inr fewer)
            (λ plain. let none_left = ap length plain in absurd (omega arith)))
    ]
read_of-Cuts (last_with_eof ∷ answers) n src e unbroken some =
    let fewer : length answers < length src.answers = rw e (omega arith) in
    elim (Bool-cases (leb (length (rest_of src)) n)) [
      | inl all ↦ rw all (record {
        size = n;
        end = end_of_file;
        answers = answers;
        room = omega arith;
        returns = refl;
        unbroken = unbroken;
        fills = λ plain some. let none_left = ap length plain in absurd (omega arith);
        ends = inr (
          refl,
          length_nil (drop (length (take n (rest_of src))) (rest_of src)) (
              ground (
                arith,
                length-take n (rest_of src),
                length-drop (length (take n (rest_of src))) (rest_of src),
              )),
        );
      })
      | inr more ↦ rw more (
          taken-Cuts n src answers unbroken (omega arith) n (omega arith) (inr fewer)
            (λ plain. let none_left = ap length plain in absurd (omega arith)))
    ]
read_of-Cuts (broken _ ∷ answers) n src e unbroken some = elim unbroken [ ]

pub read-Cuts : (n : ℕ) (src : Source) → IsUnbroken src.answers → 0 < n → Cuts n src (read n src)
unfolding read
read-Cuts n src = read_of-Cuts src.answers n src refl
