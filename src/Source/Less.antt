-- ===== src/Source/Less.antt =====
-- What a Read takes of a source: of its bytes, or of the answers to come.
use go_zmodem.Prelude.{
  ◌≡◌, refl, arith, inl, inr, ◌⊎◌, ℕ, ◌+◌, ◌≤◌, ◌<◌, Bool, true, false, List, [], ◌∷◌, Bytes,
  length, length-drop, length-take, take, min, if◌then◌else◌,
}
use go_zmodem.Monad.{Res, ok, err}
use go_zmodem.Source.{
  Source, Answer, at_most_bytes, last_with_eof, broken, ReadEnd, more_to_come, end_of_file,
  read_error, rest_of, taken, is_nil, read_of, read,
}

abbrev pub left : Source → ℕ
left src = length (rest_of src) + length src.answers

-- A Read that is not the last leaves less.
abbrev pub Less : ℕ → Res Source (Bytes × ReadEnd) → Type 0
Less n (ok (b ∷ bs, end) src) = left src < n
Less n (ok ([], more_to_come) src) = left src < n
Less n (ok ([], end_of_file) src) = Unit {0}
Less n (ok ([], read_error e) src) = Unit {0}
Less n (err e src) = Unit {0}

moved-Less :
    (bytes : Bytes) (end : ReadEnd) (answers : List Answer) (src : Source)
    → length bytes ≤ length (rest_of src)
    → length answers ≤ length src.answers
    → (length answers < length src.answers) ⊎ (0 < length bytes)
    → Less
        (left src)
        (ok (bytes, end) (record src { at = src.at + length bytes; answers = answers }))
moved-Less (b ∷ bs) end answers src short fewer some =
    omega
      (arith, length-drop src.at src.content, length-drop (src.at + length (b ∷ bs)) src.content)
moved-Less [] end_of_file answers src short fewer some = tt
moved-Less [] (read_error e) answers src short fewer some = tt
moved-Less [] more_to_come answers src short fewer (inl less) =
    omega (arith, length-drop src.at src.content, length-drop (src.at + 0) src.content)
moved-Less [] more_to_come answers src short fewer (inr none_read) = absurd (omega arith)

if-Less :
    (n : ℕ) (b : Bool) (x y : Res Source (Bytes × ReadEnd))
    → Less n x
    → (b ≡ false → Less n y)
    → Less n (if b then x else y)
if-Less n true x y p q = p
if-Less n false x y p q = q refl

some_rest : (xs : Bytes) → is_nil xs ≡ false → 0 < length xs
some_rest [] h = absurd (cc)
some_rest (x ∷ xs) h = omega arith

read_of-Less :
    (answers : List Answer) (n : ℕ) (src : Source)
    → src.answers ≡ answers
    → 0 < n
    → Less (left src) (read_of answers n src)
read_of-Less [] n src e room =
    if-Less (left src) (is_nil (rest_of src)) (ok ([], end_of_file) src)
      (taken n more_to_come [] src) tt
      (λ some.
        moved-Less (take n (rest_of src)) more_to_come [] src
          (omega (arith, length-take n (rest_of src))) (omega arith)
          (inr (omega (arith, length-take n (rest_of src), some_rest (rest_of src) some))))
read_of-Less (at_most_bytes k ∷ answers) n src e room =
    if-Less (left src) (is_nil (rest_of src)) _ (taken (min n k) more_to_come answers src) tt
      (λ some.
        moved-Less (take (min n k) (rest_of src)) more_to_come answers src
          (omega (arith, length-take (min n k) (rest_of src))) (rw e (omega arith))
          (inl (rw e (omega arith))))
read_of-Less (last_with_eof ∷ answers) n src e room =
    moved-Less (take n (rest_of src)) _ answers src (omega (arith, length-take n (rest_of src)))
      (rw e (omega arith)) (inl (rw e (omega arith)))
read_of-Less (broken f ∷ answers) n src e room = tt

pub read-Less : (n : ℕ) (src : Source) → 0 < n → Less (left src) (read n src)
unfolding read
read-Less n src room = read_of-Less src.answers n src refl room
