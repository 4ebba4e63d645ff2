-- ===== src/Source.antt =====
-- The reader of an offered file, which the application supplies: an `io.Reader`, or an
-- `io.ReadSeeker` if it is seekable, over the bytes of a file that does not change.
pub mod Reads
pub mod Less
pub mod Cuts
use go_zmodem.Prelude.{
  ℕ, ◌+◌, Bool, true, false, Option, none, some, List, [], ◌∷◌, Bytes, length, take, drop, min, leb,
  if◌then◌else◌,
}
use go_zmodem.Monad.{ok, err, M, Foreign}

-- How a Read answers: with at most so many bytes; with the end of the file reported beside the
-- last bytes; or with an error.
pub data Answer : Type 0 where
  at_most_bytes : ℕ → Answer
  last_with_eof : Answer
  broken : Foreign → Answer

-- The answers to the Reads and the Seeks to come. Where a list ends, a Read takes what fits and
-- reports the end of the file by itself, and a Seek succeeds.
pub record Source : Type 0 where
  pub content : Bytes
  pub at : ℕ
  pub seekable : Bool
  pub answers : List Answer
  pub seek_answers : List (Option Foreign)

-- What a Read reports beside its bytes.
pub data ReadEnd : Type 0 where
  more_to_come : ReadEnd
  end_of_file : ReadEnd
  read_error : Foreign → ReadEnd

abbrev pub rest_of : Source → Bytes
rest_of src = drop src.at src.content

abbrev pub taken : ℕ → ReadEnd → List Answer → M Source (Bytes × ReadEnd)
taken n end answers src =
    let bytes = take n (rest_of src) in
    ok (bytes, end) (record src { at = src.at + length bytes; answers = answers })

abbrev pub is_nil : Bytes → Bool
is_nil [] = true
is_nil (b ∷ bs) = false

abbrev pub read_of : List Answer → ℕ → M Source (Bytes × ReadEnd)
read_of [] n src =
    if is_nil (rest_of src) then ok ([], end_of_file) src else taken n more_to_come [] src
read_of (at_most_bytes k ∷ answers) n src =
    if is_nil (rest_of src)
    then ok ([], end_of_file) (record src { answers = answers })
    else taken (min n k) more_to_come answers src
read_of (last_with_eof ∷ answers) n src =
    taken n (if leb (length (rest_of src)) n then end_of_file else more_to_come) answers src
read_of (broken e ∷ answers) n src = ok ([], read_error e) (record src { answers = answers })

-- A Read into a slice of `n` bytes.
unfoldable pub read : ℕ → M Source (Bytes × ReadEnd)
read n src = read_of src.answers n src

abbrev pub seek_of : List (Option Foreign) → ℕ → M Source (Unit {0})
seek_of [] pos src = ok tt (record src { at = pos })
seek_of (none ∷ answers) pos src = ok tt (record src { at = pos; seek_answers = answers })
seek_of (some e ∷ answers) pos src = err e.0 (record src { seek_answers = answers })

-- A Seek from the start.
unfoldable pub seek : ℕ → M Source (Unit {0})
seek pos src = seek_of src.seek_answers pos src

abbrev pub tell_of : List (Option Foreign) → M Source ℕ
tell_of [] src = ok src.at src
tell_of (none ∷ answers) src = ok src.at (record src { seek_answers = answers })
tell_of (some e ∷ answers) src = err e.0 (record src { seek_answers = answers })

-- A Seek by 0 from where the source is.
unfoldable pub tell : M Source ℕ
tell src = tell_of src.seek_answers src
