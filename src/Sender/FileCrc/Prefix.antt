-- ===== src/Sender/FileCrc/Prefix.antt =====
-- `sender.go`: what `computeFileCRC` computes of a file that is read without errors.
use go_zmodem.Prelude.{
  List, ◌≡◌, refl, sym, ap, ◌∙◌, arith, inl, inr, ℕ, zero, suc, ◌+◌, ◌-◌, ◌≤◌, ◌<◌, bit_xor, true,
  false, [], ◌∷◌, ◌++◌, Bytes, length, take, drop, drop-drop, ◌==◌, Bool-cases, ==_iff,
  if◌then◌else◌,
}
use go_zmodem.Prelude.Xor.{bit_xor_cancel}
use go_zmodem.Monad.{ok, err, M, pure, bind_ok, not_seekable, ◌>>=◌, ◌>>◌}
use go_zmodem.Crc.{crc32_update, crc32_loop, crc32_calc}
use go_zmodem.Source.{Source, Answer, more_to_come, end_of_file, rest_of, read, seek, tell, tell_of}
use go_zmodem.Source.Cuts.{IsUnbroken, Cuts, read-Cuts}
use go_zmodem.Source.Reads.{seek_lem, take-append-rest}
use go_zmodem.Sender.FileCrc.{to_read, crc_loop, crc_from_start, compute_file_crc}

crc32_loop-append :
    (xs ys : Bytes) (crc : ℕ) → crc32_loop crc (xs ++ ys) ≡ crc32_loop (crc32_loop crc xs) ys
unfolding crc32_loop
crc32_loop-append [] ys crc = refl
crc32_loop-append (x ∷ xs) ys crc = crc32_loop-append xs ys _

-- An update with two pieces is an update with the one, then with the other.
crc32_update-append :
    (xs ys : Bytes) (crc : ℕ) → crc32_update crc (xs ++ ys) ≡ crc32_update (crc32_update crc xs) ys
unfolding crc32_update
crc32_update-append xs ys crc =
    rw
      (
        crc32_loop-append xs ys (bit_xor crc 0xffffffff),
        bit_xor_cancel (crc32_loop (bit_xor crc 0xffffffff) xs) 0xffffffff,
      )
      refl

crc32_update-nil : (crc : ℕ) → crc32_update crc [] ≡ crc
unfolding crc32_update crc32_loop
crc32_update-nil crc = bit_xor_cancel crc 0xffffffff

-- The first `count` bytes, or all of them if it is 0.
abbrev pub prefix : ℕ → Bytes → Bytes
prefix zero xs = xs
prefix (suc n) xs = take (suc n) xs

-- What is left to read behind `total` bytes.
abbrev wanted : ℕ → ℕ → Bytes → Bytes
wanted zero total xs = xs
wanted (suc n) total xs = take (suc n - total) xs

take-nil : (k : ℕ) → take {A = ℕ} k [] ≡ []
take-nil zero = refl
take-nil (suc k) = refl

wanted-nil : (count total : ℕ) → wanted count total [] ≡ []
wanted-nil zero total = refl
wanted-nil (suc n) total = take-nil (suc n - total)

wanted_done : (count total : ℕ) (xs : Bytes) → to_read count total ≡ 0 → wanted count total xs ≡ []
wanted_done zero total xs none_left = absurd (ground arith)
wanted_done (suc n) total xs none_left =
    let spent : suc n - total ≡ 0 = ground arith in ap (λ k. take k xs) spent

take_split :
    (k n m : ℕ) (xs : Bytes)
    → k ≤ n
    → m ≡ n - length (take k xs)
    → take k xs ++ take m (drop (length (take k xs)) xs) ≡ take n xs
take_split zero n m xs h e = ap (λ j. take j xs) (omega arith)
take_split (suc k) zero m xs h e = absurd (omega arith)
take_split (suc k) (suc n) m [] h e = take-nil m
take_split (suc k) (suc n) m (x ∷ xs) h e =
    ap (λ t. x ∷ t) (take_split k n m xs (omega arith) (omega arith))

wanted_more :
    (count total k : ℕ) (xs : Bytes)
    → k ≤ to_read count total
    → take k xs ++ wanted count (total + length (take k xs)) (drop (length (take k xs)) xs)
      ≡ wanted count total xs
wanted_more zero total k xs h = take-append-rest k xs
wanted_more (suc n) total k xs h =
    take_split k (suc n - total) (suc n - (total + length (take k xs))) xs (ground arith)
      (omega arith)

-- Behind the loop: the CRC of what was wanted, and the reader somewhere in the file.
abbrev Computes : ℕ → ℕ → ℕ → ℕ → Source → Type 0
Computes fuel count crc total src =
    (n : ℕ) × (left : List Answer) × (crc_loop fuel count crc total src
      ≡ ok (crc32_update crc (wanted count total (rest_of src)))
          (record src { at = n; answers = left }))

module _ (fuel count crc total : ℕ) (src : Source) where
  crc_loop_done : to_read count total ≡ 0 → Computes (suc fuel) count crc total src
  unfolding crc_loop
  crc_loop_done spent = (
    src.at,
    src.answers,
    rw (wanted_done count total (rest_of src) spent, crc32_update-nil crc) (rw spent refl),
  )

  module _ (x : Cuts (to_read count total) src (read (to_read count total) src))
      (more : (to_read count total == 0) ≡ false) where
    abbrev got : Bytes
    got = take x.size (rest_of src)

    abbrev behind : Source
    behind = record src { at = src.at + length got; answers = x.answers }

    rest-behind : rest_of behind ≡ drop (length got) (rest_of src)
    rest-behind = sym (drop-drop (length got) src.at src.content)

    whole :
        crc32_update (crc32_update crc got) (wanted count (total + length got) (rest_of behind))
        ≡ crc32_update crc (wanted count total (rest_of src))
    whole =
        ap (λ xs. crc32_update (crc32_update crc got) (wanted count (total + length got) xs))
          rest-behind
        ∙ sym (
            crc32_update-append got
              (wanted count (total + length got) (drop (length got) (rest_of src))) crc)
        ∙ ap (crc32_update crc) (wanted_more count total x.size (rest_of src) x.room)

    crc_loop_end :
        x.end ≡ end_of_file
        → drop (length got) (rest_of src) ≡ []
        → Computes (suc fuel) count crc total src
    unfolding crc_loop
    crc_loop_end ended empty =
        let c = crc32_update crc got in
        let none_left : wanted count (total + length got) (rest_of behind) ≡ [] =
          ap (wanted count (total + length got)) (rest-behind ∙ empty)
          ∙ wanted-nil count (total + length got) in
        let last : c ≡ crc32_update crc (wanted count total (rest_of src)) =
          sym (crc32_update-nil c) ∙ ap (crc32_update c) (sym none_left) ∙ whole in
        (
          src.at + length got,
          x.answers,
          rw more (rw (x.returns, ◌>>=◌) (rw ended refl)) ∙ ap (λ c. ok c behind) last,
        )

    crc_loop_more :
        x.end ≡ more_to_come
        → Computes fuel count (crc32_update crc got) (total + length got) behind
        → Computes (suc fuel) count crc total src
    unfolding crc_loop
    crc_loop_more goes_on (n, left, ih) = (
      n,
      left,
      rw more (rw (x.returns, ◌>>=◌) (rw goes_on ih))
          ∙ ap (λ c. ok c (record src { at = n; answers = left })) whole,
    )

crc_loop_lem :
    (fuel count crc total : ℕ) (src : Source)
    → IsUnbroken src.answers
    → length (rest_of src) + length src.answers < fuel
    → Computes fuel count crc total src
crc_loop_lem zero count crc total src unbroken enough = absurd (omega arith)
crc_loop_lem (suc fuel) count crc total src unbroken enough =
    elim (Bool-cases (to_read count total == 0)) [
      | inl finished ↦
          crc_loop_done fuel count crc total src ((==_iff (to_read count total) 0).0 finished)
      | inr more ↦
          let some : 0 < to_read count total = ground arith in
          let x = read-Cuts (to_read count total) src unbroken some in
          elim x.ends [
            | inl (goes_on, less) ↦
                let there = behind fuel count crc total src x more in
                let left = ap length (rest-behind fuel count crc total src x more) in
                crc_loop_more fuel count crc total src x more goes_on (
                  crc_loop_lem fuel count (crc32_update crc (got fuel count crc total src x more))
                    (total + length (got fuel count crc total src x more)) there x.unbroken
                    (omega arith))
            | inr (ended, empty) ↦ crc_loop_end fuel count crc total src x more ended empty
          ]
    ]

wanted_first : (count : ℕ) (xs : Bytes) → wanted count 0 xs ≡ prefix count xs
wanted_first zero xs = refl
wanted_first (suc n) xs =
    let none_before : suc n - 0 ≡ suc n = omega arith in ap (λ k. take k xs) none_before

tell_lem : (src : Source) → src.seek_answers ≡ [] → tell src ≡ ok src.at src
unfolding tell
tell_lem src sought = ap (λ answers. tell_of answers src) sought

-- Of a seekable file that is read without errors, `computeFileCRC` computes the CRC-32 of the first
-- `count` bytes, or of all if `count` is 0 or the file is shorter, and leaves the reader where it
-- was. The CRC does not depend on how the Reads cut the file (a Read may take fewer bytes than it is
-- asked for, or none, and may report the end of the file beside the last bytes), and the loop ends.
pub compute_file_crc_lem :
    (count : ℕ) (src : Source)
    → src.seekable ≡ true
    → IsUnbroken src.answers
    → src.seek_answers ≡ []
    → (left : List Answer) × (compute_file_crc count src
        ≡ ok (crc32_calc (prefix count src.content)) (record src { answers = left }))
unfolding compute_file_crc crc32_calc
compute_file_crc_lem count src seekable unbroken sought =
    let start = record src { at = 0 } in
    let crc = crc32_update 0 (prefix count src.content) in
    let x =
      crc_loop_lem (suc (length src.content + length src.answers)) count 0 0 start unbroken
        (omega arith) in
    let stopped = record src { at = x.0; answers = x.1 } in
    let computed =
      x.2 ∙ ap (λ xs. ok (crc32_update 0 xs) stopped) (wanted_first count src.content) in
    let give : M Source ℕ = pure crc in
    let back : ℕ → ℕ → M Source ℕ = λ here crc. seek here >> pure crc in
    let compute : ℕ → M Source ℕ = λ here. crc_from_start count >>= back here in
    (
      x.1,
      ap (λ b. if b then (tell >>= (λ here. seek 0 >> compute here)) src else err not_seekable src)
            seekable
          ∙ bind_ok tell (λ here. seek 0 >> compute here) src (tell_lem src sought)
          ∙ bind_ok (seek 0) (λ _. compute src.at) src (seek_lem 0 src sought)
          ∙ bind_ok (crc_from_start count) (back src.at) start computed
          ∙ bind_ok (seek src.at) (λ _. give) stopped (seek_lem src.at stopped sought),
    )
