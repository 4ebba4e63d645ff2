-- ===== src/Subpacket/Merge.antt =====
-- Two CRC-16 subpackets merged by a lost ZDLE, and `detectMergedSubpacketCRC16`.
use go_zmodem.Prelude.{
  ◌⊎◌, ◌≡◌, sym, ap, ◌∙◌, arith, inl, inr, ℕ, ◌+◌, ◌/◌, ◌%◌, ◌^◌, ◌≤◌, true, false, not, ◌||◌, some,
  [], ◌∷◌, ◌++◌, append_assoc, Bytes, length, length-append, ltb, ==_iff, Bool-cases,
}
use go_zmodem.Constants.{zcrce, zcrcw}
use go_zmodem.Crc.{crc16_update, crc16_finalize, crc16_bytes}
use go_zmodem.Crc.Residue16.{crc16_update-append, crc16_finalize-lt, crc16_update_residue}
use go_zmodem.Reader.{is_end_marker}
use go_zmodem.Subpacket.{sum16, embedded_at, detect_loop, detect_merged_subpacket}

-- What the receiver sees of a first subpacket `xs` with end type `e` that lost its ZDLE: the end
-- type and the two bytes of the CRC become data.
abbrev pub orphan : Bytes → ℕ → Bytes
orphan xs e = xs ++ (e ∷ crc16_bytes (sum16 xs e))

-- The CRC-16 of the merged data is the CRC-16 of the second subpacket alone, so it passes.
pub sum16_merged :
    (xs ys : Bytes) (e end_type : ℕ) → sum16 (orphan xs e ++ ys) end_type ≡ sum16 ys end_type
unfolding sum16
sum16_merged xs ys e end_type =
    let start = crc16_update 0 xs in
    ap (λ t. crc16_finalize (crc16_update t (end_type ∷ [])))
      (crc16_update-append (orphan xs e) ys 0
        ∙ ap (λ t. crc16_update t ys)
            (crc16_update-append xs (e ∷ crc16_bytes (sum16 xs e)) 0
              ∙ crc16_update_residue (e ∷ []) start))

detect_here :
    (running i p c hi lo : ℕ) (rest : Bytes)
    → embedded_at (crc16_update running (p ∷ [])) c hi lo ≡ true
    → detect_loop running i (p ∷ c ∷ hi ∷ lo ∷ rest) ≡ some i
unfolding detect_loop
detect_here running i p c hi lo rest h = rw h

detect_next :
    (running i p c hi lo : ℕ) (rest : Bytes)
    → embedded_at (crc16_update running (p ∷ [])) c hi lo ≡ false
    → detect_loop running i (p ∷ c ∷ hi ∷ lo ∷ rest)
      ≡ detect_loop (crc16_update running (p ∷ [])) (i + 1) (c ∷ hi ∷ lo ∷ rest)
unfolding detect_loop
detect_next running i p c hi lo rest h = rw h

-- One round stops, or goes on behind the first byte.
detect_round :
    (running i p c : ℕ) (zs : Bytes)
    → 2 ≤ length zs
    → (detect_loop running i (p ∷ c ∷ zs) ≡ some i)
      ⊎ (detect_loop running i (p ∷ c ∷ zs)
          ≡ detect_loop (crc16_update running (p ∷ [])) (i + 1) (c ∷ zs))
detect_round running i p c [] h = absurd (omega arith)
detect_round running i p c (hi ∷ []) h = absurd (omega arith)
detect_round running i p c (hi ∷ (lo ∷ rest)) h =
    elim (Bool-cases (embedded_at (crc16_update running (p ∷ [])) c hi lo)) [
      | inl found ↦ inl (detect_here running i p c hi lo rest found)
      | inr other ↦ inr (detect_next running i p c hi lo rest other)
    ]

marker_range : (e : ℕ) → is_end_marker e ≡ true → not (ltb e zcrce || ltb zcrcw e) ≡ true
marker_range e h = ground arith

-- An embedded frame passes the test at its index.
embedded_at_orphan :
    (running e : ℕ)
    → is_end_marker e ≡ true
    → let crc = crc16_finalize (crc16_update running (e ∷ [])) in
      embedded_at running e (crc / 2 ^ 8 % 2 ^ 8) (crc % 2 ^ 8) ≡ true
unfolding embedded_at
embedded_at_orphan running e marker =
    let crc = crc16_finalize (crc16_update running (e ∷ [])) in
    let fits = crc16_finalize-lt (crc16_update running (e ∷ [])) in
    rw (marker_range e marker) ((==_iff crc _).1 (omega arith))

-- The detector stops at the embedded frame at the latest.
detect_loop-orphan :
    (xs ys : Bytes) (e p running i : ℕ)
    → is_end_marker e ≡ true
    → let crc = crc16_finalize (crc16_update running (p ∷ xs ++ e ∷ [])) in
      (j : ℕ) × (detect_loop running i (p ∷ xs ++ (e ∷ crc16_bytes crc ++ ys)) ≡ some j)
      × (i ≤ j)
      × (j ≤ i + length xs)
unfolding crc16_update
detect_loop-orphan [] ys e p running i marker =
    let running' = crc16_update running (p ∷ []) in
    let crc = crc16_finalize (crc16_update running (p ∷ e ∷ [])) in
    let test = embedded_at_orphan running' e marker in
    (
      i,
      detect_here running i p e (crc / 2 ^ 8 % 2 ^ 8) (crc % 2 ^ 8) ys test,
      omega arith,
      omega arith,
    )
detect_loop-orphan (x ∷ xs) ys e p running i marker =
    let crc = crc16_finalize (crc16_update running (p ∷ x ∷ xs ++ e ∷ [])) in
    let zs = xs ++ (e ∷ crc16_bytes crc ++ ys) in
    let (j, found, low, high) =
      detect_loop-orphan xs ys e x (crc16_update running (p ∷ [])) (i + 1) marker in
    elim (detect_round running i p x zs
      (omega (arith, length-append xs (e ∷ crc16_bytes crc ++ ys)))) [
        | inl here ↦ (i, here, omega arith, omega arith)
        | inr more ↦ (j, more ∙ found, omega arith, omega arith)
      ]

leb_of : {n : ℕ} → 4 ≤ n → ltb n 4 ≡ false
leb_of h = ground arith

sum16_lem :
    (x : ℕ) (xs : Bytes) (e : ℕ)
    → sum16 (x ∷ xs) e ≡ crc16_finalize (crc16_update 0 (x ∷ xs ++ e ∷ []))
unfolding sum16
sum16_lem x xs e = ap crc16_finalize (sym (crc16_update-append (x ∷ xs) (e ∷ []) 0))

-- A merge is detected, at the boundary or before it, whatever the two subpackets hold, unless the
-- first is empty. The receiver's CRC test passes on the merged data, with the CRC of the second.
pub detect_merged_subpacket-orphan :
    (x : ℕ) (xs ys : Bytes) (e end_type : ℕ)
    → is_end_marker e ≡ true
    → (sum16 (orphan (x ∷ xs) e ++ ys) end_type ≡ sum16 ys end_type)
      × (j : ℕ) × (detect_merged_subpacket (orphan (x ∷ xs) e ++ ys) ≡ some j)
      × (1 ≤ j)
      × (j ≤ length (x ∷ xs))
unfolding detect_merged_subpacket
detect_merged_subpacket-orphan x xs ys e end_type marker =
    let crc = crc16_bytes (sum16 (x ∷ xs) e) in
    let (j, found, low, high) = detect_loop-orphan xs ys e x 0 1 marker in
    let long : ltb (length (orphan (x ∷ xs) e ++ ys)) 4 ≡ false =
      leb_of (omega (arith, length-append (orphan (x ∷ xs) e) ys, length-append xs (e ∷ crc))) in
    (
      sum16_merged (x ∷ xs) ys e end_type,
      j,
      rw (long, append_assoc xs (e ∷ crc) ys, sum16_lem x xs e) found,
      omega arith,
      omega arith,
    )
