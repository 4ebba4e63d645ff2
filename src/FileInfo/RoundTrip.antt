-- ===== src/FileInfo/RoundTrip.antt =====
-- `marshalFileInfo` and `parseFileInfo` against each other.
use go_zmodem.Prelude.{
  IsAscii, ◌≡◌, refl, ap, ◌∙◌, arith, ℕ, ◌^◌, ◌<◌, ◌≤◌, Bool, true, false, some, List, [], ◌∷◌,
  ◌++◌, Bytes, All, ltb, ◌==◌, if◌then◌else◌, get_or, append-nil, Bool-cases, inl, inr,
}
use go_zmodem.Prelude.Int.{ℤ, pos, pos_part}
use go_zmodem.Monad.{good}
use go_zmodem.Text.{to_lower, replace_all, format_uint, format_int, parse_int, fields}
use go_zmodem.Text.Words.{IsVisible, fields-word, fields-last}
use go_zmodem.Text.Numbers.{
  IsInt64, parse_uint-format_uint, parse_int-format_int, format_int-IsVisible, digits-IsVisible,
  format_int_word, format_uint_word,
}
use go_zmodem.FileInfo.{
  FileOffer, FileInfo, wire_name, remaining_meta, meta, marshal_file_info, split_nul, past,
  trim_nuls, keep_nul, info_of, parse_file_info, parse_split, or_else, time_of,
}

abbrev pub HasNoNul : Bytes → Type 0
HasNoNul = All (λ c. 1 ≤ c)

-- An optional piece of the metadata.
optional-HasNoNul :
    (present : Bool) (piece : Bytes) → HasNoNul piece → HasNoNul (if present then piece else [])
optional-HasNoNul false piece clean = tt
optional-HasNoNul true piece clean = clean

split_nul_lem :
    (name rest : Bytes) → HasNoNul name → split_nul (name ++ 0 ∷ rest) ≡ some (name, rest)
unfolding split_nul
split_nul_lem [] rest h = refl
split_nul_lem (b ∷ name) rest (h, hs) =
    let no_nul : (b == 0) ≡ false = ground arith in
    rw no_nul (ap (past b) (split_nul_lem name rest hs))

keep_lem : (b : ℕ) (bs : Bytes) → 1 ≤ b → keep_nul b bs ≡ b ∷ bs
keep_lem b [] h = ground arith
keep_lem b (c ∷ cs) h = refl

trim_nuls_lem : (bs : Bytes) → HasNoNul bs → trim_nuls (bs ++ 0 ∷ []) ≡ bs
unfolding trim_nuls
trim_nuls_lem [] h = refl
trim_nuls_lem (b ∷ bs) (h, hs) = ap (keep_nul b) (trim_nuls_lem bs hs) ∙ keep_lem b bs h

wire_name-HasNoNul : (name : Bytes) → HasNoNul name → HasNoNul (wire_name name)
unfolding to_lower replace_all
wire_name-HasNoNul [] h = tt
wire_name-HasNoNul (c ∷ cs) (h, hs) = (ground arith, wire_name-HasNoNul cs hs)

pub All-append : (P : ℕ → Type 0) (xs ys : Bytes) → All P xs → All P ys → All P (xs ++ ys)
All-append P [] ys p q = q
All-append P (x ∷ xs) ys (p, ps) q = (p, All-append P xs ys ps q)

visible-HasNoNul : (bs : Bytes) → IsVisible bs → HasNoNul bs
visible-HasNoNul [] h = tt
visible-HasNoNul (b ∷ bs) (h, hs) = (omega arith, visible-HasNoNul bs hs)

abbrev IsWord : Bytes → Type 0
IsWord w = (c : ℕ) × (cs : Bytes) × (w ≡ c ∷ cs) × IsVisible (c ∷ cs)

int-IsWord : (base : ℕ) → 2 ≤ base → base ≤ 10 → (i : ℤ) → IsWord (format_int base i)
int-IsWord base low high i = format_int_word base low high i

word_then : (w rest : Bytes) → IsWord w → fields (w ++ 32 ∷ rest) ≡ w ∷ fields rest
word_then w rest (c, cs, e, h) = rw e (fields-word c cs rest h)

word_last : (w : Bytes) → IsWord w → fields w ≡ w ∷ []
word_last w (c, cs, e, h) = rw e (fields-last c cs h)

abbrev bytes_words : ℤ → List Bytes
bytes_words bytes = if ltb 0 (pos_part bytes) then format_int 10 bytes ∷ [] else []

abbrev remaining_words : ℤ → ℤ → List Bytes
remaining_words files bytes =
    if ltb 0 (pos_part files) then format_int 10 files ∷ bytes_words bytes else []

abbrev words : FileOffer → ℤ → ℤ → List Bytes
words offer files bytes =
    format_int 10 offer.size
    ∷ format_int 8 offer.mod_time
    ∷ format_uint 8 offer.mode
    ∷ (b'0' ∷ [])
    ∷ remaining_words files bytes

abbrev bytes_meta : ℤ → Bytes
bytes_meta bytes = if ltb 0 (pos_part bytes) then 32 ∷ format_int 10 bytes else []

fields-bytes :
    (w : Bytes) (bytes : ℤ) → IsWord w → fields (w ++ bytes_meta bytes) ≡ w ∷ bytes_words bytes
fields-bytes w bytes h = elim (Bool-cases (ltb 0 (pos_part bytes))) [
  | inl some_left ↦
      let last =
        word_last (format_int 10 bytes) (int-IsWord 10 (omega arith) (omega arith) bytes) in
      rw some_left (word_then w (format_int 10 bytes) h ∙ ap (λ ws. w ∷ ws) last)
  | inr none_left ↦ rw none_left (ap fields (append-nil w) ∙ word_last w h)
]

fields-remaining :
    (files bytes : ℤ)
    → fields (b'0' ∷ remaining_meta files bytes) ≡ (b'0' ∷ []) ∷ remaining_words files bytes
fields-remaining files bytes =
    let serial : IsWord (b'0' ∷ []) = (b'0', [], refl, (omega arith, tt)) in
    elim (Bool-cases (ltb 0 (pos_part files))) [
      | inl some_left ↦
          let word = int-IsWord 10 (omega arith) (omega arith) files in
          rw some_left (
            word_then (b'0' ∷ []) (format_int 10 files ++ bytes_meta bytes) serial
            ∙ ap (λ ws. (b'0' ∷ []) ∷ ws) (fields-bytes (format_int 10 files) bytes word))
      | inr none_left ↦ rw none_left (word_last (b'0' ∷ []) serial)
    ]

fields-meta :
    (offer : FileOffer) (files bytes : ℤ)
    → fields (meta offer files bytes) ≡ words offer files bytes
fields-meta offer files bytes =
    let size = format_int 10 offer.size in
    let time = format_int 8 offer.mod_time in
    let mode = format_uint 8 offer.mode in
    let rest = b'0' ∷ remaining_meta files bytes in
    word_then size (time ++ 32 ∷ (mode ++ 32 ∷ rest))
      (int-IsWord 10 (omega arith) (omega arith) offer.size)
    ∙ ap (λ ws. size ∷ ws)
        (word_then time (mode ++ 32 ∷ rest)
          (int-IsWord 8 (omega arith) (omega arith) offer.mod_time))
    ∙ ap (λ ws. size ∷ time ∷ ws)
        (word_then mode rest (format_uint_word 8 (omega arith) (omega arith) offer.mode))
    ∙ ap (λ ws. size ∷ time ∷ mode ∷ ws) (fields-remaining files bytes)

int-HasNoNul : (base : ℕ) → 2 ≤ base → base ≤ 10 → (i : ℤ) → HasNoNul (format_int base i)
int-HasNoNul base low high i =
    visible-HasNoNul (format_int base i) (format_int-IsVisible base low high i)

spaced-HasNoNul : (xs ys : Bytes) → HasNoNul xs → HasNoNul ys → HasNoNul (xs ++ 32 ∷ ys)
spaced-HasNoNul xs ys h k = All-append (λ c. 1 ≤ c) xs (32 ∷ ys) h (omega arith, k)

remaining-HasNoNul : (files bytes : ℤ) → HasNoNul (remaining_meta files bytes)
remaining-HasNoNul files bytes =
    let f = int-HasNoNul 10 (omega arith) (omega arith) files in
    let b = int-HasNoNul 10 (omega arith) (omega arith) bytes in
    let tail =
      optional-HasNoNul (ltb 0 (pos_part bytes)) (32 ∷ format_int 10 bytes) (omega arith, b) in
    optional-HasNoNul (ltb 0 (pos_part files)) (32 ∷ (format_int 10 files ++ bytes_meta bytes))
      (omega arith, All-append (λ c. 1 ≤ c) (format_int 10 files) (bytes_meta bytes) f tail)

meta-HasNoNul : (offer : FileOffer) (files bytes : ℤ) → HasNoNul (meta offer files bytes)
meta-HasNoNul offer files bytes =
    let mode =
      visible-HasNoNul (format_uint 8 offer.mode)
        (digits-IsVisible 8 (omega arith) (omega arith) offer.mode) in
    spaced-HasNoNul (format_int 10 offer.size) _
      (int-HasNoNul 10 (omega arith) (omega arith) offer.size)
      (spaced-HasNoNul (format_int 8 offer.mod_time) _
        (int-HasNoNul 8 (omega arith) (omega arith) offer.mod_time)
        (spaced-HasNoNul (format_uint 8 offer.mode) _ mode
          (omega arith, remaining-HasNoNul files bytes)))

-- What the receiver is told.
abbrev pub told : FileOffer → ℤ → ℤ → FileInfo
told offer files bytes = record {
  name = wire_name offer.name;
  size = offer.size;
  mod_time = pos (pos_part offer.mod_time);
  mode = offer.mode;
  files_remaining = if ltb 0 (pos_part files) then files else pos 0;
  bytes_remaining =
      if ltb 0 (pos_part files) then (if ltb 0 (pos_part bytes) then bytes else pos 0) else pos 0;
}

parsed_nothing : or_else (pos 0) (parse_int 10 []) ≡ pos 0
unfolding parse_int
parsed_nothing = refl

parsed : (i : ℤ) → IsInt64 i → or_else (pos 0) (parse_int 10 (format_int 10 i)) ≡ i
parsed i h = ap (or_else (pos 0)) (parse_int-format_int 10 (omega arith) (omega arith) i h)

parsed_bytes :
    (bytes : ℤ)
    → IsInt64 bytes
    → or_else (pos 0) (parse_int 10 (get_or (bytes_words bytes) 0 []))
      ≡ (if ltb 0 (pos_part bytes) then bytes else pos 0)
parsed_bytes bytes h = elim (Bool-cases (ltb 0 (pos_part bytes))) [
  | inl some_left ↦ rw some_left (parsed bytes h)
  | inr none_left ↦ rw none_left parsed_nothing
]

parsed_remaining :
    (files bytes : ℤ)
    → IsInt64 files
    → IsInt64 bytes
    → (or_else (pos 0) (parse_int 10 (get_or (remaining_words files bytes) 0 []))
        ≡ (if ltb 0 (pos_part files) then files else pos 0))
      × (or_else (pos 0) (parse_int 10 (get_or (remaining_words files bytes) 1 [])) ≡ (
          if ltb 0 (pos_part files)
          then (if ltb 0 (pos_part bytes) then bytes else pos 0)
          else pos 0))
parsed_remaining files bytes f b = elim (Bool-cases (ltb 0 (pos_part files))) [
  | inl some_left ↦ rw some_left (parsed files f, parsed_bytes bytes b)
  | inr none_left ↦ rw none_left (parsed_nothing, parsed_nothing)
]

info_of-words :
    (offer : FileOffer) (files bytes : ℤ)
    → IsInt64 offer.size
    → IsInt64 offer.mod_time
    → offer.mode < 2 ^ 32
    → IsInt64 files
    → IsInt64 bytes
    → info_of (wire_name offer.name) (words offer files bytes) ≡ told offer files bytes
unfolding info_of
info_of-words offer files bytes size time mode f b =
    let (files', bytes') = parsed_remaining files bytes f b in
    let size' = parsed offer.size size in
    let time' =
      ap time_of (parse_int-format_int 8 (omega arith) (omega arith) offer.mod_time time) in
    let mode' =
      ap (or_else 0)
        (parse_uint-format_uint 8 (omega arith) (omega arith) (2 ^ 32) offer.mode mode) in
    λ i. record {
      name = wire_name offer.name;
      size = size' i;
      mod_time = time' i;
      mode = mode' i;
      files_remaining = files' i;
      bytes_remaining = bytes' i;
    }

-- `parseFileInfo` gives back what `marshalFileInfo` was told: the name in lower case with its
-- backslashes turned, the size and the mode, the time if it is positive (otherwise the zero time),
-- and the remaining counts as far as they are sent. The name is ASCII without a NUL (of other
-- characters `strings.ToLower` is not modelled), and the numbers fit their machine types.
pub parse_file_info-marshal_file_info :
    (offer : FileOffer) (files bytes : ℤ)
    → IsAscii offer.name
    → HasNoNul offer.name
    → IsInt64 offer.size
    → IsInt64 offer.mod_time
    → offer.mode < 2 ^ 32
    → IsInt64 files
    → IsInt64 bytes
    → parse_file_info (marshal_file_info offer files bytes) ≡ good (told offer files bytes)
unfolding parse_file_info marshal_file_info
parse_file_info-marshal_file_info offer files bytes _ name size time mode f b =
    let body = meta offer files bytes in
    ap parse_split
      (split_nul_lem (wire_name offer.name) (body ++ 0 ∷ []) (wire_name-HasNoNul offer.name name))
    ∙ ap (λ bs. good (info_of (wire_name offer.name) (fields bs)))
        (trim_nuls_lem body (meta-HasNoNul offer files bytes))
    ∙ ap (λ ws. good (info_of (wire_name offer.name) ws)) (fields-meta offer files bytes)
    ∙ ap good (info_of-words offer files bytes size time mode f b)
