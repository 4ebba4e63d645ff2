-- ===== src/FileInfo.antt =====
-- `fileinfo.go`: the metadata of a file, in the subpacket of ZFILE; the records are those of
-- `zmodem.go`. Names and metadata are ASCII. A time is its Unix seconds, 0 for the zero time.
pub mod RoundTrip
pub mod Wire
mod Tests
use go_zmodem.Prelude.{
  ℕ, zero, suc, ◌+◌, ◌^◌, Bool, true, false, Option, none, some, List, [], ◌∷◌, ◌++◌, Bytes, ltb,
  ◌==◌, if◌then◌else◌, get_or,
}
use go_zmodem.Monad.{Either, good, bad, missing_null}
use go_zmodem.Prelude.Int.{ℤ, pos, negsuc, pos_part}
use go_zmodem.Text.{to_lower, replace_all, format_uint, format_int, parse_uint, parse_int, fields}
use go_zmodem.Source.{Source}

pub record FileOffer : Type 0 where
  pub name : Bytes
  pub size : ℤ
  pub mod_time : ℤ
  pub mode : ℕ
  pub reader : Source

pub record FileInfo : Type 0 where
  pub name : Bytes
  pub size : ℤ
  pub mod_time : ℤ
  pub mode : ℕ
  pub files_remaining : ℤ
  pub bytes_remaining : ℤ

abbrev pub wire_name : Bytes → Bytes
wire_name name = replace_all b'\\' b'/' (to_lower name)

abbrev pub remaining_meta : ℤ → ℤ → Bytes
remaining_meta files bytes =
    if ltb 0 (pos_part files)
    then 32
      ∷ (format_int 10 files ++ (if ltb 0 (pos_part bytes) then 32 ∷ format_int 10 bytes else []))
    else []

abbrev pub meta : FileOffer → ℤ → ℤ → Bytes
meta offer files bytes =
    format_int 10 offer.size
    ++ 32
      ∷ (format_int 8 offer.mod_time
          ++ 32 ∷ (format_uint 8 offer.mode ++ 32 ∷ b'0' ∷ remaining_meta files bytes))

unfoldable pub marshal_file_info : FileOffer → ℤ → ℤ → Bytes
marshal_file_info offer files bytes = wire_name offer.name ++ 0 ∷ (meta offer files bytes ++ 0 ∷ [])

abbrev pub past : ℕ → Option (Bytes × Bytes) → Option (Bytes × Bytes)
past b none = none
past b (some (name, rest)) = some (b ∷ name, rest)

-- The bytes before the first NUL, and those behind it.
unfoldable pub split_nul : Bytes → Option (Bytes × Bytes)
split_nul [] = none
split_nul (b ∷ bs) = if b == 0 then some ([], bs) else past b (split_nul bs)

abbrev pub keep_nul : ℕ → Bytes → Bytes
keep_nul b [] = if b == 0 then [] else b ∷ []
keep_nul b (c ∷ cs) = b ∷ c ∷ cs

-- The trailing NULs are dropped.
unfoldable pub trim_nuls : Bytes → Bytes
trim_nuls [] = []
trim_nuls (b ∷ bs) = keep_nul b (trim_nuls bs)

abbrev pub or_else {ℓ} : {A : Type ℓ} → A → Option A → A
or_else d none = d
or_else d (some a) = a

-- A time that is not positive is the zero time.
abbrev pub time_of : Option ℤ → ℤ
time_of none = pos 0
time_of (some t) = pos (pos_part t)

-- A field that is missing or does not parse leaves 0; an empty string does not parse.
unfoldable pub info_of : Bytes → List Bytes → FileInfo
info_of name words = record {
  name = name;
  size = or_else (pos 0) (parse_int 10 (get_or words 0 []));
  mod_time = time_of (parse_int 8 (get_or words 1 []));
  mode = or_else 0 (parse_uint 8 (2 ^ 32) (get_or words 2 []));
  files_remaining = or_else (pos 0) (parse_int 10 (get_or words 4 []));
  bytes_remaining = or_else (pos 0) (parse_int 10 (get_or words 5 []));
}

abbrev pub parse_split : Option (Bytes × Bytes) → Either FileInfo
parse_split none = bad missing_null
parse_split (some (name, rest)) = good (info_of name (fields (trim_nuls rest)))

unfoldable pub parse_file_info : Bytes → Either FileInfo
parse_file_info bytes = parse_split (split_nul bytes)
