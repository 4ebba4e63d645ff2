-- ===== src/FileInfo/Wire.antt =====
-- `fileinfo.go`: what `marshalFileInfo` makes of an ASCII name is bytes.
use go_zmodem.Prelude.{
  arith, ◌<◌, Bool, true, false, [], ◌∷◌, ◌++◌, Bytes, IsAscii, IsBytes, ltb, if◌then◌else◌,
}
use go_zmodem.Prelude.Int.{ℤ, pos_part}
use go_zmodem.Text.{to_lower, replace_all, format_uint, format_int}
use go_zmodem.Text.Numbers.{format_uint-IsBytes, format_int-IsBytes}
use go_zmodem.FileInfo.{FileOffer, wire_name, remaining_meta, meta, marshal_file_info}
use go_zmodem.FileInfo.RoundTrip.{All-append}

append-IsBytes : (xs ys : Bytes) → IsBytes xs → IsBytes ys → IsBytes (xs ++ ys)
append-IsBytes = All-append (λ b. b < 256)

optional-IsBytes : (b : Bool) (bs : Bytes) → IsBytes bs → IsBytes (if b then bs else [])
optional-IsBytes true bs h = h
optional-IsBytes false bs h = tt

wire_name-IsBytes : (name : Bytes) → IsAscii name → IsBytes (wire_name name)
unfolding to_lower replace_all
wire_name-IsBytes [] h = tt
wire_name-IsBytes (c ∷ cs) (h, hs) = (ground arith, wire_name-IsBytes cs hs)

spaced-IsBytes : (xs ys : Bytes) → IsBytes xs → IsBytes ys → IsBytes (xs ++ 32 ∷ ys)
spaced-IsBytes xs ys h k = append-IsBytes xs (32 ∷ ys) h (omega arith, k)

remaining-IsBytes : (files bytes : ℤ) → IsBytes (remaining_meta files bytes)
remaining-IsBytes files bytes =
    let f = format_int-IsBytes 10 (omega arith) (omega arith) files in
    let b = format_int-IsBytes 10 (omega arith) (omega arith) bytes in
    let tail = if ltb 0 (pos_part bytes) then 32 ∷ format_int 10 bytes else [] in
    optional-IsBytes (ltb 0 (pos_part files)) (32 ∷ (format_int 10 files ++ tail)) (
      omega arith,
      append-IsBytes (format_int 10 files) tail f
          (optional-IsBytes (ltb 0 (pos_part bytes)) (32 ∷ format_int 10 bytes) (omega arith, b)),
    )

meta-IsBytes : (offer : FileOffer) (files bytes : ℤ) → IsBytes (meta offer files bytes)
meta-IsBytes offer files bytes =
    let mode = format_uint-IsBytes 8 (omega arith) (omega arith) offer.mode in
    spaced-IsBytes (format_int 10 offer.size) _
      (format_int-IsBytes 10 (omega arith) (omega arith) offer.size)
      (spaced-IsBytes (format_int 8 offer.mod_time) _
        (format_int-IsBytes 8 (omega arith) (omega arith) offer.mod_time)
        (spaced-IsBytes (format_uint 8 offer.mode) _ mode
          (omega arith, remaining-IsBytes files bytes)))

pub marshal_file_info-IsBytes :
    (offer : FileOffer) (files bytes : ℤ)
    → IsAscii offer.name
    → IsBytes (marshal_file_info offer files bytes)
unfolding marshal_file_info
marshal_file_info-IsBytes offer files bytes name =
    append-IsBytes (wire_name offer.name) _ (wire_name-IsBytes offer.name name) (
      omega arith,
      append-IsBytes (meta offer files bytes) (0 ∷ []) (meta-IsBytes offer files bytes)
          (omega arith),
    )
