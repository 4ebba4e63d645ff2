-- ===== src/Text.antt =====
-- What the file information takes from the packages strings, strconv and fmt, on ASCII bytes. A
-- string is the list of its bytes.
pub mod Numbers
pub mod Words
use go_zmodem.Prelude.{
  ℕ, zero, suc, ◌+◌, ◌-◌, ◌*◌, ◌/◌, ◌%◌, ◌^◌, Bool, true, false, ◌&&◌, ◌||◌, Option, none, some,
  List, [], ◌∷◌, ◌++◌, Bytes, ltb, leb, ◌==◌, if◌then◌else◌,
}
use go_zmodem.Prelude.Int.{ℤ, pos, negsuc}

-- `strings.ToLower`
unfoldable pub to_lower : Bytes → Bytes
to_lower [] = []
to_lower (c ∷ cs) = (if leb b'A' c && leb c b'Z' then c + 32 else c) ∷ to_lower cs

-- `strings.ReplaceAll` at single bytes
unfoldable pub replace_all : ℕ → ℕ → Bytes → Bytes
replace_all old new [] = []
replace_all old new (c ∷ cs) = (if c == old then new else c) ∷ replace_all old new cs

-- The digits of `n` in front of `out`; each round divides by the base, so `n` bounds the rounds.
unfoldable pub digits : ℕ → ℕ → ℕ → Bytes → Bytes
digits base zero n out = out
digits base (suc fuel) n out =
    let rest = digits base fuel (n / base) ((b'0' + n % base) ∷ out) in if n == 0 then out else rest

unfoldable pub format_uint : ℕ → ℕ → Bytes
format_uint base n = if n == 0 then b'0' ∷ [] else digits base n n []

-- `%d` and `%o`
unfoldable pub format_int : ℕ → ℤ → Bytes
format_int base (pos n) = format_uint base n
format_int base (negsuc n) = b'-' ∷ format_uint base (suc n)

-- The value of digits in a base up to ten, behind those with the value `n`.
unfoldable pub scan_digits : ℕ → Bytes → ℕ → Option ℕ
scan_digits base [] n = some n
scan_digits base (c ∷ cs) n =
    let rest = scan_digits base cs (n * base + (c - b'0')) in
    if leb b'0' c && ltb c (b'0' + base) then rest else none

-- A value that does not fit is an error.
abbrev pub below : ℕ → Option ℕ → Option ℕ
below limit none = none
below limit (some n) = if ltb n limit then some n else none

-- `strconv.ParseUint`, without the values that it returns beside an error
unfoldable pub parse_uint : ℕ → ℕ → Bytes → Option ℕ
parse_uint base limit [] = none
parse_uint base limit (c ∷ cs) = below limit (scan_digits base (c ∷ cs) 0)

abbrev pub positive : Option ℕ → Option ℤ
positive none = none
positive (some n) = some (pos n)

abbrev pub negative : Option ℕ → Option ℤ
negative none = none
negative (some zero) = some (pos 0)
negative (some (suc n)) = some (negsuc n)

-- `strconv.ParseInt` into 64 bits
unfoldable pub parse_int : ℕ → Bytes → Option ℤ
parse_int base [] = none
parse_int base (c ∷ cs) =
    if c == b'-'
    then negative (parse_uint base (2 ^ 63 + 1) cs)
    else if c == b'+'
    then positive (parse_uint base (2 ^ 63) cs)
    else positive (parse_uint base (2 ^ 63) (c ∷ cs))

abbrev pub is_space : ℕ → Bool
is_space c = (leb 9 c && leb c 13) || c == 32

abbrev pub flush_word : Bytes → List Bytes → List Bytes
flush_word [] words = words
flush_word (c ∷ cs) words = (c ∷ cs) ∷ words

-- `word` is the field that has begun.
unfoldable pub fields_from : Bytes → Bytes → List Bytes
fields_from word [] = flush_word word []
fields_from word (c ∷ cs) =
    let next = fields_from [] cs in
    let more = fields_from (word ++ c ∷ []) cs in if is_space c then flush_word word next else more

-- `strings.Fields`
unfoldable pub fields : Bytes → List Bytes
unfolding fields_from
fields = fields_from []
