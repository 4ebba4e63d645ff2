-- ===== src/Escape.antt =====
-- `escape.go`: the table of bytes that are escaped on the wire, and the escape itself.
pub mod Laws
use go_zmodem.Prelude.{
  ℕ, zero, suc, ◌+◌, bit_or, bit_xor, Bool, true, false, ◌||◌, List, set, get_or, replicate, ◌==◌,
  if◌then◌else◌,
}
use go_zmodem.Constants.{zdle, xon, xoff, EscapeMode, standard, all_controls, minimal}

abbrev pub esc_send : ℕ
esc_send = 0

abbrev pub esc_must : ℕ
esc_must = 1

abbrev pub esc_if_at_cr : ℕ
esc_if_at_cr = 2

-- `var table [256]byte`
abbrev empty_table : List ℕ
empty_table = replicate 256 esc_send

must : ℕ → List ℕ → List ℕ
must b table = set table b esc_must

-- The set that the standard mode and the mode for all control characters share.
base_table : List ℕ
unfolding must
base_table =
    let escapes = must 0x98 (
      must 0x93
        (must 0x91 (must 0x90 (must xoff (must xon (must 0x10 (must zdle empty_table))))))) in
    set (set escapes 0x0d esc_if_at_cr) 0x8d esc_if_at_cr

must_if_send : ℕ → List ℕ → List ℕ
unfolding must
must_if_send b table = if get_or table b 0 == esc_send then must b table else table

-- The loop over the control characters: rounds left and `i`.
escape_controls : ℕ → ℕ → List ℕ → List ℕ
unfolding must_if_send
escape_controls zero i table = table
escape_controls (suc left) i table =
    escape_controls left (i + 1) (must_if_send (bit_or i 0x80) (must_if_send i table))

unfoldable pub build_escape_table : EscapeMode → List ℕ
unfolding must base_table escape_controls
build_escape_table minimal = must zdle empty_table
build_escape_table standard = base_table
build_escape_table all_controls = escape_controls 32 0 base_table

unfoldable pub escape_required : List ℕ → ℕ → ℕ → Bool
escape_required table b last_sent =
    let kind = get_or table b 0 in
    if kind == esc_must
    then true
    else if kind == esc_if_at_cr
    then last_sent == b'@' || last_sent == 0xc0
    else false

unfoldable pub escape_byte : ℕ → ℕ × ℕ
escape_byte b = (zdle, bit_xor b 0x40)

unfoldable pub unescape_byte : ℕ → ℕ
unescape_byte c = bit_xor c 0x40
