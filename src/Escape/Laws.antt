-- ===== src/Escape/Laws.antt =====
-- The escape table against the decoder, for every byte and mode.
use go_zmodem.Prelude.{
  ◌≡◌, ◌≢◌, refl, arith, ℕ, ◌<◌, bit_xor, bit_and, Bool, true, false, not, ◌&&◌, ◌||◌, get_or, leb,
  ltb, ◌==◌, all_below, all_below_at,
}
use go_zmodem.Prelude.Xor.{bit_xor_cancel}
use go_zmodem.Constants.{zdle, xon, xoff, zcrce, zrub1, EscapeMode, standard, all_controls, minimal}
use go_zmodem.Escape.{
  esc_must, esc_send, build_escape_table, escape_required, escape_byte, unescape_byte,
}

-- `unescapeByte` undoes `escapeByte`.
pub unescape_byte-escape_byte : (b : ℕ) → unescape_byte (escape_byte b).1 ≡ b
unfolding unescape_byte escape_byte
unescape_byte-escape_byte b = bit_xor_cancel b 0x40

-- XON and XOFF, with or without the parity bit.
abbrev pub is_flow : ℕ → Bool
is_flow b = bit_and b 0x7f == xon || bit_and b 0x7f == xoff

abbrev pub strips : EscapeMode → Bool
strips minimal = false
strips standard = true
strips all_controls = true

-- The second byte of an escape is no control character and no marker of the subpacket protocol.
abbrev pub plain_escape : ℕ → Bool
plain_escape c = leb 0x40 c && (ltb c zcrce || ltb zrub1 c) && not (is_flow c)

escape_fits : EscapeMode → ℕ → Bool
escape_fits mode b =
    let kind = get_or (build_escape_table mode) b 0 in
    (kind == esc_send || plain_escape (bit_xor b 0x40))
    && (kind == esc_must || (not (b == zdle) && not (strips mode && is_flow b)))

escape_table_fits : (mode : EscapeMode) → all_below 256 (escape_fits mode) ≡ true
unfolding escape_fits build_escape_table all_below
escape_table_fits standard = refl
escape_table_fits all_controls = refl
escape_table_fits minimal = refl

module _ (mode : EscapeMode) (b last : ℕ) (byte : b < 256) where
  -- An escaped byte is sent as ZDLE and a plain byte.
  pub plain_escape_of_required :
      escape_required (build_escape_table mode) b last ≡ true → plain_escape (bit_xor b 0x40) ≡ true
  unfolding escape_required escape_fits
  plain_escape_of_required h =
      ground (arith, all_below_at 256 (escape_fits mode) b byte (escape_table_fits mode))

  -- A byte that is sent as it is can be taken neither for ZDLE nor, where the reader strips flow
  -- control, for XON or XOFF.
  pub plain_of_not_required :
      escape_required (build_escape_table mode) b last ≡ false
      → (b ≢ zdle) × ((strips mode && is_flow b) ≡ false)
  unfolding escape_required escape_fits
  plain_of_not_required h =
      ground (arith, all_below_at 256 (escape_fits mode) b byte (escape_table_fits mode))
