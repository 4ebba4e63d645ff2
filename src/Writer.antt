-- ===== src/Writer.antt =====
-- `writer.go`: the buffered writer that escapes bytes by the table and keeps the last byte sent.
pub mod Encode
pub mod Ends
use go_zmodem.Prelude.{
  ℕ, ◌+◌, ◌/◌, ◌%◌, ◌^◌, Bool, List, [], ◌∷◌, none, Option, Bytes, get_or, false, length, ◌==◌, ◌-◌,
  if◌then◌else◌,
}
use go_zmodem.Monad.{Res, ok, err, M, pure, zoom, ◌>>=◌, ◌>>◌}
use go_zmodem.Constants.{EscapeMode}
use go_zmodem.Escape.{build_escape_table, escape_required, escape_byte}
use go_zmodem.Bufio.Output
use go_zmodem.Bufio.Output.{Output}

pub record Writer : Type 0 where
  pub w : Output
  pub table : List ℕ
  pub last_sent : ℕ
  pub escape_mode : EscapeMode

unfoldable pub new_transport_writer : Option ℕ → EscapeMode → Writer
new_transport_writer writes_left mode = record {
  w = record { wire = []; buf = []; writes_left = writes_left; broken = false };
  table = build_escape_table mode;
  last_sent = 0;
  escape_mode = mode;
}

unfoldable pub set_escape_mode : EscapeMode → M Writer (Unit {0})
set_escape_mode mode tw = ok tt (record tw { table = build_escape_table mode; escape_mode = mode })

abbrev pub sent : ℕ → M Writer (Unit {0})
sent b tw = ok tt (record tw { last_sent = b })

abbrev pub output : {A : Type 0} → M Output A → M Writer A
output = zoom (λ tw. tw.w) (λ tw o. record tw { w = o })

unfoldable pub flush : M Writer (Unit {0})
flush = output Output.flush

abbrev pub last_of : ℕ → Bytes → ℕ
last_of d [] = d
last_of d (b ∷ bs) = last_of b bs

-- The last byte is recorded whether or not the write succeeded.
unfoldable pub write_raw : Bytes → M Writer (Unit {0})
write_raw bytes tw =
    output (Output.write bytes) (record tw { last_sent = last_of tw.last_sent bytes })

unfoldable pub write_byte : ℕ → M Writer (Unit {0})
write_byte b = output (Output.write_byte b) >> sent b

unfoldable pub write_escaped_byte : ℕ → M Writer (Unit {0})
write_escaped_byte b tw =
    let (esc1, esc2) = escape_byte b in
    if escape_required tw.table b tw.last_sent
    then (output (Output.write_byte esc1) >> (sent esc2 >> output (Output.write_byte esc2))) tw
    else (sent b >> output (Output.write_byte b)) tw

unfoldable pub write_escaped : Bytes → M Writer (Unit {0})
write_escaped [] = pure tt
write_escaped (b ∷ bs) = write_escaped_byte b >> write_escaped bs

-- `hexDigits[d]`
unfoldable pub hex_digit : ℕ → ℕ
hex_digit d =
    get_or
      (b'0' ∷ b'1' ∷ b'2' ∷ b'3' ∷ b'4' ∷ b'5' ∷ b'6' ∷ b'7' ∷ b'8' ∷ b'9' ∷ b'a' ∷ b'b' ∷ b'c'
        ∷ b'd' ∷ b'e' ∷ b'f' ∷ [])
      d 0

unfoldable pub write_hex : ℕ → M Writer (Unit {0})
write_hex b =
    output (Output.write_byte (hex_digit (b / 2 ^ 4)))
    >> output (Output.write_byte (hex_digit (b % 2 ^ 4)))
