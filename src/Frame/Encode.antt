-- ===== src/Frame/Encode.antt =====
-- The bytes that a sent header puts on the wire.
use mathlib.Core.Path.{subst}
use go_zmodem.Prelude.{
  ap, ℕ, ◌/◌, ◌%◌, ◌^◌, Bool, true, false, List, [], ◌∷◌, ◌++◌, append-nil, Bytes, if◌then◌else◌,
}
use go_zmodem.Monad.{pure}
use go_zmodem.Constants.{zpad, zdle, zbin, zhex, zbin32, xon}
use go_zmodem.Crc.{crc16_calc, crc32_calc, crc16_bytes, le32_bytes}
use go_zmodem.Writer.{Writer, write_byte, hex_digit}
use go_zmodem.Writer.Encode.{
  escaped, escaped-append, Writes, Writes->>, write_raw-Writes, write_byte-Writes, write_hex-Writes,
  write_escaped-Writes, write_escaped_byte-Writes, flush-Sends, pure-Writes, Sends, Sends->>,
}
use go_zmodem.Bufio.Output.{IsHealthy}
use go_zmodem.Frame.{Header, payload, write_hexes, xon_follows, send_hex_header, send_bin_header}

unfoldable pub hex_bytes : Bytes → Bytes
hex_bytes [] = []
hex_bytes (b ∷ bs) = hex_digit (b / 2 ^ 4) ∷ hex_digit (b % 2 ^ 4) ∷ hex_bytes bs

-- The payload and the CRC behind it.
abbrev pub with_crc : Bool → Header → Bytes
with_crc true h = payload h ++ le32_bytes (crc32_calc (payload h))
with_crc false h = payload h ++ crc16_bytes (crc16_calc (payload h))

abbrev pub xon_of : Bool → Bytes
xon_of true = xon ∷ []
xon_of false = []

abbrev pub hex_wire : Header → Bytes
hex_wire h =
    zpad ∷ zpad ∷ zdle ∷ zhex ∷ hex_bytes (with_crc false h)
    ++ (0x0d ∷ 0x0a ∷ xon_of (xon_follows h.frame_type))

abbrev pub encoding_of : Bool → ℕ
encoding_of true = zbin32
encoding_of false = zbin

abbrev pub bin_wire : List ℕ → Bool → Header → Bytes
bin_wire table use_crc32 h =
    zpad
    ∷ zdle
    ∷ encoding_of use_crc32
    ∷ escaped table (encoding_of use_crc32) (with_crc use_crc32 h)

write_hexes-Writes :
    (bs : Bytes) (tw : Writer)
    → IsHealthy tw.w
    → Writes (write_hexes bs) tw (hex_bytes bs) tw.last_sent
unfolding write_hexes hex_bytes
write_hexes-Writes [] tw h = pure-Writes tw h
write_hexes-Writes (b ∷ bs) tw h =
    let x = write_hex-Writes b tw h in
    let y = write_hexes-Writes bs x.after x.healthy in
    subst (Writes (write_hexes (b ∷ bs)) tw (hex_bytes (b ∷ bs))) x.last_sent (Writes->> x y)

optional_xon :
    (follows : Bool) (tw : Writer)
    → IsHealthy tw.w
    → (l : ℕ) × Writes (if follows then write_byte xon else pure tt) tw (xon_of follows) l
optional_xon true tw h = (xon, write_byte-Writes xon tw h)
optional_xon false tw h = (tw.last_sent, pure-Writes tw h)

-- A sent header in hexadecimal is on the wire, whole, when the call returns.
pub send_hex_header-Sends :
    (h : Header) (tw : Writer) → IsHealthy tw.w → Sends (send_hex_header h) tw (hex_wire h)
unfolding send_hex_header hex_bytes
send_hex_header-Sends h tw healthy =
    let crc = crc16_calc (payload h) in
    let hex_prefix =
      (zpad ∷ zpad ∷ zdle ∷ zhex ∷ hex_bytes (with_crc false h)) ++ (0x0d ∷ 0x0a ∷ []) in
    let a = write_raw-Writes (zpad ∷ zpad ∷ zdle ∷ zhex ∷ []) tw healthy in
    let b = write_hexes-Writes (payload h) a.after a.healthy in
    let c = write_hex-Writes (crc / 2 ^ 8 % 2 ^ 8) b.after b.healthy in
    let d = write_hex-Writes (crc % 2 ^ 8) c.after c.healthy in
    let e = write_byte-Writes 0x0d d.after d.healthy in
    let f = write_byte-Writes 0x0a e.after e.healthy in
    let g = optional_xon (xon_follows h.frame_type) f.after f.healthy in
    let sent = Sends->> a (
      Sends->> b (
        Sends->> c (
          Sends->> d
            (Sends->> e (Sends->> f (Sends->> g.1 (flush-Sends g.1.after g.1.healthy))))))) in
    subst (Sends (send_hex_header h) tw)
      (ap (λ t. hex_prefix ++ t) (append-nil (xon_of (xon_follows h.frame_type)))) sent

-- A sent binary header is on the wire, whole, when the call returns.
pub send_bin_header-Sends :
    (use_crc32 : Bool) (h : Header) (tw : Writer)
    → IsHealthy tw.w
    → Sends (send_bin_header use_crc32 h) tw (bin_wire tw.table use_crc32 h)
unfolding send_bin_header escaped
send_bin_header-Sends true h tw healthy =
    let crc = le32_bytes (crc32_calc (payload h)) in
    let a = write_raw-Writes (zpad ∷ zdle ∷ zbin32 ∷ []) tw healthy in
    let b = write_escaped-Writes (payload h) a.after a.healthy in
    let c = write_escaped-Writes crc b.after b.healthy in
    let d = flush-Sends c.after c.healthy in
    let sent = Sends->> a (Sends->> b (Sends->> c d)) in
    subst (Sends (send_bin_header true h) tw)
      (rw (
        append-nil (escaped b.after.table b.after.last_sent crc),
        b.same_table,
        b.last_sent,
        a.same_table,
        a.last_sent,
        escaped-append tw.table zbin32 (payload h) crc,
      ))
      sent
send_bin_header-Sends false h tw healthy =
    let crc = crc16_calc (payload h) in
    let a = write_raw-Writes (zpad ∷ zdle ∷ zbin ∷ []) tw healthy in
    let b = write_escaped-Writes (payload h) a.after a.healthy in
    let c = write_escaped_byte-Writes (crc / 2 ^ 8 % 2 ^ 8) b.after b.healthy in
    let d = write_escaped_byte-Writes (crc % 2 ^ 8) c.after c.healthy in
    let e = flush-Sends d.after d.healthy in
    let sent = Sends->> a (Sends->> b (Sends->> c (Sends->> d e))) in
    subst (Sends (send_bin_header false h) tw)
      (rw (
        c.same_table,
        c.last_sent,
        b.same_table,
        b.last_sent,
        a.same_table,
        a.last_sent,
        escaped-append tw.table zbin (payload h) (crc16_bytes crc),
        escaped,
      ))
      sent
