-- ===== src/Subpacket/Encode.antt =====
-- The bytes that a sent subpacket puts on the wire.
use mathlib.Core.Path.{subst}
use go_zmodem.Prelude.{
  ◌≡◌, sym, ap, ◌∙◌, ℕ, ◌/◌, ◌%◌, ◌^◌, Bool, true, false, List, [], ◌∷◌, ◌++◌, append-nil,
  append_assoc, Bytes, ◌==◌, if◌then◌else◌,
}
use go_zmodem.Monad.{pure}
use go_zmodem.Constants.{zdle, zcrcw, xon}
use go_zmodem.Crc.{crc16_bytes, le32_bytes}
use go_zmodem.Writer.{Writer, write_byte}
use go_zmodem.Writer.Encode.{
  escaped, escaped_byte, sent_byte, Writes, write_byte-Writes, write_escaped-Writes,
  write_escaped_byte-Writes, pure-Writes, Sends, Sends->>, flush-Sends,
}
use go_zmodem.Bufio.Output.{IsHealthy}
use go_zmodem.Frame.Encode.{xon_of}
use go_zmodem.Subpacket.{sum16, sum32, xon_behind, send_subpacket}

-- The CRC of a subpacket as it is sent.
abbrev pub crc_of : Bool → Bytes → ℕ → Bytes
crc_of true bytes end_type = le32_bytes (sum32 bytes end_type)
crc_of false bytes end_type = crc16_bytes (sum16 bytes end_type)

-- Escaped data, the end marker and the escaped CRC, with `last` the byte sent before.
abbrev pub subpacket_wire : List ℕ → ℕ → Bool → Bytes → ℕ → Bytes
subpacket_wire table last use_crc32 bytes end_type =
    escaped table last bytes
    ++ (zdle ∷ end_type ∷ escaped table end_type (crc_of use_crc32 bytes end_type))

xon_behind-Writes :
    (end_type : ℕ) (tw : Writer)
    → IsHealthy tw.w
    → (l : ℕ) × Writes (xon_behind end_type) tw (xon_of (end_type == zcrcw)) l
xon_behind-Writes end_type tw h = go (end_type == zcrcw)
  where
    go : (b : Bool) → (l : ℕ) × Writes (if b then write_byte xon else pure tt) tw (xon_of b) l
    go true = (xon, write_byte-Writes xon tw h)
    go false = (tw.last_sent, pure-Writes tw h)

regroup :
    (xs ys zs ws : Bytes) (z e : ℕ)
    → ys ++ (zs ++ []) ≡ ws ++ zs
    → xs ++ (z ∷ e ∷ (ys ++ (zs ++ []))) ≡ (xs ++ (z ∷ e ∷ ws)) ++ zs
regroup xs ys zs ws z e h = ap (λ t. xs ++ (z ∷ e ∷ t)) h ∙ sym (append_assoc xs (z ∷ e ∷ ws) zs)

two_bytes :
    (table : List ℕ) (last hi lo : ℕ) (zs : Bytes)
    → escaped_byte table last hi ++ (escaped_byte table (sent_byte table last hi) lo ++ zs)
      ≡ escaped table last (hi ∷ lo ∷ []) ++ zs
unfolding escaped
two_bytes table last hi lo zs =
    rw (append-nil (escaped_byte table (sent_byte table last hi) lo))
      (sym (append_assoc (escaped_byte table last hi) _ zs))

-- A sent subpacket is on the wire, whole, when the call returns: the data, the end marker and the
-- CRC, and an XON behind ZCRCW.
pub send_subpacket-Sends :
    (use_crc32 : Bool) (bytes : Bytes) (end_type : ℕ) (tw : Writer)
    → IsHealthy tw.w
    → Sends (send_subpacket use_crc32 bytes end_type) tw (
        subpacket_wire tw.table tw.last_sent use_crc32 bytes end_type ++ xon_of (end_type == zcrcw))
unfolding send_subpacket
send_subpacket-Sends true bytes end_type tw healthy =
    let crc = le32_bytes (sum32 bytes end_type) in
    let a = write_escaped-Writes bytes tw healthy in
    let b = write_byte-Writes zdle a.after a.healthy in
    let c = write_byte-Writes end_type b.after b.healthy in
    let d = write_escaped-Writes crc c.after c.healthy in
    let e = xon_behind-Writes end_type d.after d.healthy in
    let sent =
      Sends->> a
        (Sends->> b (Sends->> c (Sends->> d (Sends->> e.1 (flush-Sends e.1.after e.1.healthy))))) in
    subst (Sends (send_subpacket true bytes end_type) tw)
      (regroup (escaped tw.table tw.last_sent bytes) (escaped c.after.table c.after.last_sent crc)
        (xon_of (end_type == zcrcw)) (escaped tw.table end_type crc) zdle end_type
        (rw (
          c.same_table,
          b.same_table,
          a.same_table,
          c.last_sent,
          append-nil (xon_of (end_type == zcrcw)),
        )))
      sent
send_subpacket-Sends false bytes end_type tw healthy =
    let crc = sum16 bytes end_type in
    let a = write_escaped-Writes bytes tw healthy in
    let b = write_byte-Writes zdle a.after a.healthy in
    let c = write_byte-Writes end_type b.after b.healthy in
    let d = write_escaped_byte-Writes (crc / 2 ^ 8 % 2 ^ 8) c.after c.healthy in
    let e = write_escaped_byte-Writes (crc % 2 ^ 8) d.after d.healthy in
    let f = xon_behind-Writes end_type e.after e.healthy in
    let sent = Sends->> a (
      Sends->> b (
        Sends->> c (Sends->> d (Sends->> e (Sends->> f.1 (flush-Sends f.1.after f.1.healthy)))))) in
    subst (Sends (send_subpacket false bytes end_type) tw)
      (ap (λ t. escaped tw.table tw.last_sent bytes ++ (zdle ∷ end_type ∷ t))
          (rw
            (
              d.same_table,
              d.last_sent,
              c.same_table,
              b.same_table,
              a.same_table,
              c.last_sent,
              append-nil (xon_of (end_type == zcrcw)),
            )
            (two_bytes tw.table end_type (crc / 2 ^ 8 % 2 ^ 8) (crc % 2 ^ 8)
              (xon_of (end_type == zcrcw))))
        ∙ sym (
            append_assoc (escaped tw.table tw.last_sent bytes)
              (zdle ∷ end_type ∷ escaped tw.table end_type (crc16_bytes crc))
              (xon_of (end_type == zcrcw))))
      sent
