-- ===== src/Subpacket/RoundTrip.antt =====
-- `sendSubpacket` and `recvSubpacket` against each other.
use go_zmodem.Prelude.{
  ◌≡◌, ◌≢◌, refl, sym, ap, ◌∙◌, arith, ℕ, zero, suc, ◌+◌, ◌*◌, ◌/◌, ◌%◌, ◌^◌, ◌≤◌, ◌<◌, Bool, true,
  false, List, [], ◌∷◌, ◌++◌, append_assoc, append-nil, Bytes, IsBytes, length, length-append,
  ==_iff, ==_ne, ◌==◌, leb_gt,
}
use go_zmodem.Monad.{ok, wrap, ◌>>=◌, subpacket_crc_read, subpacket_crc32_read}
use go_zmodem.Constants.{zdle, EscapeMode}
use go_zmodem.Crc.{crc16_bytes, le32_bytes, le32, crc32_update}
use go_zmodem.Crc.Residue16.{crc16_finalize-lt}
use go_zmodem.Crc.Residue32.{crc32_update-lt}
use go_zmodem.Escape.{build_escape_table}
use go_zmodem.Bufio.Input.{Item}
use go_zmodem.Writer.Encode.{escaped_byte, sent_byte, escaped}
use go_zmodem.Reader.{Reader, zdl_read, is_end_marker}
use go_zmodem.Reader.Decode.{
  Carries, Carries-nil, length-Carries, decoded, Compatible, zdl_read-escaped_byte, zdl_read_marker,
}
use go_zmodem.Frame.RoundTrip.{collect-Collects}
use go_zmodem.Subpacket.{sum16, sum32, recv_crc, recv_loop, recv_subpacket}
use go_zmodem.Subpacket.Encode.{crc_of, subpacket_wire}

sum16-lt : (bytes : Bytes) (e : ℕ) → sum16 bytes e < 2 ^ 16
unfolding sum16
sum16-lt bytes e = crc16_finalize-lt _

sum32-lt : (bytes : Bytes) (e : ℕ) → IsBytes bytes → e < 256 → sum32 bytes e < 2 ^ 32
unfolding sum32
sum32-lt bytes e h k =
    crc32_update-lt (e ∷ []) (crc32_update 0 bytes) (crc32_update-lt bytes 0 (omega arith) h)
      (omega arith)

eqb_refl : (a : ℕ) → (a == a) ≡ true
eqb_refl a = (==_iff a a).1 refl

module _ (mode : EscapeMode) {rest : List Item} where
  recv_crc_lem :
      (use_crc32 : Bool) (bytes : Bytes) (e last : ℕ) (tr : Reader)
      → IsBytes bytes
      → e < 256
      → tr.can_count ≡ 0
      → Compatible tr mode
      → Carries tr.strip_xon_xoff rest
          (escaped (build_escape_table mode) last (crc_of use_crc32 bytes e))
          tr.input
      → recv_crc use_crc32 bytes e tr ≡ ok (bytes, e) (decoded tr rest)
  unfolding recv_crc
  recv_crc_lem true bytes e last tr h k zero_can fits c =
      let crc = sum32 bytes e in
      let x =
        collect-Collects mode subpacket_crc32_read (le32_bytes crc) [] last tr zero_can fits
          (omega arith)
          (rw (← append-nil (escaped (build_escape_table mode) last (le32_bytes crc))) at c) in
      let same : le32 (crc % 2 ^ 8) (crc / 2 ^ 8 % 2 ^ 8) (crc / 2 ^ 16 % 2 ^ 8)
            (crc / 2 ^ 24 % 2 ^ 8)
          ≡ crc =
        omega (arith, sum32-lt bytes e h k) in
      rw (x.returns, ◌>>=◌) (rw (same, eqb_refl crc, Carries-nil x.carries) refl)
  recv_crc_lem false bytes e last tr h k zero_can fits c =
      let crc = sum16 bytes e in
      let x =
        collect-Collects mode subpacket_crc_read (crc16_bytes crc) [] last tr zero_can fits
          (omega arith)
          (rw (← append-nil (escaped (build_escape_table mode) last (crc16_bytes crc))) at c) in
      let same : crc / 2 ^ 8 % 2 ^ 8 * 2 ^ 8 + crc % 2 ^ 8 ≡ crc =
        omega (arith, sum16-lt bytes e) in
      rw (x.returns, ◌>>=◌) (rw (same, eqb_refl crc, Carries-nil x.carries) refl)

recv_loop_byte :
    (fuel : ℕ) (use_crc32 : Bool) (max_len b : ℕ) (bytes : Bytes) (tr : Reader) {left : List Item}
    → length bytes < max_len
    → zdl_read tr ≡ ok (b, 0) (decoded tr left)
    → recv_loop (suc fuel) use_crc32 max_len bytes tr
      ≡ recv_loop fuel use_crc32 max_len (bytes ++ b ∷ []) (decoded tr left)
unfolding recv_loop
recv_loop_byte fuel use_crc32 max_len b bytes tr room e =
    rw (e, ◌>>=◌, wrap) (rw (leb_gt max_len (length bytes) room) refl)

recv_loop_end :
    (fuel : ℕ) (use_crc32 : Bool) (max_len e : ℕ) (bytes : Bytes) (tr : Reader) {left : List Item}
    → e ≢ 0
    → zdl_read tr ≡ ok (0, e) (decoded tr left)
    → recv_loop (suc fuel) use_crc32 max_len bytes tr ≡ recv_crc use_crc32 bytes e (decoded tr left)
unfolding recv_loop
recv_loop_end fuel use_crc32 max_len e bytes tr ne f = rw (f, ◌>>=◌, wrap) (rw (==_ne e 0 ne) refl)

marker_byte : (e : ℕ) → is_end_marker e ≡ true → (e ≢ 0) × (e < 256)
marker_byte e h = ground arith

module _ (mode : EscapeMode) {rest : List Item} (use_crc32 : Bool) (max_len e : ℕ)
    (marker : is_end_marker e ≡ true) where
  recv_loop_lem :
      (bytes before : Bytes) (fuel last : ℕ) (tr : Reader)
      → IsBytes (before ++ bytes)
      → IsBytes bytes
      → length before + length bytes ≤ max_len
      → length bytes < fuel
      → tr.can_count ≡ 0
      → Compatible tr mode
      → Carries tr.strip_xon_xoff rest
          (escaped (build_escape_table mode) last bytes
            ++ (zdle
                ∷ e
                ∷ escaped (build_escape_table mode) e (crc_of use_crc32 (before ++ bytes) e)))
          tr.input
      → recv_loop fuel use_crc32 max_len before tr ≡ ok (before ++ bytes, e) (decoded tr rest)
  unfolding escaped
  recv_loop_lem bytes before zero last tr whole h room lt zero_can fits c = absurd (omega arith)
  recv_loop_lem [] before (suc fuel) last tr whole h room lt zero_can fits c =
      let d = zdl_read_marker tr e (omega (arith, zero_can)) marker c in
      let same = append-nil before in
      recv_loop_end fuel use_crc32 max_len e before tr (marker_byte e marker).0 d.returns
      ∙ recv_crc_lem mode use_crc32 before e e (decoded tr d.left) (rw same at whole)
          (marker_byte e marker).1 refl fits (rw same at d.carries)
      ∙ ap (λ t. ok (t, e) (decoded tr rest)) (sym same)
  recv_loop_lem (b ∷ bytes) before (suc fuel) last tr whole (hb, hbs) room lt zero_can fits c =
      let table = build_escape_table mode in
      let same : (before ++ b ∷ []) ++ bytes ≡ before ++ (b ∷ bytes) =
        append_assoc before (b ∷ []) bytes in
      let tail = escaped table (sent_byte table last b) bytes in
      let d =
        zdl_read-escaped_byte mode tr (omega (arith, zero_can)) fits last b hb
          (rw (append_assoc (escaped_byte table last b) tail _) at c) in
      recv_loop_byte fuel use_crc32 max_len b before tr (omega arith) d.returns
      ∙ recv_loop_lem bytes (before ++ b ∷ []) fuel (sent_byte table last b) (decoded tr d.left)
          (rw (← same) at whole) hbs (omega (arith, length-append before (b ∷ []))) (omega arith)
          refl fits (rw (← same) at d.carries)
      ∙ ap (λ t. ok (t, e) (decoded tr rest)) same

length-escaped_byte : (table : List ℕ) (last b : ℕ) → 1 ≤ length (escaped_byte table last b)
unfolding escaped_byte
length-escaped_byte table last b = ground arith

length-escaped :
    (table : List ℕ) (last : ℕ) (bytes : Bytes) → length bytes ≤ length (escaped table last bytes)
unfolding escaped
length-escaped table last [] = omega arith
length-escaped table last (b ∷ bytes) = omega (
  arith,
  length-append (escaped_byte table last b) (escaped table (sent_byte table last b) bytes),
  length-escaped_byte table last b,
  length-escaped table (sent_byte table last b) bytes,
)

-- A subpacket, sent in either CRC mode and under any escape mode that the reader is compatible
-- with, is received with its data and its end type, if the data fits the limit. The bytes may
-- arrive in any pieces, and with flow control characters among them if the reader strips those;
-- what follows them is left unread.
pub recv_subpacket_lem :
    (mode : EscapeMode) (use_crc32 : Bool) (max_len : ℕ) (bytes : Bytes) (end_type last : ℕ)
    (tr : Reader) {rest : List Item}
    → IsBytes bytes
    → is_end_marker end_type ≡ true
    → length bytes ≤ max_len
    → tr.can_count ≡ 0
    → Compatible tr mode
    → Carries tr.strip_xon_xoff rest
        (subpacket_wire (build_escape_table mode) last use_crc32 bytes end_type)
        tr.input
    → recv_subpacket use_crc32 max_len tr ≡ ok (bytes, end_type) (decoded tr rest)
unfolding recv_subpacket
recv_subpacket_lem mode use_crc32 max_len bytes end_type last tr h marker room zero_can fits c =
    let table = build_escape_table mode in
    let tail = zdle ∷ end_type ∷ escaped table end_type (crc_of use_crc32 bytes end_type) in
    recv_loop_lem mode use_crc32 max_len end_type marker bytes [] (suc (length tr.input)) last tr h
      h (omega arith)
      (omega (
        arith,
        length-Carries c,
        length-escaped table last bytes,
        length-append (escaped table last bytes) tail,
      ))
      zero_can fits c
