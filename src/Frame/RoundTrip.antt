-- ===== src/Frame/RoundTrip.antt =====
-- `sendBinHeader` and `recvHeader` against each other.
use mathlib.Core.Path.{subst}
use go_zmodem.Prelude.{
  ◌≡◌, refl, sym, ap, arith, ℕ, suc, ◌≤◌, Bool, true, false, List, [], ◌∷◌, ◌++◌, append_assoc,
  append-nil, Bytes, IsBytes, length,
}
use go_zmodem.Monad.{
  Res, ok, wrap, Context, ◌>>=◌, bin_header_read, bin_header_crc_read, bin32_header_crc_read,
}
use go_zmodem.Constants.{zpad, zdle, zbin, zbin32, EscapeMode}
use go_zmodem.Crc.{crc16_calc, crc32_calc, crc16_bytes, le32_bytes}
use go_zmodem.Crc.Residue16.{crc16_verify-append}
use go_zmodem.Crc.Residue32.{crc32_verify-append}
use go_zmodem.Escape.{build_escape_table}
use go_zmodem.Bufio.Input.{Item}
use go_zmodem.Writer.Encode.{escaped_byte, sent_byte, sent_after, escaped, escaped-append}
use go_zmodem.Reader.{Reader, reset_garbage}
use go_zmodem.Reader.Decode.{
  Carries, Carries-nil, decoded, Compatible, Decodes, zdl_read-escaped_byte,
}
use go_zmodem.Frame.{Header, payload, collect, data_byte, recv_bin_header, recv_header}
use go_zmodem.Frame.Encode.{with_crc, encoding_of}
use go_zmodem.Frame.Scan.{IsNoise, scanned, scan_for_pad-Finds}

-- The header has bytes in its fields.
abbrev pub IsHeader : Header → Type 0
IsHeader h = IsBytes (payload h)

data_byte-Decodes :
    (ctx : Context) (tr : Reader) {b : ℕ} {bs : Bytes} {rest : List Item}
    (d : Decodes tr (b, 0) bs rest)
    → data_byte ctx tr ≡ ok b (decoded tr d.left)
unfolding data_byte
data_byte-Decodes ctx tr d = rw (d.returns, ◌>>=◌, wrap)

-- The call returns `bs`, and the items that it leaves carry `more`.
pub record Collects (r : Res Reader Bytes) (tr : Reader) (bs more : Bytes) (rest : List Item)
    : Type 0 where
  pub left : List Item
  pub returns : r ≡ ok bs (decoded tr left)
  pub carries : Carries tr.strip_xon_xoff rest more left

module _ (mode : EscapeMode) (ctx : Context) {rest : List Item} where
  pub collect-Collects :
      (bs more : Bytes) (last : ℕ) (tr : Reader)
      → tr.can_count ≡ 0
      → Compatible tr mode
      → IsBytes bs
      → Carries tr.strip_xon_xoff rest (escaped (build_escape_table mode) last bs ++ more) tr.input
      → Collects (collect (length bs) (data_byte ctx) tr) tr bs more rest
  unfolding escaped
  collect-Collects [] more last tr zero_can fits h c = record {
    left = tr.input;
    returns = unfold collect in ap (λ n. ok [] (record tr { can_count = n })) zero_can;
    carries = c;
  }
  collect-Collects (b ∷ bs) more last tr zero_can fits (hb, hbs) c =
      let table = build_escape_table mode in
      let tail = escaped table (sent_byte table last b) bs in
      let d =
        zdl_read-escaped_byte mode tr (omega (arith, zero_can)) fits last b hb
          (rw (append_assoc (escaped_byte table last b) tail more) at c) in
      let x =
        collect-Collects bs more (sent_byte table last b) (decoded tr d.left) refl fits hbs
          d.carries in
      record {
        left = x.left;
        returns = collect_step (length bs) tr b bs (data_byte-Decodes ctx tr d) x.returns;
        carries = x.carries;
      }
    where
      collect_step :
          (n : ℕ) (tr : Reader) (b : ℕ) (bs : Bytes) {s t : Reader}
          → data_byte ctx tr ≡ ok b s
          → collect n (data_byte ctx) s ≡ ok bs t
          → collect (suc n) (data_byte ctx) tr ≡ ok (b ∷ bs) t
      collect_step n tr b bs e f = unfold collect in rw (e, ◌>>=◌) (rw (f, ◌>>=◌) refl)

-- The CRC is made of bytes.
with_crc-IsBytes : (use_crc32 : Bool) (h : Header) → IsHeader h → IsBytes (with_crc use_crc32 h)
with_crc-IsBytes true h b = omega arith
with_crc-IsBytes false h b = omega arith

module _ (mode : EscapeMode) (h : Header) (bytes : IsHeader h) {rest : List Item} where
  recv_bin_header_lem :
      (use_crc32 : Bool) (tr : Reader)
      → tr.can_count ≡ 0
      → Compatible tr mode
      → Carries tr.strip_xon_xoff rest
          (escaped (build_escape_table mode) (encoding_of use_crc32) (with_crc use_crc32 h))
          tr.input
      → recv_bin_header use_crc32 tr
        ≡ ok (record h { encoding = encoding_of use_crc32 }) (decoded tr rest)
  unfolding recv_bin_header
  recv_bin_header_lem true tr zero_can fits c =
      let table = build_escape_table mode in
      let crc = le32_bytes (crc32_calc (payload h)) in
      let last = sent_after table zbin32 (payload h) in
      let whole = rw (escaped-append table zbin32 (payload h) crc) at c in
      let x =
        collect-Collects mode bin_header_read (payload h) (escaped table last crc) zbin32 tr
          zero_can fits bytes whole in
      let y =
        collect-Collects mode bin32_header_crc_read crc [] last (decoded tr x.left) refl fits
          (omega arith) (rw (← append-nil (escaped table last crc)) at x.carries) in
      rw (x.returns, ◌>>=◌)
        (rw (y.returns, ◌>>=◌)
          (rw (crc32_verify-append (payload h) bytes, Carries-nil y.carries) refl))
  recv_bin_header_lem false tr zero_can fits c =
      let table = build_escape_table mode in
      let crc = crc16_bytes (crc16_calc (payload h)) in
      let last = sent_after table zbin (payload h) in
      let whole = rw (escaped-append table zbin (payload h) crc) at c in
      let x =
        collect-Collects mode bin_header_read (payload h) (escaped table last crc) zbin tr zero_can
          fits bytes whole in
      let y =
        collect-Collects mode bin_header_crc_read crc [] last (decoded tr x.left) refl fits
          (omega arith) (rw (← append-nil (escaped table last crc)) at x.carries) in
      rw (x.returns, ◌>>=◌)
        (rw (y.returns, ◌>>=◌) (rw (crc16_verify-append (payload h), Carries-nil y.carries) refl))

-- A binary header, sent in either CRC mode and under any escape mode that the reader is compatible
-- with, is received with the fields that it had. Noise without a ZPAD and without a CAN in front of
-- it is skipped, up to `garbage_max` bytes (a stray ZPAD can cost the header); the bytes may arrive in any pieces, and with flow control characters among
-- them behind the prefix if the reader strips those. Both counters are 0 afterwards.
pub recv_header_bin :
    (mode : EscapeMode) (use_crc32 : Bool) (h : Header) (noise : Bytes) (tr : Reader)
    {mid rest : List Item}
    → IsHeader h
    → Compatible tr mode
    → IsNoise noise
    → length noise ≤ tr.garbage_max
    → Carries false mid (noise ++ (zpad ∷ zdle ∷ encoding_of use_crc32 ∷ [])) tr.input
    → Carries tr.strip_xon_xoff rest
        (escaped (build_escape_table mode) (encoding_of use_crc32) (with_crc use_crc32 h))
        mid
    → recv_header tr ≡ ok (record h { encoding = encoding_of use_crc32 }) (scanned tr rest)
unfolding recv_header reset_garbage
recv_header_bin mode true h noise tr {mid} bytes fits n room start c =
    let found = scan_for_pad-Finds refl noise false tr n room start in
    let body = subst (Carries tr.strip_xon_xoff _ _) (sym (Carries-nil found.carries)) c in
    rw (found.returns, ◌>>=◌)
      (rw (recv_bin_header_lem mode h bytes true (scanned tr found.left) refl fits body, ◌>>=◌)
        refl)
recv_header_bin mode false h noise tr {mid} bytes fits n room start c =
    let found = scan_for_pad-Finds refl noise false tr n room start in
    let body = subst (Carries tr.strip_xon_xoff _ _) (sym (Carries-nil found.carries)) c in
    rw (found.returns, ◌>>=◌)
      (rw (recv_bin_header_lem mode h bytes false (scanned tr found.left) refl fits body, ◌>>=◌)
        refl)
