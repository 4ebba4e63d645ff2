-- ===== src/Frame/Shrinks.antt =====
-- `frame.go`: reading a header never puts anything back into the input.
use go_zmodem.Prelude.{
  ℕ, zero, suc, Bool, true, false, not, ◌&&◌, [], ◌∷◌, ◌++◌, Bytes, bit_and, ◌==◌, get_or,
  if◌then◌else◌,
}
use go_zmodem.Monad.{
  M, pure, fail, attempt, wrap, ◌>>=◌, ◌>>◌, Context, hex_header_read, bin_header_read,
  bin_header_crc_read, bin32_header_crc_read, header_crc, expected_cr, expected_lf,
  unexpected_frame_end, unsupported_enc,
}
use go_zmodem.Constants.{zhex, zbin, zbin32, xon}
use go_zmodem.Crc.{crc16_verify, crc32_verify}
use go_zmodem.Bufio.Input
use go_zmodem.Reader.{Reader, read_byte, read_hex, zdl_read, scan_for_pad, reset_garbage}
use go_zmodem.Reader.Shrinks.{
  Shrinks, bind-Shrinks, if-Shrinks, wrap-Shrinks, attempt-Shrinks, read_byte-Shrinks,
  read_hex-Shrinks, zdl_read-Shrinks, scan_for_pad-Shrinks,
}
use go_zmodem.Frame.{
  Header, xon_follows, collect, header_of, skip_xon_of, skip_xon, hex_header_end, recv_hex_header,
  data_byte, recv_bin_header, recv_encoded, recv_header,
}

collect-Shrinks : (k : ℕ) (m : M Reader ℕ) → Shrinks m → Shrinks (collect k m)
unfolding collect
collect-Shrinks zero m safe n tr h = h
collect-Shrinks (suc k) m safe n tr h =
    let rest : ℕ → M Reader Bytes = λ b. collect k m >>= λ bs. pure (b ∷ bs) in
    bind-Shrinks m rest safe
      (λ b.
        bind-Shrinks (collect k m) (λ bs. pure (b ∷ bs)) (collect-Shrinks k m safe)
          (λ bs n tr h. h))
      n tr h

skip_xon_of-Shrinks : (t : ℕ) (bs : Bytes) → Shrinks (skip_xon_of t bs)
skip_xon_of-Shrinks t [] n tr h = h
skip_xon_of-Shrinks t (b ∷ bs) n tr h =
    if-Shrinks (xon_follows t && bit_and b 0x7f == xon) (attempt read_byte >> pure tt) (pure tt)
      (bind-Shrinks (attempt read_byte) (λ _. pure tt) (attempt-Shrinks read_byte read_byte-Shrinks)
        (λ _ n tr h. h))
      (λ n tr h. h) n tr h

skip_xon-Shrinks : (t : ℕ) → Shrinks (skip_xon t)
unfolding skip_xon
skip_xon-Shrinks t n tr = skip_xon_of-Shrinks t (Input.buffered tr.input) n tr

hex_header_end-Shrinks : (h : Header) → Shrinks (hex_header_end h)
unfolding hex_header_end
hex_header_end-Shrinks h = bind-Shrinks read_byte _ read_byte-Shrinks (λ cr.
    if-Shrinks (not (bit_and cr 0x7f == 0x0d))
      (if bit_and cr 0x7f == 0x0a then pure h else fail (expected_cr cr)) _
      (if-Shrinks (bit_and cr 0x7f == 0x0a) (pure h) (fail (expected_cr cr)) (λ n tr p. p)
        (λ n tr p. p))
      (bind-Shrinks read_byte _ read_byte-Shrinks (λ lf.
        if-Shrinks (not (bit_and lf 0x7f == 0x0a)) (fail (expected_lf lf))
          (skip_xon h.frame_type >> pure h) (λ n tr p. p)
          (bind-Shrinks (skip_xon h.frame_type) (λ _. pure h) (skip_xon-Shrinks h.frame_type)
            (λ _ n tr p. p)))))

recv_hex_header-Shrinks : Shrinks recv_hex_header
unfolding recv_hex_header
recv_hex_header-Shrinks =
    bind-Shrinks (wrap hex_header_read (collect 7 read_hex)) _
      (wrap-Shrinks hex_header_read (collect 7 read_hex)
        (collect-Shrinks 7 read_hex read_hex-Shrinks))
      (λ raw.
        if-Shrinks (not (crc16_verify raw)) (fail (header_crc (get_or raw 0 0)))
          (hex_header_end (header_of zhex raw)) (λ n tr h. h)
          (hex_header_end-Shrinks (header_of zhex raw)))

data_byte-Shrinks : (c : Context) → Shrinks (data_byte c)
unfolding data_byte
data_byte-Shrinks c =
    bind-Shrinks (wrap c zdl_read) _ (wrap-Shrinks c zdl_read zdl_read-Shrinks) (λ r.
      if-Shrinks (r.1 == 0) (pure r.0) (fail unexpected_frame_end) (λ n tr h. h) (λ n tr h. h))

recv_bin_header-Shrinks : (use_crc32 : Bool) → Shrinks (recv_bin_header use_crc32)
unfolding recv_bin_header
recv_bin_header-Shrinks true =
    let byte = data_byte bin_header_read in
    let crc_byte = data_byte bin32_header_crc_read in
    bind-Shrinks (collect 5 byte) _ (collect-Shrinks 5 byte (data_byte-Shrinks bin_header_read))
      (λ raw.
        bind-Shrinks (collect 4 crc_byte) _
          (collect-Shrinks 4 crc_byte (data_byte-Shrinks bin32_header_crc_read))
          (λ crc.
            if-Shrinks (not (crc32_verify (raw ++ crc))) (fail (header_crc (get_or raw 0 0)))
              (pure (header_of zbin32 raw)) (λ n tr h. h) (λ n tr h. h)))
recv_bin_header-Shrinks false =
    let byte = data_byte bin_header_read in
    let crc_byte = data_byte bin_header_crc_read in
    bind-Shrinks (collect 5 byte) _ (collect-Shrinks 5 byte (data_byte-Shrinks bin_header_read))
      (λ raw.
        bind-Shrinks (collect 2 crc_byte) _
          (collect-Shrinks 2 crc_byte (data_byte-Shrinks bin_header_crc_read))
          (λ crc.
            if-Shrinks (not (crc16_verify (raw ++ crc))) (fail (header_crc (get_or raw 0 0)))
              (pure (header_of zbin raw)) (λ n tr h. h) (λ n tr h. h)))

recv_encoded-Shrinks : (enc : ℕ) → Shrinks (recv_encoded enc)
recv_encoded-Shrinks enc = if-Shrinks (enc == zhex) recv_hex_header _ recv_hex_header-Shrinks (
    if-Shrinks (enc == zbin) (recv_bin_header false) _ (recv_bin_header-Shrinks false) (
      if-Shrinks (enc == zbin32) (recv_bin_header true) (fail (unsupported_enc enc))
        (recv_bin_header-Shrinks true) (λ n tr h. h)))

pub recv_header-Shrinks : Shrinks recv_header
unfolding recv_header reset_garbage
recv_header-Shrinks =
    bind-Shrinks scan_for_pad _ scan_for_pad-Shrinks
      (λ enc. bind-Shrinks (recv_encoded enc) _ (recv_encoded-Shrinks enc) (λ h n tr p. p))
