-- ===== src/Frame/Total.antt =====
-- `recvHeader` with its loops and their fuel.
use go_zmodem.Prelude.{
  refl, arith, ℕ, zero, suc, ◌<◌, Bool, true, false, not, List, [], ◌∷◌, ◌++◌, Bytes, get_or,
  length, ◌&&◌, bit_and, ◌==◌, if◌then◌else◌,
}
use go_zmodem.Monad.{
  Res, ok, err, M, pure, fail, wrap, attempt, ◌>>=◌, Context, ◌>>◌, header_crc, hex_header_read,
  bin_header_read, bin_header_crc_read, bin32_header_crc_read, unsupported_enc, expected_cr,
  expected_lf, unexpected_frame_end,
}
use go_zmodem.Crc.{crc16_verify, crc32_verify}
use go_zmodem.Constants.{zbin, zbin32, zhex, xon}
use go_zmodem.Reader.{Reader, zdl_read, read_byte, read_hex, scan_for_pad, reset_garbage}
use go_zmodem.Reader.Total.{Below, Goes, Below->>=, Below-if, zdl_read-Below}
use go_zmodem.Bufio.Input
use go_zmodem.Bufio.Input.{Item, byte, gap, fault}
use go_zmodem.Reader.ScanTotal.{read_byte-Goes, scan_for_pad-Below, read_hex-Goes}
use go_zmodem.Frame.{
  skip_xon_of, skip_xon, xon_follows, hex_header_end, recv_hex_header, recv_encoded, recv_header,
  collect, data_byte, Header, header_of, recv_bin_header,
}

pub wrap-Below :
    {A : Type 0} (n : ℕ) (c : Context) (x : Res Reader A) (s : Reader)
    → Below n x
    → Below n (wrap c (λ _. x) s)
wrap-Below n c (ok a t) s below = below
wrap-Below n c (err e t) s below = below

pub wrapped_read-Below : (c : Context) (tr : Reader) → Below (length tr.input) (wrap c zdl_read tr)
wrapped_read-Below c tr = wrap-Below (length tr.input) c (zdl_read tr) tr (zdl_read-Below tr)

pub data_byte-Below : (c : Context) (n : ℕ) → Goes n (data_byte c)
unfolding data_byte
data_byte-Below c n tr h =
    Below->>= (length tr.input) n (wrap c zdl_read tr) tr _ (wrapped_read-Below c tr) (λ r t below.
      Below-if n (r.1 == 0) (pure r.0) (fail unexpected_frame_end) t (omega arith) refl)

pub collect-Below : (n : ℕ) (m : M Reader ℕ) → Goes n m → (k : ℕ) → Goes n (collect k m)
unfolding collect
collect-Below n m goes zero tr h = h
collect-Below n m goes (suc k) tr h = Below->>= n n (m tr) tr _ (goes tr h) (λ b t below.
    Below->>= n n (collect k m t) t _ (collect-Below n m goes k t below) (λ bs u low. low))

verified-Below :
    (n : ℕ) (verified : Bool) (enc : ℕ) (raw : Bytes)
    → Goes n (
        if not verified
        then fail (header_crc (get_or raw 0 0))
        else pure {S = Reader} (header_of enc raw))
verified-Below n verified enc raw t below =
    Below-if n (not verified) (fail (header_crc (get_or raw 0 0))) (pure (header_of enc raw)) t refl
      below

pub recv_bin_header-Below : (use_crc32 : Bool) (n : ℕ) → Goes n (recv_bin_header use_crc32)
unfolding recv_bin_header
recv_bin_header-Below true n tr h =
    let m = data_byte bin_header_read in
    let m' = data_byte bin32_header_crc_read in
    Below->>= n n (collect 5 m tr) tr _
      (collect-Below n m (data_byte-Below bin_header_read n) 5 tr h)
      (λ raw t below.
        Below->>= n n (collect 4 m' t) t _
          (collect-Below n m' (data_byte-Below bin32_header_crc_read n) 4 t below)
          (λ crc u low. verified-Below n (crc32_verify (raw ++ crc)) zbin32 raw u low))
recv_bin_header-Below false n tr h =
    let m = data_byte bin_header_read in
    let m' = data_byte bin_header_crc_read in
    Below->>= n n (collect 5 m tr) tr _
      (collect-Below n m (data_byte-Below bin_header_read n) 5 tr h)
      (λ raw t below.
        Below->>= n n (collect 2 m' t) t _
          (collect-Below n m' (data_byte-Below bin_header_crc_read n) 2 t below)
          (λ crc u low. verified-Below n (crc16_verify (raw ++ crc)) zbin raw u low))

-- An XON that is there is read; nothing else is.
skip_xon_of-Below :
    (frame_type n : ℕ) (items : List Item) (tr : Reader)
    → length items < n
    → Below n (skip_xon_of frame_type (Input.buffered items) (record tr { input = items }))
unfolding Input.buffered Input.read_byte read_byte
skip_xon_of-Below frame_type n [] tr h = h
skip_xon_of-Below frame_type n (byte b ∷ items) tr h =
    Below-if n (xon_follows frame_type && bit_and b 0x7f == xon) (attempt read_byte >> pure tt)
      (pure tt) (record tr { input = byte b ∷ items }) (omega arith) h
skip_xon_of-Below frame_type n (gap ∷ items) tr h = h
skip_xon_of-Below frame_type n (fault e ∷ items) tr h = h

skip_xon-Goes : (frame_type n : ℕ) → Goes n (skip_xon frame_type)
unfolding skip_xon
skip_xon-Goes frame_type n tr h = skip_xon_of-Below frame_type n tr.input tr h

hex_header_end-Goes : (h : Header) (n : ℕ) → Goes n (hex_header_end h)
unfolding hex_header_end
hex_header_end-Goes h n tr low =
    Below->>= n n (read_byte tr) tr _ (read_byte-Goes n tr low) (λ cr t below.
      let line_feed : ℕ → M Reader Header = λ lf.
        if not (bit_and lf 0x7f == 0x0a)
        then fail (expected_lf lf)
        else skip_xon h.frame_type >> pure h in
      let end : M Reader Header = read_byte >>= line_feed in
      Below-if n (not (bit_and cr 0x7f == 0x0d))
        (if bit_and cr 0x7f == 0x0a then pure h else fail (expected_cr cr)) end t
        (Below-if n (bit_and cr 0x7f == 0x0a) (pure h) (fail (expected_cr cr)) t below refl)
        (Below->>= n n (read_byte t) t _ (read_byte-Goes n t below) (λ lf u below'.
          Below-if n (not (bit_and lf 0x7f == 0x0a)) (fail (expected_lf lf))
            (skip_xon h.frame_type >> pure h) u refl
            (Below->>= n n (skip_xon h.frame_type u) u (λ _. pure h)
              (skip_xon-Goes h.frame_type n u below') (λ _ v last. last)))))

recv_hex_header-Goes : (n : ℕ) → Goes n recv_hex_header
unfolding recv_hex_header
recv_hex_header-Goes n tr h =
    Below->>= n n (wrap hex_header_read (collect 7 read_hex) tr) tr _
      (wrap-Below n hex_header_read (collect 7 read_hex tr) tr
        (collect-Below n read_hex (read_hex-Goes n) 7 tr h))
      (λ raw t below.
        Below-if n (not (crc16_verify raw)) (fail (header_crc (get_or raw 0 0)))
          (hex_header_end (header_of zhex raw)) t refl
          (hex_header_end-Goes (header_of zhex raw) n t below))

recv_encoded-Goes : (enc n : ℕ) → Goes n (recv_encoded enc)
recv_encoded-Goes enc n tr h =
    let other : M Reader Header = fail (unsupported_enc enc) in
    let bin32 = if enc == zbin32 then recv_bin_header true else other in
    let bin = if enc == zbin then recv_bin_header false else bin32 in
    Below-if n (enc == zhex) recv_hex_header bin tr (recv_hex_header-Goes n tr h) (
      Below-if n (enc == zbin) (recv_bin_header false) bin32 tr (recv_bin_header-Below false n tr h)
        (Below-if n (enc == zbin32) (recv_bin_header true) other tr
          (recv_bin_header-Below true n tr h) refl))

-- recvHeader returns on every input, with a header behind at least one item that it consumed, or
-- with an error of the program: no loop of it runs out of fuel.
pub recv_header-Below : (tr : Reader) → Below (length tr.input) (recv_header tr)
unfolding recv_header reset_garbage
recv_header-Below tr =
    let n = length tr.input in
    Below->>= n n (scan_for_pad tr) tr _ (scan_for_pad-Below tr) (λ enc t below.
      Below->>= n n (recv_encoded enc t) t _ (recv_encoded-Goes enc n t below) (λ h u low. low))
