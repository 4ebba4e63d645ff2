-- ===== src/Subpacket/Total.antt =====
-- The loop of `recvSubpacket` and its fuel.
use go_zmodem.Prelude.{
  refl, arith, ℕ, zero, suc, ◌+◌, ◌*◌, ◌^◌, ◌<◌, Bool, true, false, not, [], ◌∷◌, ◌++◌, Bytes,
  get_or, length, leb, ◌==◌, if◌then◌else◌,
}
use go_zmodem.Monad.{
  pure, fail, wrap, subpacket_read, subpacket_crc_read, subpacket_crc32_read, subpacket_crc,
  exceeds_max_length,
}
use go_zmodem.Crc.{le32}
use go_zmodem.Reader.{Reader, zdl_read}
use go_zmodem.Reader.Total.{Below, Goes, Below->>=, Below-if, Below-mono}
use go_zmodem.Frame.{collect, data_byte}
use go_zmodem.Frame.Total.{wrapped_read-Below, data_byte-Below, collect-Below}
use go_zmodem.Subpacket.{recv_crc, recv_loop, recv_subpacket, sum16, sum32}

verdict-Below :
    (n crc received e : ℕ) (bytes : Bytes)
    → Goes {A = Bytes × ℕ} n
        (if not (crc == received) then fail (subpacket_crc crc received) else pure (bytes, e))
verdict-Below n crc received e bytes t below =
    Below-if n (not (crc == received)) (fail (subpacket_crc crc received)) (pure (bytes, e)) t refl
      below

recv_crc-Below : (use_crc32 : Bool) (bytes : Bytes) (e n : ℕ) → Goes n (recv_crc use_crc32 bytes e)
unfolding recv_crc
recv_crc-Below true bytes e n tr h =
    Below->>= n n (collect 4 (data_byte subpacket_crc32_read) tr) tr _
      (collect-Below n (data_byte subpacket_crc32_read) (data_byte-Below subpacket_crc32_read n) 4
        tr h)
      (λ buf t below.
        verdict-Below n (sum32 bytes e)
          (le32 (get_or buf 0 0) (get_or buf 1 0) (get_or buf 2 0) (get_or buf 3 0)) e bytes t
          below)
recv_crc-Below false bytes e n tr h =
    Below->>= n n (collect 2 (data_byte subpacket_crc_read) tr) tr _
      (collect-Below n (data_byte subpacket_crc_read) (data_byte-Below subpacket_crc_read n) 2 tr h)
      (λ buf t below.
        verdict-Below n (sum16 bytes e) (get_or buf 0 0 * 2 ^ 8 + get_or buf 1 0) e bytes t below)

recv_loop-Below :
    (fuel : ℕ) (use_crc32 : Bool) (max_len : ℕ) (bytes : Bytes) (tr : Reader)
    → length tr.input < fuel
    → Below (length tr.input) (recv_loop fuel use_crc32 max_len bytes tr)
unfolding recv_loop
recv_loop-Below zero use_crc32 max_len bytes tr enough = absurd (omega arith)
recv_loop-Below (suc fuel) use_crc32 max_len bytes tr enough =
    let n = length tr.input in
    Below->>= n n (wrap subpacket_read zdl_read tr) tr _ (wrapped_read-Below subpacket_read tr)
      (λ r t below.
        let again = recv_loop fuel use_crc32 max_len (bytes ++ r.0 ∷ []) in
        Below-if n (not (r.1 == 0)) (recv_crc use_crc32 bytes r.1) _ t
          (recv_crc-Below use_crc32 bytes r.1 n t below)
          (Below-if n (leb max_len (length bytes)) (fail (exceeds_max_length max_len)) again t refl
            (Below-mono (length t.input) n (again t) (omega arith)
              (recv_loop-Below fuel use_crc32 max_len (bytes ++ r.0 ∷ []) t (omega arith)))))

-- recvSubpacket returns on every input, with a subpacket behind at least one item that it
-- consumed, or with an error of the program: its loop never runs out of fuel.
pub recv_subpacket-Below :
    (use_crc32 : Bool) (max_len : ℕ) (tr : Reader)
    → Below (length tr.input) (recv_subpacket use_crc32 max_len tr)
unfolding recv_subpacket
recv_subpacket-Below use_crc32 max_len tr =
    recv_loop-Below (suc (length tr.input)) use_crc32 max_len [] tr (omega arith)
