-- ===== src/Subpacket.antt =====
-- `subpacket.go`: data subpackets, and the detector of merged ones. `useCRC32` of the session is
-- an argument of the calls that read it.
pub mod Encode
pub mod RoundTrip
pub mod Merge
pub mod Total
pub mod Ends
pub mod Streamed
mod Tests
use go_zmodem.Prelude.{
  ℕ, zero, suc, ◌+◌, ◌*◌, ◌/◌, ◌%◌, ◌^◌, Bool, true, false, not, ◌&&◌, ◌||◌, Option, none, some,
  List, [], ◌∷◌, ◌++◌, Bytes, get_or, length, ltb, leb, ◌==◌, if◌then◌else◌,
}
use go_zmodem.Monad.{
  Res, ok, err, M, pure, fail, wrap, ◌>>=◌, ◌>>◌, Context, subpacket_read, subpacket_crc_read,
  subpacket_crc32_read, subpacket_crc, exceeds_max_length, out_of_fuel,
}
use go_zmodem.Constants.{zdle, zcrce, zcrcw, xon}
use go_zmodem.Crc.{crc16_update, crc16_finalize, crc32_update, crc16_bytes, le32_bytes, le32}
use go_zmodem.Writer.{Writer, write_byte, write_escaped, write_escaped_byte, flush}
use go_zmodem.Reader.{Reader, zdl_read}
use go_zmodem.Frame.{collect, data_byte}

-- The CRC of the data and the end type, in either mode.
unfoldable pub sum16 : Bytes → ℕ → ℕ
sum16 bytes end_type = crc16_finalize (crc16_update (crc16_update 0 bytes) (end_type ∷ []))

unfoldable pub sum32 : Bytes → ℕ → ℕ
sum32 bytes end_type = crc32_update (crc32_update 0 bytes) (end_type ∷ [])

abbrev pub xon_behind : ℕ → M Writer (Unit {0})
xon_behind end_type = if end_type == zcrcw then write_byte xon else pure tt

unfoldable pub send_subpacket : Bool → Bytes → ℕ → M Writer (Unit {0})
send_subpacket true bytes end_type =
    write_escaped bytes
    >> (write_byte zdle
        >> (write_byte end_type
            >> (write_escaped (le32_bytes (sum32 bytes end_type))
                >> (xon_behind end_type >> flush))))
send_subpacket false bytes end_type =
    let crc = sum16 bytes end_type in
    write_escaped bytes
    >> (write_byte zdle
        >> (write_byte end_type
            >> (write_escaped_byte (crc / 2 ^ 8 % 2 ^ 8)
                >> (write_escaped_byte (crc % 2 ^ 8) >> (xon_behind end_type >> flush)))))

-- Behind the end marker: the CRC is read and compared.
unfoldable pub recv_crc : Bool → Bytes → ℕ → M Reader (Bytes × ℕ)
recv_crc true bytes frame_end = do
  buf ← collect 4 (data_byte subpacket_crc32_read)
  let crc = sum32 bytes frame_end
  let received = le32 (get_or buf 0 0) (get_or buf 1 0) (get_or buf 2 0) (get_or buf 3 0)
  if not (crc == received) then fail (subpacket_crc crc received) else pure (bytes, frame_end)
recv_crc false bytes frame_end = do
  buf ← collect 2 (data_byte subpacket_crc_read)
  let crc = sum16 bytes frame_end
  let received = get_or buf 0 0 * 2 ^ 8 + get_or buf 1 0
  if not (crc == received) then fail (subpacket_crc crc received) else pure (bytes, frame_end)

-- The loop over the data bytes. Each round reads a byte, so the input's length bounds the rounds.
unfoldable pub recv_loop : ℕ → Bool → ℕ → Bytes → M Reader (Bytes × ℕ)
recv_loop zero use_crc32 max_len bytes = fail out_of_fuel
recv_loop (suc fuel) use_crc32 max_len bytes = do
  r ← wrap subpacket_read zdl_read
  let again = recv_loop fuel use_crc32 max_len (bytes ++ r.0 ∷ [])
  if not (r.1 == 0)
      then recv_crc use_crc32 bytes r.1
      else if leb max_len (length bytes)
      then fail (exceeds_max_length max_len)
      else again

unfoldable pub recv_subpacket : Bool → ℕ → M Reader (Bytes × ℕ)
recv_subpacket use_crc32 max_len tr = recv_loop (suc (length tr.input)) use_crc32 max_len [] tr

-- The test at one index: an end marker whose CRC over the data before it matches.
unfoldable pub embedded_at : ℕ → ℕ → ℕ → ℕ → Bool
embedded_at running c hi lo =
    not (ltb c zcrce || ltb zcrcw c)
    && crc16_finalize (crc16_update running (c ∷ [])) == hi * 2 ^ 8 + lo

-- The loop at index `i`, with the data from `i - 1` on; `none` is -1.
unfoldable pub detect_loop : ℕ → ℕ → Bytes → Option ℕ
detect_loop running i (p ∷ (c ∷ (hi ∷ (lo ∷ rest)))) =
    let running' = crc16_update running (p ∷ []) in
    if embedded_at running' c hi lo
    then some i
    else detect_loop running' (i + 1) (c ∷ hi ∷ lo ∷ rest)
detect_loop running i _ = none

unfoldable pub detect_merged_subpacket : Bytes → Option ℕ
detect_merged_subpacket bytes = if ltb (length bytes) 4 then none else detect_loop 0 1 bytes
