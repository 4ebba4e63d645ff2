-- ===== src/Frame.antt =====
-- `frame.go`: headers, and their hexadecimal and binary forms on the wire. `useCRC32` of the
-- session is an argument of the calls that read it.
pub mod Encode
pub mod Scan
pub mod RoundTrip
pub mod HexRoundTrip
pub mod Total
pub mod Shrinks
pub mod Ends
mod Tests
use go_zmodem.Prelude.{
  ℕ, zero, suc, ◌+◌, ◌%◌, ◌^◌, ◌/◌, ◌*◌, bit_and, Bool, true, false, not, ◌&&◌, ◌||◌, List, [], ◌∷◌,
  ◌++◌, Bytes, get_or, replicate, ltb, ◌==◌, if◌then◌else◌,
}
use go_zmodem.Monad.{
  Res, ok, err, M, pure, fail, wrap, attempt, ◌>>=◌, ◌>>◌, Context, hex_header_read,
  bin_header_read, bin_header_crc_read, bin32_header_crc_read, unexpected_frame_end, header_crc,
  expected_cr, expected_lf, unsupported_enc,
}
use go_zmodem.Constants.{zpad, zdle, zbin, zhex, zbin32, xon, zack, zfin}
use go_zmodem.Crc.{
  crc16_calc, crc16_verify, crc32_calc, crc32_verify, crc16_bytes, le32_bytes, le32,
}
use go_zmodem.Writer.{
  Writer, write_raw, write_byte, write_hex, write_escaped, write_escaped_byte, flush,
}
use go_zmodem.Bufio.Input
use go_zmodem.Reader.{Reader, read_byte, read_hex, zdl_read, scan_for_pad, reset_garbage}

-- The array `Data` as its four bytes.
pub record Header : Type 0 where
  pub encoding : ℕ
  pub frame_type : ℕ
  pub data0 : ℕ
  pub data1 : ℕ
  pub data2 : ℕ
  pub data3 : ℕ

unfoldable pub position : Header → ℕ
position h = le32 h.data0 h.data1 h.data2 h.data3

-- The position is cast to `uint32`.
unfoldable pub set_position : ℕ → Header → Header
set_position pos h = record h {
  data0 = pos % 2 ^ 32 % 2 ^ 8;
  data1 = pos % 2 ^ 32 / 2 ^ 8 % 2 ^ 8;
  data2 = pos % 2 ^ 32 / 2 ^ 16 % 2 ^ 8;
  data3 = pos % 2 ^ 32 / 2 ^ 24 % 2 ^ 8;
}

abbrev pub zf0 : Header → ℕ
zf0 h = h.data3

abbrev pub zf1 : Header → ℕ
zf1 h = h.data2

abbrev pub zf2 : Header → ℕ
zf2 h = h.data1

abbrev pub zf3 : Header → ℕ
zf3 h = h.data0

abbrev pub set_zf0 : ℕ → Header → Header
set_zf0 v h = record h { data3 = v }

abbrev pub set_zf1 : ℕ → Header → Header
set_zf1 v h = record h { data2 = v }

abbrev pub set_zf2 : ℕ → Header → Header
set_zf2 v h = record h { data1 = v }

abbrev pub set_zf3 : ℕ → Header → Header
set_zf3 v h = record h { data0 = v }

abbrev pub make_header : ℕ → Header
make_header frame_type = record {
  encoding = 0;
  frame_type = frame_type;
  data0 = 0;
  data1 = 0;
  data2 = 0;
  data3 = 0;
}

unfoldable pub make_pos_header : ℕ → ℕ → Header
unfolding set_position
make_pos_header frame_type pos = set_position pos (make_header frame_type)

-- The five bytes that the CRC covers.
abbrev pub payload : Header → Bytes
payload h = h.frame_type ∷ h.data0 ∷ h.data1 ∷ h.data2 ∷ h.data3 ∷ []

unfoldable pub write_hexes : Bytes → M Writer (Unit {0})
write_hexes [] = pure tt
write_hexes (b ∷ bs) = write_hex b >> write_hexes bs

abbrev pub xon_follows : ℕ → Bool
xon_follows frame_type = not (frame_type == zack) && not (frame_type == zfin)

unfoldable pub send_hex_header : Header → M Writer (Unit {0})
send_hex_header h =
    let crc = crc16_calc (payload h) in
    write_raw (zpad ∷ zpad ∷ zdle ∷ zhex ∷ [])
    >> (write_hexes (payload h)
        >> (write_hex (crc / 2 ^ 8 % 2 ^ 8)
            >> (write_hex (crc % 2 ^ 8)
                >> (write_byte 0x0d
                    >> (write_byte 0x0a
                        >> ((if xon_follows h.frame_type then write_byte xon else pure tt)
                            >> flush))))))

unfoldable pub send_bin_header : Bool → Header → M Writer (Unit {0})
send_bin_header true h =
    write_raw (zpad ∷ zdle ∷ zbin32 ∷ [])
    >> (write_escaped (payload h) >> (write_escaped (le32_bytes (crc32_calc (payload h))) >> flush))
send_bin_header false h =
    let crc = crc16_calc (payload h) in
    write_raw (zpad ∷ zdle ∷ zbin ∷ [])
    >> (write_escaped (payload h)
        >> (write_escaped_byte (crc / 2 ^ 8 % 2 ^ 8)
            >> (write_escaped_byte (crc % 2 ^ 8) >> flush)))

unfoldable pub send_bin_header_with_znulls : ℕ → Bool → Header → M Writer (Unit {0})
unfolding send_bin_header
send_bin_header_with_znulls znulls use_crc32 h =
    if ltb 0 znulls
    then write_raw (replicate znulls 0) >> send_bin_header use_crc32 h
    else send_bin_header use_crc32 h

-- `for i := range raw { … }`
unfoldable pub collect : ℕ → M Reader ℕ → M Reader Bytes
collect zero m = pure []
collect (suc n) m = do b ← m; bs ← collect n m; pure (b ∷ bs)

abbrev pub header_of : ℕ → Bytes → Header
header_of encoding raw = record {
  encoding = encoding;
  frame_type = get_or raw 0 0;
  data0 = get_or raw 1 0;
  data1 = get_or raw 2 0;
  data2 = get_or raw 3 0;
  data3 = get_or raw 4 0;
}

-- An XON behind the header is taken only if it is already buffered.
abbrev pub skip_xon_of : ℕ → Bytes → M Reader (Unit {0})
skip_xon_of frame_type [] = pure tt
skip_xon_of frame_type (b ∷ bs) =
    if xon_follows frame_type && bit_and b 0x7f == xon
    then attempt read_byte >> pure tt
    else pure tt

unfoldable pub skip_xon : ℕ → M Reader (Unit {0})
skip_xon frame_type tr = skip_xon_of frame_type (Input.buffered tr.input) tr

-- The line end behind a header in hexadecimal.
unfoldable pub hex_header_end : Header → M Reader Header
hex_header_end h = do
  cr ← read_byte
  if not (bit_and cr 0x7f == 0x0d)
      then (if bit_and cr 0x7f == 0x0a then pure h else fail (expected_cr cr))
      else do
        lf ← read_byte
        if not (bit_and lf 0x7f == 0x0a)
            then fail (expected_lf lf)
            else skip_xon h.frame_type >> pure h

unfoldable pub recv_hex_header : M Reader Header
recv_hex_header = do
  raw ← wrap hex_header_read (collect 7 read_hex)
  if not (crc16_verify raw)
      then fail (header_crc (get_or raw 0 0))
      else hex_header_end (header_of zhex raw)

-- One decoded byte; a subpacket end is an error here.
unfoldable pub data_byte : Context → M Reader ℕ
data_byte c = do r ← wrap c zdl_read; if r.1 == 0 then pure r.0 else fail unexpected_frame_end

unfoldable pub recv_bin_header : Bool → M Reader Header
recv_bin_header true = do
  raw ← collect 5 (data_byte bin_header_read)
  crc ← collect 4 (data_byte bin32_header_crc_read)
  if not (crc32_verify (raw ++ crc))
      then fail (header_crc (get_or raw 0 0))
      else pure (header_of zbin32 raw)
recv_bin_header false = do
  raw ← collect 5 (data_byte bin_header_read)
  crc ← collect 2 (data_byte bin_header_crc_read)
  if not (crc16_verify (raw ++ crc))
      then fail (header_crc (get_or raw 0 0))
      else pure (header_of zbin raw)

abbrev pub recv_encoded : ℕ → M Reader Header
recv_encoded enc =
    if enc == zhex
    then recv_hex_header
    else if enc == zbin
    then recv_bin_header false
    else if enc == zbin32
    then recv_bin_header true
    else fail (unsupported_enc enc)

unfoldable pub recv_header : M Reader Header
recv_header = do enc ← scan_for_pad; h ← recv_encoded enc; reset_garbage >> pure h
