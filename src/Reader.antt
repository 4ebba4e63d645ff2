-- ===== src/Reader.antt =====
-- `reader.go`: reading bytes, ZDLE decoding, hex digits and the hunt for a frame start.
-- Deadlines are not part of the state: a Read that times out is a `fault` of the input.
pub mod Decode
pub mod Total
pub mod ScanTotal
pub mod Shrinks
use go_zmodem.Prelude.{
  ℕ, zero, suc, ◌+◌, ◌-◌, ◌*◌, ◌^◌, ◌≤◌, ◌<◌, bit_and, bit_or, bit_xor, Bool, true, false, not,
  ◌&&◌, ◌||◌, Option, none, some, List, [], ◌∷◌, Bytes, length, ltb, leb, ◌==◌, if◌then◌else◌,
}
use go_zmodem.Monad.{
  Res, ok, err, M, pure, fail, zoom, ◌>>=◌, ◌>>◌, eof, read_fault, garbage_overflow, abort_received,
  unsupported_enc, invalid_hex, out_of_fuel,
}
use go_zmodem.Constants.{
  zpad, zdle, zbin, zhex, zbin32, zbinr32, zvbin, zvhex, zvbin32, zvbinr32, zcrce, zcrcg, zcrcq,
  zcrcw, zrub0, zrub1, xon, xoff, can,
}
use go_zmodem.Bufio.Input
use go_zmodem.Bufio.Input.{Item, byte, gap, fault}

pub record Reader : Type 0 where
  pub input : List Item
  pub timeout : ℕ
  pub data_timeout : ℕ
  pub in_data_phase : Bool
  pub garbage_count : ℕ
  pub garbage_max : ℕ
  pub can_count : ℕ
  pub strip_xon_xoff : Bool

unfoldable pub new_transport_reader : List Item → ℕ → ℕ → Bool → Reader
new_transport_reader input garbage_max timeout strip = record {
  input = input;
  timeout = timeout;
  data_timeout = 0;
  in_data_phase = false;
  garbage_count = 0;
  garbage_max = garbage_max;
  can_count = 0;
  strip_xon_xoff = strip;
}

unfoldable pub active_timeout : Reader → ℕ
active_timeout tr =
    if tr.in_data_phase && ltb 0 tr.data_timeout then tr.data_timeout else tr.timeout

unfoldable pub set_data_phase : Bool → Reader → Reader
set_data_phase on tr = record tr { in_data_phase = on }

abbrev pub from_input : {A : Type 0} → M (List Item) A → M Reader A
from_input = zoom (λ tr. tr.input) (λ tr items. record tr { input = items })

unfoldable pub read_byte : M Reader ℕ
read_byte = from_input Input.read_byte

abbrev pub is_xon_xoff : ℕ → Bool
is_xon_xoff b = bit_and b 0x7f == xon || bit_and b 0x7f == xoff

-- The loop over the bytes that are stripped.
unfoldable pub strip_loop : Bool → M (List Item) ℕ
strip_loop strip [] = err (read_fault eof) []
strip_loop strip (byte b ∷ items) =
    let again = strip_loop strip items in if strip && is_xon_xoff b then again else ok b items
strip_loop strip (gap ∷ items) = strip_loop strip items
strip_loop strip (fault e ∷ items) = err (read_fault e) items

unfoldable pub read_byte_strip : M Reader ℕ
read_byte_strip tr = from_input (strip_loop tr.strip_xon_xoff) tr

abbrev pub reset_can : M Reader (Unit {0})
reset_can tr = ok tt (record tr { can_count = 0 })

-- One more consecutive CAN; the fifth aborts.
unfoldable pub count_can : M Reader (Unit {0})
count_can tr =
    let tr' = record tr { can_count = tr.can_count + 1 } in
    if leb 5 tr'.can_count then err abort_received tr' else ok tt tr'

abbrev pub is_end_marker : ℕ → Bool
is_end_marker c = c == zcrce || (c == zcrcg || (c == zcrcq || c == zcrcw))

-- `again` is the call of `zdlRead` behind discarded noise. A result `(b, e)` is the byte `b` if
-- `e` is 0, and the end marker `e` otherwise.
unfoldable pub zdl_escape : M Reader (ℕ × ℕ) → M Reader (ℕ × ℕ)
zdl_escape again = do
  c ← read_byte_strip
  if is_end_marker c
      then reset_can >> pure (0, c)
      else if c == zrub0
      then reset_can >> pure (0x7f, 0)
      else if c == zrub1
      then reset_can >> pure (0xff, 0)
      else if leb 0x40 c
      then reset_can >> pure (bit_xor c 0x40, 0)
      else if c == can
      then count_can >> again
      else again

-- Each round reads a byte of the input, so the input's length bounds the rounds.
unfoldable pub zdl_loop : ℕ → M Reader (ℕ × ℕ)
zdl_loop zero = fail out_of_fuel
zdl_loop (suc fuel) =
    let again = zdl_loop fuel in
    do
      b ← read_byte_strip
      if b == zdle then count_can >> zdl_escape again else reset_can >> pure (b, 0)

unfoldable pub zdl_read : M Reader (ℕ × ℕ)
zdl_read tr = zdl_loop (suc (length tr.input)) tr

unfoldable pub hex_val : ℕ → Option ℕ
hex_val b =
    if leb b'0' b && leb b b'9'
    then some (b - b'0')
    else if leb b'a' b && leb b b'f'
    then some (b - b'a' + 10)
    else if leb b'A' b && leb b b'F'
    then some (b - b'A' + 10)
    else none

abbrev pub hex_pair : Option ℕ → Option ℕ → ℕ → ℕ → M Reader ℕ
hex_pair (some h) (some l) hi lo = pure (bit_or (h * 2 ^ 4) l)
hex_pair (some h) none hi lo = fail (invalid_hex hi lo)
hex_pair none l hi lo = fail (invalid_hex hi lo)

unfoldable pub read_hex : M Reader ℕ
read_hex = do
  hi ← read_byte
  lo ← read_byte
  let hi' = bit_and hi 0x7f
  let lo' = bit_and lo 0x7f
  hex_pair (hex_val hi') (hex_val lo') hi' lo'

unfoldable pub count_garbage : M Reader (Unit {0})
count_garbage tr =
    let tr' = record tr { garbage_count = tr.garbage_count + 1 } in
    if ltb tr'.garbage_max tr'.garbage_count then err garbage_overflow tr' else ok tt tr'

unfoldable pub reset_garbage : M Reader (Unit {0})
reset_garbage tr = ok tt (record tr { garbage_count = 0 })

-- The byte behind ZPAD ZDLE; `again` goes on with the hunt.
unfoldable pub scan_encoding : M Reader ℕ → M Reader ℕ
scan_encoding again = do
  enc ← read_byte
  if enc == zbin || (enc == zhex || enc == zbin32)
      then reset_garbage >> pure enc
      else if enc == zbinr32
          || (enc == zvbin || (enc == zvhex || (enc == zvbin32 || enc == zvbinr32)))
      then fail (unsupported_enc enc)
      else count_garbage >> again

-- Behind the first ZPAD.
unfoldable pub scan_pad : M Reader ℕ → M Reader ℕ
scan_pad again = do
  b ← read_byte
  b' ← if b == zpad then read_byte else pure b
  if b' == zdle then scan_encoding again else count_garbage >> again

unfoldable pub scan_loop : ℕ → M Reader ℕ
scan_loop zero = fail out_of_fuel
scan_loop (suc fuel) =
    let again = scan_loop fuel in
    do
      b ← read_byte
      if b == can
          then count_can >> (count_garbage >> again)
          else reset_can >> (if b == zpad then scan_pad again else count_garbage >> again)

unfoldable pub scan_for_pad : M Reader ℕ
scan_for_pad tr = scan_loop (suc (length tr.input)) (record tr { can_count = 0; garbage_count = 0 })

abbrev has_frame_start : Bytes → Bool
has_frame_start [] = false
has_frame_start (b ∷ bs) = b == zpad || (b == can || has_frame_start bs)

unfoldable pub peek_for_zpad : Reader → Bool
peek_for_zpad tr = has_frame_start (Input.buffered tr.input)

unfoldable pub purge : M Reader (Unit {0})
purge tr = ok tt (record tr { input = Input.discard_buffered tr.input })
