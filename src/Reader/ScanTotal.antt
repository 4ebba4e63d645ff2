-- ===== src/Reader/ScanTotal.antt =====
-- The loop of `scanForPad` and its fuel, and the hexadecimal digits.
use go_zmodem.Prelude.{
  refl, arith, ℕ, zero, suc, ◌+◌, ◌<◌, Bool, true, false, ◌||◌, bit_and, Option, none, some, List,
  [], ◌∷◌, length, ltb, ◌==◌, if◌then◌else◌,
}
use go_zmodem.Monad.{ok, err, M, pure, fail, ◌>>◌, garbage_overflow, unsupported_enc}
use go_zmodem.Constants.{
  zpad, zdle, zbin, zhex, zbin32, zbinr32, zvbin, zvhex, zvbin32, zvbinr32, can,
}
use go_zmodem.Bufio.Input
use go_zmodem.Bufio.Input.{Item, byte, gap, fault}
use go_zmodem.Reader.{
  Reader, read_byte, count_can, count_garbage, reset_garbage, scan_encoding, scan_pad, scan_loop,
  scan_for_pad, hex_val, hex_pair, read_hex,
}
use go_zmodem.Reader.Total.{
  Below, Goes, ItemsBelow, ItemsBelow-mono, from_input-Below, Below->>=, Below-if, Below-mono,
  count_can-Below,
}

input_byte-ItemsBelow : (items : List Item) → ItemsBelow (length items) (Input.read_byte items)
unfolding Input.read_byte
input_byte-ItemsBelow [] = refl
input_byte-ItemsBelow (byte b ∷ items) = omega arith
input_byte-ItemsBelow (gap ∷ items) =
    let n = length items in
    ItemsBelow-mono n (suc n) (Input.read_byte items) (omega arith) (input_byte-ItemsBelow items)
input_byte-ItemsBelow (fault e ∷ items) = refl

pub read_byte-Below : (tr : Reader) → Below (length tr.input) (read_byte tr)
unfolding read_byte
read_byte-Below tr =
    from_input-Below (length tr.input) (Input.read_byte tr.input) tr
      (input_byte-ItemsBelow tr.input)

pub read_byte-Goes : (n : ℕ) → Goes n read_byte
read_byte-Goes n tr h =
    Below-mono (length tr.input) n (read_byte tr) (omega arith) (read_byte-Below tr)

count_garbage-Goes : (n : ℕ) → Goes n count_garbage
unfolding count_garbage
count_garbage-Goes n tr h = counted (ltb tr.garbage_max (tr.garbage_count + 1))
  where
    counted :
        (b : Bool)
        → Below n (
            if b
            then err garbage_overflow (record tr { garbage_count = tr.garbage_count + 1 })
            else ok tt (record tr { garbage_count = tr.garbage_count + 1 }))
    counted true = refl
    counted false = h

module _ (n : ℕ) (again : M Reader ℕ) (goes : Goes n again) where
  skip-Goes : Goes n (count_garbage >> again)
  skip-Goes tr h =
      Below->>= n n (count_garbage tr) tr (λ _. again) (count_garbage-Goes n tr h) (λ _ u. goes u)

  scan_encoding-Goes : Goes n (scan_encoding again)
  unfolding scan_encoding reset_garbage
  scan_encoding-Goes tr h =
      Below->>= n n (read_byte tr) tr _ (read_byte-Goes n tr h) (λ enc t below.
        Below-if n (enc == zbin || (enc == zhex || enc == zbin32)) (reset_garbage >> pure enc) _ t
          below
          (Below-if n
            (enc == zbinr32
              || (enc == zvbin || (enc == zvhex || (enc == zvbin32 || enc == zvbinr32))))
            (fail (unsupported_enc enc)) (count_garbage >> again) t refl (skip-Goes t below)))

  scan_pad-Goes : Goes n (scan_pad again)
  unfolding scan_pad
  scan_pad-Goes tr h = Below->>= n n (read_byte tr) tr _ (read_byte-Goes n tr h) (λ b t below.
      Below->>= n n ((if b == zpad then read_byte else pure b) t) t _
        (Below-if n (b == zpad) read_byte (pure b) t (read_byte-Goes n t below) below)
        (λ c u low.
          Below-if n (c == zdle) (scan_encoding again) (count_garbage >> again) u
            (scan_encoding-Goes u low) (skip-Goes u low)))

scan_loop-Below :
    (fuel : ℕ) (tr : Reader) → length tr.input < fuel → Below (length tr.input) (scan_loop fuel tr)
unfolding scan_loop
scan_loop-Below zero tr enough = absurd (omega arith)
scan_loop-Below (suc fuel) tr enough =
    let n = length tr.input in
    let again = scan_loop fuel in
    let goes : Goes n again = λ u p.
      Below-mono (length u.input) n (scan_loop fuel u) (omega arith)
        (scan_loop-Below fuel u (omega arith)) in
    Below->>= n n (read_byte tr) tr _ (read_byte-Below tr) (λ b t below.
      Below-if n (b == can) (count_can >> (count_garbage >> again)) _ t
        (Below->>= n n (count_can t) t (λ _. count_garbage >> again) (count_can-Below n t below)
          (λ _ u. skip-Goes n again goes u))
        (Below-if n (b == zpad) (scan_pad again) (count_garbage >> again)
          (record t { can_count = 0 })
          (scan_pad-Goes n again goes (record t { can_count = 0 }) below)
          (skip-Goes n again goes (record t { can_count = 0 }) below)))

-- scanForPad returns on every input, with the encoding of a frame behind at least one item that it
-- consumed, or with an error of the program: its loop never runs out of fuel.
pub scan_for_pad-Below : (tr : Reader) → Below (length tr.input) (scan_for_pad tr)
unfolding scan_for_pad
scan_for_pad-Below tr =
    scan_loop-Below (suc (length tr.input)) (record tr { can_count = 0; garbage_count = 0 })
      (omega arith)

hex_pair-Goes : (h l : Option ℕ) (hi lo n : ℕ) → Goes n (hex_pair h l hi lo)
hex_pair-Goes (some h) (some l) hi lo n tr below = below
hex_pair-Goes (some h) none hi lo n tr below = refl
hex_pair-Goes none l hi lo n tr below = refl

pub read_hex-Goes : (n : ℕ) → Goes n read_hex
unfolding read_hex
read_hex-Goes n tr h = Below->>= n n (read_byte tr) tr _ (read_byte-Goes n tr h) (λ hi t below.
    Below->>= n n (read_byte t) t _ (read_byte-Goes n t below) (λ lo u low.
      hex_pair-Goes (hex_val (bit_and hi 0x7f)) (hex_val (bit_and lo 0x7f)) (bit_and hi 0x7f)
        (bit_and lo 0x7f) n u low))
