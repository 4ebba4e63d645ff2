-- ===== src/Reader/Shrinks.antt =====
-- `reader.go`: a call never puts anything back into the input, whether it succeeds or fails.
use go_zmodem.Prelude.{
  ap, arith, ℕ, zero, suc, ◌+◌, ◌≤◌, Bool, true, false, ◌&&◌, ◌||◌, Option, none, some, List, [],
  ◌∷◌, length, bit_and, bit_xor, ltb, leb, ◌==◌, if◌then◌else◌,
}
use go_zmodem.Monad.{
  Res, ok, err, M, pure, fail, attempt, wrap, ◌>>=◌, ◌>>◌, Context, final, final-zoom,
  unsupported_enc, garbage_overflow,
}
use go_zmodem.Constants.{
  zdle, zpad, can, zrub0, zrub1, zbin, zhex, zbin32, zbinr32, zvbin, zvhex, zvbin32, zvbinr32,
}
use go_zmodem.Bufio.Input
use go_zmodem.Bufio.Input.{Item, byte, gap, fault}
use go_zmodem.Reader.{
  Reader, from_input, read_byte, is_xon_xoff, strip_loop, read_byte_strip, reset_can, count_can,
  is_end_marker, zdl_escape, zdl_loop, zdl_read, hex_val, hex_pair, read_hex, count_garbage,
  reset_garbage, scan_encoding, scan_pad, scan_loop, scan_for_pad,
}

-- No more items are left than there were.
abbrev pub Shrinks : {A : Type 0} → M Reader A → Type 0
Shrinks m = (n : ℕ) (tr : Reader) → length tr.input ≤ n → length (final (m tr)).input ≤ n

pub bind-Shrinks :
    {A B : Type 0} (m : M Reader A) (f : A → M Reader B)
    → Shrinks m
    → ((a : A) → Shrinks (f a))
    → Shrinks (m >>= f)
bind-Shrinks {A} m f p q n tr h = go (m tr) (p n tr h)
  where
    go :
        (x : Res Reader A)
        → length (final x).input ≤ n
        → length (final (((λ _. x) >>= f) tr)).input ≤ n
    go (ok a t) below = q a n t below
    go (err e t) below = below

pub if-Shrinks :
    {A : Type 0} (b : Bool) (m k : M Reader A)
    → Shrinks m
    → Shrinks k
    → Shrinks (if b then m else k)
if-Shrinks true m k p q = p
if-Shrinks false m k p q = q

pub wrap-Shrinks : {A : Type 0} (c : Context) (m : M Reader A) → Shrinks m → Shrinks (wrap c m)
wrap-Shrinks {A} c m p n tr h = go (m tr) (p n tr h)
  where
    go :
        (x : Res Reader A)
        → length (final x).input ≤ n
        → length (final (wrap c (λ _. x) tr)).input ≤ n
    go (ok a t) below = below
    go (err e t) below = below

pub attempt-Shrinks : {A : Type 0} (m : M Reader A) → Shrinks m → Shrinks (attempt m)
attempt-Shrinks {A} m p n tr h = go (m tr) (p n tr h)
  where
    go :
        (x : Res Reader A)
        → length (final x).input ≤ n
        → length (final (attempt (λ _. x) tr)).input ≤ n
    go (ok a t) below = below
    go (err e t) below = below

pub stays-Shrinks : {A : Type 0} (a : A) → Shrinks (pure {S = Reader} a)
stays-Shrinks a n tr h = h

from_input-Shrinks :
    {A : Type 0} (m : M (List Item) A)
    → ((items : List Item) → length (final (m items)) ≤ length items)
    → Shrinks (from_input m)
from_input-Shrinks m p n tr h =
    let same =
      final-zoom (λ (tr : Reader). tr.input) (λ tr items. record tr { input = items }) m tr in
    let less = p tr.input in omega (arith, ap (λ (tr : Reader). length tr.input) same)

read_items-Shrinks : (items : List Item) → length (final (Input.read_byte items)) ≤ length items
unfolding Input.read_byte
read_items-Shrinks [] = omega arith
read_items-Shrinks (byte b ∷ items) = omega arith
read_items-Shrinks (gap ∷ items) = omega (arith, read_items-Shrinks items)
read_items-Shrinks (fault e ∷ items) = omega arith

pub read_byte-Shrinks : Shrinks read_byte
unfolding read_byte
read_byte-Shrinks = from_input-Shrinks Input.read_byte read_items-Shrinks

strip_if :
    (b : Bool) (x y : Res (List Item) ℕ) (n : ℕ)
    → length (final x) ≤ n
    → length (final y) ≤ n
    → length (final (if b then x else y)) ≤ n
strip_if true x y n p q = p
strip_if false x y n p q = q

strip_loop-Shrinks :
    (strip : Bool) (items : List Item) → length (final (strip_loop strip items)) ≤ length items
unfolding strip_loop
strip_loop-Shrinks strip [] = omega arith
strip_loop-Shrinks strip (byte b ∷ items) =
    let rest = strip_loop-Shrinks strip items in
    strip_if (strip && is_xon_xoff b) (strip_loop strip items) (ok b items) (suc (length items))
      (omega arith) (omega arith)
strip_loop-Shrinks strip (gap ∷ items) = omega (arith, strip_loop-Shrinks strip items)
strip_loop-Shrinks strip (fault e ∷ items) = omega arith

read_byte_strip-Shrinks : Shrinks read_byte_strip
unfolding read_byte_strip
read_byte_strip-Shrinks n tr =
    from_input-Shrinks (strip_loop tr.strip_xon_xoff) (strip_loop-Shrinks tr.strip_xon_xoff) n tr

final_if :
    {A : Type 0} (b : Bool) (x y : Res Reader A) (n : ℕ)
    → length (final x).input ≤ n
    → length (final y).input ≤ n
    → length (final (if b then x else y)).input ≤ n
final_if true x y n p q = p
final_if false x y n p q = q

count_can-Shrinks : Shrinks count_can
unfolding count_can
count_can-Shrinks n tr h = final_if (leb 5 (tr.can_count + 1)) _ _ n h h

count_garbage-Shrinks : Shrinks count_garbage
unfolding count_garbage
count_garbage-Shrinks n tr h =
    let counted = record tr { garbage_count = tr.garbage_count + 1 } in
    final_if (ltb tr.garbage_max (tr.garbage_count + 1)) (err garbage_overflow counted)
      (ok tt counted) n h h

-- A decoded byte or an end marker, behind the reset of the count.
found-Shrinks : (a : ℕ × ℕ) → Shrinks (reset_can >> pure a)
found-Shrinks a n tr h = h

zdl_escape-Shrinks : (again : M Reader (ℕ × ℕ)) → Shrinks again → Shrinks (zdl_escape again)
unfolding zdl_escape
zdl_escape-Shrinks again safe = bind-Shrinks read_byte_strip _ read_byte_strip-Shrinks (λ c.
    if-Shrinks (is_end_marker c) (reset_can >> pure (0, c)) _ (found-Shrinks (0, c)) (
      if-Shrinks (c == zrub0) (reset_can >> pure (0x7f, 0)) _ (found-Shrinks (0x7f, 0)) (
        if-Shrinks (c == zrub1) (reset_can >> pure (0xff, 0)) _ (found-Shrinks (0xff, 0)) (
          if-Shrinks (leb 0x40 c) (reset_can >> pure (bit_xor c 0x40, 0)) _
            (found-Shrinks (bit_xor c 0x40, 0))
            (if-Shrinks (c == can) (count_can >> again) again
              (bind-Shrinks count_can (λ _. again) count_can-Shrinks (λ _. safe)) safe)))))

zdl_loop-Shrinks : (fuel : ℕ) → Shrinks (zdl_loop fuel)
unfolding zdl_loop
zdl_loop-Shrinks zero n tr h = h
zdl_loop-Shrinks (suc fuel) n tr h =
    let again = zdl_loop fuel in
    bind-Shrinks read_byte_strip _ read_byte_strip-Shrinks
      (λ b.
        if-Shrinks (b == zdle) (count_can >> zdl_escape again) (reset_can >> pure (b, 0))
          (bind-Shrinks count_can (λ _. zdl_escape again) count_can-Shrinks
            (λ _. zdl_escape-Shrinks again (zdl_loop-Shrinks fuel)))
          (found-Shrinks (b, 0)))
      n tr h

pub zdl_read-Shrinks : Shrinks zdl_read
unfolding zdl_read
zdl_read-Shrinks n tr = zdl_loop-Shrinks (suc (length tr.input)) n tr

hex_pair-Shrinks : (h l : Option ℕ) (hi lo : ℕ) → Shrinks (hex_pair h l hi lo)
hex_pair-Shrinks (some h) (some l) hi lo n tr below = below
hex_pair-Shrinks (some h) none hi lo n tr below = below
hex_pair-Shrinks none l hi lo n tr below = below

pub read_hex-Shrinks : Shrinks read_hex
unfolding read_hex
read_hex-Shrinks = bind-Shrinks read_byte _ read_byte-Shrinks (λ hi.
    bind-Shrinks read_byte _ read_byte-Shrinks (λ lo.
      hex_pair-Shrinks (hex_val (bit_and hi 0x7f)) (hex_val (bit_and lo 0x7f)) (bit_and hi 0x7f)
        (bit_and lo 0x7f)))

skip-Shrinks : (again : M Reader ℕ) → Shrinks again → Shrinks (count_garbage >> again)
skip-Shrinks again safe = bind-Shrinks count_garbage (λ _. again) count_garbage-Shrinks (λ _. safe)

scan_encoding-Shrinks : (again : M Reader ℕ) → Shrinks again → Shrinks (scan_encoding again)
unfolding scan_encoding reset_garbage
scan_encoding-Shrinks again safe = bind-Shrinks read_byte _ read_byte-Shrinks (λ enc.
    if-Shrinks (enc == zbin || (enc == zhex || enc == zbin32)) (reset_garbage >> pure enc) _
      (λ n tr h. h)
      (if-Shrinks
        (enc == zbinr32 || (enc == zvbin || (enc == zvhex || (enc == zvbin32 || enc == zvbinr32))))
        (fail (unsupported_enc enc)) (count_garbage >> again) (λ n tr h. h)
        (skip-Shrinks again safe)))

scan_pad-Shrinks : (again : M Reader ℕ) → Shrinks again → Shrinks (scan_pad again)
unfolding scan_pad
scan_pad-Shrinks again safe = bind-Shrinks read_byte _ read_byte-Shrinks (λ b.
    bind-Shrinks (if b == zpad then read_byte else pure b) _
      (if-Shrinks (b == zpad) read_byte (pure b) read_byte-Shrinks (λ n tr h. h))
      (λ c.
        if-Shrinks (c == zdle) (scan_encoding again) (count_garbage >> again)
          (scan_encoding-Shrinks again safe) (skip-Shrinks again safe)))

scan_loop-Shrinks : (fuel : ℕ) → Shrinks (scan_loop fuel)
unfolding scan_loop
scan_loop-Shrinks zero n tr h = h
scan_loop-Shrinks (suc fuel) n tr h =
    let again = scan_loop fuel in
    let safe = scan_loop-Shrinks fuel in
    let hunt : ℕ → M Reader ℕ = λ b. if b == zpad then scan_pad again else count_garbage >> again in
    bind-Shrinks read_byte _ read_byte-Shrinks
      (λ b.
        if-Shrinks (b == can) (count_can >> (count_garbage >> again)) (reset_can >> hunt b)
          (bind-Shrinks count_can (λ _. count_garbage >> again) count_can-Shrinks
            (λ _. skip-Shrinks again safe))
          (bind-Shrinks reset_can (λ _. hunt b) (λ n tr h. h)
            (λ _.
              if-Shrinks (b == zpad) (scan_pad again) (count_garbage >> again)
                (scan_pad-Shrinks again safe) (skip-Shrinks again safe))))
      n tr h

pub scan_for_pad-Shrinks : Shrinks scan_for_pad
unfolding scan_for_pad
scan_for_pad-Shrinks n tr h =
    scan_loop-Shrinks (suc (length tr.input)) n (record tr { can_count = 0; garbage_count = 0 }) h
