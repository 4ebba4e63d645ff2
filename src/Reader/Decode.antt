-- ===== src/Reader/Decode.antt =====
-- Reading back what the writer's escapes put on the wire, however the bytes arrive.
use go_zmodem.Prelude.{
  ◌⊎◌, ◌≡◌, ◌≢◌, refl, ap, ◌∙◌, arith, inl, inr, ℕ, suc, ◌+◌, ◌≤◌, ◌<◌, bit_xor, Bool, true, false,
  not, ◌&&◌, List, [], ◌∷◌, ◌++◌, Bytes, length, Bool-cases, ==_ne, leb, ◌==◌,
}
use go_zmodem.Prelude.Xor.{bit_xor_cancel}
use go_zmodem.Monad.{ok, M, zoom, ◌>>=◌}
use go_zmodem.Constants.{zdle, zrub0, zrub1, zcrce, zcrcg, zcrcq, zcrcw, EscapeMode}
use go_zmodem.Escape.{build_escape_table, escape_required}
use go_zmodem.Escape.Laws.{strips, plain_escape, plain_escape_of_required, plain_of_not_required}
use go_zmodem.Writer.Encode.{escaped_byte}
use go_zmodem.Bufio.Input
use go_zmodem.Bufio.Input.{Item, byte, gap, fault}
use go_zmodem.Reader.{
  Reader, from_input, read_byte, is_xon_xoff, strip_loop, read_byte_strip, count_can, is_end_marker,
  zdl_escape, zdl_loop, zdl_read,
}

-- The items bring the bytes, and then `rest`. A Read of the transport may end anywhere, and where
-- the reader strips flow control, XON and XOFF may come in between.
pub data Carries (strip : Bool) (rest : List Item) : Bytes → List Item → Type 0 where
  done : Carries strip rest [] rest
  next :
      {b : ℕ} {bs : Bytes} {items : List Item}
      → Carries strip rest bs items
      → Carries strip rest (b ∷ bs) (byte b ∷ items)
  wait :
      {b : ℕ} {bs : Bytes} {items : List Item}
      → Carries strip rest (b ∷ bs) items
      → Carries strip rest (b ∷ bs) (gap ∷ items)
  flow :
      {b x : ℕ} {bs : Bytes} {items : List Item}
      → (strip && is_xon_xoff x) ≡ true
      → Carries strip rest (b ∷ bs) items
      → Carries strip rest (b ∷ bs) (byte x ∷ items)

pub Carries-nil :
    {strip : Bool} {rest items : List Item} → Carries strip rest [] items → items ≡ rest
Carries-nil done = refl

pub length-Carries :
    {strip : Bool} {rest items : List Item} {bs : Bytes}
    → Carries strip rest bs items
    → length bs + length rest ≤ length items
length-Carries done = omega arith
length-Carries (next c) = omega (arith, length-Carries c)
length-Carries (wait c) = omega (arith, length-Carries c)
length-Carries (flow e c) = omega (arith, length-Carries c)

-- The reader behind a call that took the items before `left`.
abbrev pub at : Reader → List Item → Reader
at tr left = record tr { input = left }

strip_loop-Carries :
    {strip : Bool} {rest items : List Item} {b : ℕ} {bs : Bytes}
    → Carries strip rest (b ∷ bs) items
    → (strip && is_xon_xoff b) ≡ false
    → (left : List Item) × (strip_loop strip items ≡ ok b left) × Carries strip rest bs left
unfolding strip_loop
strip_loop-Carries (next {items = items} c) h = (items, rw h, c)
strip_loop-Carries (wait c) h = strip_loop-Carries c h
strip_loop-Carries (flow e c) h =
    let (left, step, c') = strip_loop-Carries c h in (left, rw e step, c')

pub read_byte_strip-Carries :
    (tr : Reader) {rest : List Item} {b : ℕ} {bs : Bytes}
    → Carries tr.strip_xon_xoff rest (b ∷ bs) tr.input
    → (tr.strip_xon_xoff && is_xon_xoff b) ≡ false
    → (left : List Item) × (read_byte_strip tr ≡ ok b (at tr left))
      × Carries tr.strip_xon_xoff rest bs left
unfolding read_byte_strip
read_byte_strip-Carries tr c h =
    let (left, step, c') = strip_loop-Carries c h in (left, rw (step, from_input, zoom), c')

read_items-Carries :
    {rest items : List Item} {b : ℕ} {bs : Bytes}
    → Carries false rest (b ∷ bs) items
    → (left : List Item) × (Input.read_byte items ≡ ok b left) × Carries false rest bs left
unfolding Input.read_byte
read_items-Carries (next {items = items} c) = (items, refl, c)
read_items-Carries (wait c) = read_items-Carries c
read_items-Carries (flow e c) = absurd (cc)

pub read_byte-Carries :
    (tr : Reader) {rest : List Item} {b : ℕ} {bs : Bytes}
    → Carries false rest (b ∷ bs) tr.input
    → (left : List Item) × (read_byte tr ≡ ok b (at tr left)) × Carries false rest bs left
unfolding read_byte
read_byte-Carries tr c =
    let (left, step, c') = read_items-Carries c in (left, rw (step, from_input, zoom), c')

-- The reader strips no more than the writer's mode escapes.
abbrev pub Compatible : Reader → EscapeMode → Type 0
Compatible tr mode = (tr.strip_xon_xoff && not (strips mode)) ≡ false

abbrev pub decoded : Reader → List Item → Reader
decoded tr left = record tr { input = left; can_count = 0 }

count_can_lem :
    (tr : Reader)
    → tr.can_count < 4
    → count_can tr ≡ ok tt (record tr { can_count = tr.can_count + 1 })
unfolding count_can
count_can_lem tr few = ground arith

zdl_plain :
    (tr : Reader) (fuel b : ℕ) {left : List Item}
    → b ≢ zdle
    → read_byte_strip tr ≡ ok b (at tr left)
    → zdl_loop (suc fuel) tr ≡ ok (b, 0) (decoded tr left)
unfolding zdl_loop
zdl_plain tr fuel b ne e = rw (e, ◌>>=◌) (rw (==_ne b zdle ne) refl)

zdl_after_zdle :
    (tr : Reader) (fuel : ℕ) {left : List Item}
    → tr.can_count < 4
    → read_byte_strip tr ≡ ok zdle (at tr left)
    → zdl_loop (suc fuel) tr
      ≡ zdl_escape (zdl_loop fuel) (record tr { input = left; can_count = tr.can_count + 1 })
unfolding zdl_loop
zdl_after_zdle tr fuel {left} few e =
    rw (e, ◌>>=◌) (rw (count_can_lem (at tr left) few, ◌>>=◌) refl)

plain_escape_facts :
    (c : ℕ)
    → plain_escape c ≡ true
    → (is_end_marker c ≡ false)
      × ((c == zrub0) ≡ false)
      × ((c == zrub1) ≡ false)
      × (leb 0x40 c ≡ true)
plain_escape_facts c h = ground arith

zdl_escape_plain :
    (again : M Reader (ℕ × ℕ)) (tr : Reader) (c : ℕ) {left : List Item}
    → plain_escape c ≡ true
    → read_byte_strip tr ≡ ok c (at tr left)
    → zdl_escape again tr ≡ ok (bit_xor c 0x40, 0) (decoded tr left)
unfolding zdl_escape
zdl_escape_plain again tr c plain e =
    let (marker, rub0, rub1, high) = plain_escape_facts c plain in
    rw (e, ◌>>=◌) (rw (marker, rub0, rub1, high) refl)

zdl_escape_marker :
    (again : M Reader (ℕ × ℕ)) (tr : Reader) (c : ℕ) {left : List Item}
    → is_end_marker c ≡ true
    → read_byte_strip tr ≡ ok c (at tr left)
    → zdl_escape again tr ≡ ok (0, c) (decoded tr left)
unfolding zdl_escape
zdl_escape_marker again tr c marker e = rw (e, ◌>>=◌) (rw marker refl)

strip_off : (s m f : Bool) → (s && not m) ≡ false → (m && f) ≡ false → (s && f) ≡ false
strip_off s m f h k = ground arith

flow_off : (s f : Bool) → f ≡ false → (s && f) ≡ false
flow_off s f h = ground arith

-- A plain escape is no flow control byte.
plain_escape-flow : (c : ℕ) → plain_escape c ≡ true → is_xon_xoff c ≡ false
plain_escape-flow c h = ground arith

marker_cases :
    (c : ℕ) → is_end_marker c ≡ true → (c ≡ zcrce) ⊎ ((c ≡ zcrcg) ⊎ ((c ≡ zcrcq) ⊎ (c ≡ zcrcw)))
marker_cases c h = ground arith

marker-flow : (c : ℕ) → is_end_marker c ≡ true → is_xon_xoff c ≡ false
marker-flow c h = elim (marker_cases c h) [
  | inl e ↦ rw e
  | inr (inl e) ↦ rw e
  | inr (inr (inl e)) ↦ rw e
  | inr (inr (inr e)) ↦ rw e
]

escaped_byte_required :
    (table : List ℕ) (last b : ℕ)
    → escape_required table b last ≡ true
    → escaped_byte table last b ≡ zdle ∷ bit_xor b 0x40 ∷ []
unfolding escaped_byte
escaped_byte_required table last b h = rw h

escaped_byte_plain :
    (table : List ℕ) (last b : ℕ)
    → escape_required table b last ≡ false
    → escaped_byte table last b ≡ b ∷ []
unfolding escaped_byte
escaped_byte_plain table last b h = rw h

-- The call of `zdlRead` takes the items that carry one byte or one marker.
pub record Decodes (tr : Reader) (value : ℕ × ℕ) (bs : Bytes) (rest : List Item) : Type 0 where
  pub left : List Item
  pub returns : zdl_read tr ≡ ok value (decoded tr left)
  pub carries : Carries tr.strip_xon_xoff rest bs left

module _ (mode : EscapeMode) (tr : Reader) (few : tr.can_count < 4)
    (fits : Compatible tr mode) where
  pub zdl_read-escaped_byte :
      (last b : ℕ) {bs : Bytes} {rest : List Item}
      → b < 256
      → Carries tr.strip_xon_xoff rest
          (escaped_byte (build_escape_table mode) last b ++ bs)
          tr.input
      → Decodes tr (b, 0) bs rest
  zdl_read-escaped_byte last b lt c =
      elim (Bool-cases (escape_required (build_escape_table mode) b last)) [
        | inl escape ↦
            let plain = plain_escape_of_required mode b last lt escape in
            let sent = rw (escaped_byte_required (build_escape_table mode) last b escape) at c in
            let (left, e, c') =
              read_byte_strip-Carries tr sent (flow_off tr.strip_xon_xoff false refl) in
            let (left', e', c'') =
              read_byte_strip-Carries (record tr { input = left; can_count = tr.can_count + 1 }) c'
                (flow_off tr.strip_xon_xoff (is_xon_xoff (bit_xor b 0x40))
                  (plain_escape-flow (bit_xor b 0x40) plain)) in
            record {
              left = left';
              returns =
                  unfold zdl_read in
                  (zdl_after_zdle tr (length tr.input) few e
                    ∙ zdl_escape_plain (zdl_loop (length tr.input))
                        (record tr { input = left; can_count = tr.can_count + 1 }) (bit_xor b 0x40)
                        plain e'
                    ∙ ap (λ t. ok (t, 0) (decoded tr left')) (bit_xor_cancel b 0x40));
              carries = c'';
            }
        | inr plain ↦
            let (ne, off) = plain_of_not_required mode b last lt plain in
            let sent = rw (escaped_byte_plain (build_escape_table mode) last b plain) at c in
            let (left, e, c') =
              read_byte_strip-Carries tr sent
                (strip_off tr.strip_xon_xoff (strips mode) (is_xon_xoff b) fits off) in
            record {
              left = left;
              returns = unfold zdl_read in zdl_plain tr (length tr.input) b ne e;
              carries = c';
            }
      ]

-- An end marker is read as such.
pub zdl_read_marker :
    (tr : Reader) (e : ℕ) {bs : Bytes} {rest : List Item}
    → tr.can_count < 4
    → is_end_marker e ≡ true
    → Carries tr.strip_xon_xoff rest (zdle ∷ e ∷ bs) tr.input
    → Decodes tr (0, e) bs rest
zdl_read_marker tr e few marker c =
    let (left, first, c') = read_byte_strip-Carries tr c (flow_off tr.strip_xon_xoff false refl) in
    let behind = record tr { input = left; can_count = tr.can_count + 1 } in
    let (left', second, c'') =
      read_byte_strip-Carries behind c'
        (flow_off tr.strip_xon_xoff (is_xon_xoff e) (marker-flow e marker)) in
    record {
      left = left';
      returns =
          unfold zdl_read in
          (zdl_after_zdle tr (length tr.input) few first
            ∙ zdl_escape_marker (zdl_loop (length tr.input)) behind e marker second);
      carries = c'';
    }
