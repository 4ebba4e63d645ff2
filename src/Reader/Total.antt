-- ===== src/Reader/Total.antt =====
-- The loop of `zdlRead` and its fuel.
use go_zmodem.Prelude.{
  ◌≡◌, refl, arith, ℕ, zero, suc, ◌+◌, ◌<◌, ◌≤◌, Bool, true, false, ◌&&◌, List, [], ◌∷◌, length,
  leb, ◌==◌, if◌then◌else◌, bit_xor,
}
use go_zmodem.Monad.{Res, ok, err, M, pure, ◌>>=◌, ◌>>◌, is_out_of_fuel, abort_received}
use go_zmodem.Constants.{zdle, zrub0, zrub1, can}
use go_zmodem.Bufio.Input.{Item, byte, gap, fault}
use go_zmodem.Reader.{
  Reader, from_input, strip_loop, read_byte_strip, count_can, reset_can, is_end_marker, zdl_escape,
  zdl_loop, zdl_read, is_xon_xoff,
}

-- The call returned with fewer than `n` items of the input left, or with an error of the program.
abbrev pub Below : {A : Type 0} → ℕ → Res Reader A → Type 0
Below n (ok a t) = length t.input < n
Below n (err e t) = is_out_of_fuel e ≡ false

abbrev pub ItemsBelow : ℕ → Res (List Item) ℕ → Type 0
ItemsBelow n (ok a items) = length items < n
ItemsBelow n (err e items) = is_out_of_fuel e ≡ false

pub Below->>= :
    {A B : Type 0} (n k : ℕ) (x : Res Reader A) (s : Reader) (f : A → M Reader B)
    → Below n x
    → ((a : A) (t : Reader) → length t.input < n → Below k (f a t))
    → Below k (((λ _. x) >>= f) s)
Below->>= n k (ok a t) s f below rest = rest a t below
Below->>= n k (err e t) s f below rest = below

pub Below-if :
    {A : Type 0} (n : ℕ) (b : Bool) (m k : M Reader A) (s : Reader)
    → Below n (m s)
    → Below n (k s)
    → Below n ((if b then m else k) s)
Below-if n true m k s x y = x
Below-if n false m k s x y = y

ItemsBelow-if :
    (n : ℕ) (b : Bool) (x y : Res (List Item) ℕ)
    → ItemsBelow n x
    → ItemsBelow n y
    → ItemsBelow n (if b then x else y)
ItemsBelow-if n true x y p q = p
ItemsBelow-if n false x y p q = q

pub ItemsBelow-mono : (n k : ℕ) (x : Res (List Item) ℕ) → n ≤ k → ItemsBelow n x → ItemsBelow k x
ItemsBelow-mono n k (ok a items) h p = omega arith
ItemsBelow-mono n k (err e items) h p = p

strip_loop-ItemsBelow :
    (strip : Bool) (items : List Item) → ItemsBelow (length items) (strip_loop strip items)
unfolding strip_loop
strip_loop-ItemsBelow strip [] = refl
strip_loop-ItemsBelow strip (byte b ∷ items) =
    let more = strip_loop-ItemsBelow strip items in
    let n = length items in
    ItemsBelow-if (suc n) (strip && is_xon_xoff b) (strip_loop strip items) (ok b items)
      (ItemsBelow-mono n (suc n) (strip_loop strip items) (omega arith) more) (omega arith)
strip_loop-ItemsBelow strip (gap ∷ items) =
    let n = length items in
    ItemsBelow-mono n (suc n) (strip_loop strip items) (omega arith)
      (strip_loop-ItemsBelow strip items)
strip_loop-ItemsBelow strip (fault e ∷ items) = refl

pub from_input-Below :
    (n : ℕ) (x : Res (List Item) ℕ) (s : Reader) → ItemsBelow n x → Below n (from_input (λ _. x) s)
from_input-Below n (ok b items) s below = below
from_input-Below n (err e items) s below = below

pub read_byte_strip-Below : (tr : Reader) → Below (length tr.input) (read_byte_strip tr)
unfolding read_byte_strip
read_byte_strip-Below tr =
    from_input-Below (length tr.input) (strip_loop tr.strip_xon_xoff tr.input) tr
      (strip_loop-ItemsBelow tr.strip_xon_xoff tr.input)

pub count_can-Below : (n : ℕ) (tr : Reader) → length tr.input < n → Below n (count_can tr)
unfolding count_can
count_can-Below n tr h = counted (leb 5 (tr.can_count + 1))
  where
    counted :
        (b : Bool)
        → Below n (
            if b
            then err abort_received (record tr { can_count = tr.can_count + 1 })
            else ok tt (record tr { can_count = tr.can_count + 1 }))
    counted true = refl
    counted false = h

-- A call that goes on from any state with fewer items.
abbrev pub Goes : {A : Type 0} → ℕ → M Reader A → Type 0
Goes n m = (tr : Reader) → length tr.input < n → Below n (m tr)

zdl_escape-Below :
    (n : ℕ) (again : M Reader (ℕ × ℕ)) (tr : Reader)
    → Goes n again
    → length tr.input < n
    → Below n (zdl_escape again tr)
unfolding zdl_escape
zdl_escape-Below n again tr goes h =
    let returns : (a : ℕ × ℕ) (t : Reader)
        → length t.input < n
        → Below n ((reset_can >> pure a) t) =
      λ a t below. below in
    Below->>= (length tr.input) n (read_byte_strip tr) tr _ (read_byte_strip-Below tr) (λ c t below.
      let less : length t.input < n = omega arith in
      Below-if n (is_end_marker c) _ _ t (returns (0, c) t less) (
        Below-if n (c == zrub0) _ _ t (returns (0x7f, 0) t less) (
          Below-if n (c == zrub1) _ _ t (returns (0xff, 0) t less) (
            Below-if n (leb 0x40 c) _ _ t (returns (bit_xor c 0x40, 0) t less) (
              Below-if n (c == can) (count_can >> again) again t
                (Below->>= n n (count_can t) t (λ _. again) (count_can-Below n t less)
                  (λ _ u. goes u))
                (goes t less))))))

pub Below-mono : {A : Type 0} (n k : ℕ) (x : Res Reader A) → n ≤ k → Below n x → Below k x
Below-mono n k (ok a t) h p = omega arith
Below-mono n k (err e t) h p = p

zdl_loop-Below :
    (fuel : ℕ) (tr : Reader) → length tr.input < fuel → Below (length tr.input) (zdl_loop fuel tr)
unfolding zdl_loop
zdl_loop-Below zero tr enough = absurd (omega arith)
zdl_loop-Below (suc fuel) tr enough =
    let n = length tr.input in
    let goes : Goes n (zdl_loop fuel) = λ u p.
      Below-mono (length u.input) n (zdl_loop fuel u) (omega arith)
        (zdl_loop-Below fuel u (omega arith)) in
    Below->>= n n (read_byte_strip tr) tr _ (read_byte_strip-Below tr) (λ b t below.
      Below-if n (b == zdle) (count_can >> zdl_escape (zdl_loop fuel)) _ t
        (Below->>= n n (count_can t) t (λ _. zdl_escape (zdl_loop fuel)) (count_can-Below n t below)
          (λ _ u. zdl_escape-Below n (zdl_loop fuel) u goes))
        below)

-- `zdlRead` returns on every input, with a byte or an end marker behind at least one item that it
-- consumed, or with an error of the program: its loop never runs out of fuel.
pub zdl_read-Below : (tr : Reader) → Below (length tr.input) (zdl_read tr)
unfolding zdl_read
zdl_read-Below tr = zdl_loop-Below (suc (length tr.input)) tr (omega arith)
