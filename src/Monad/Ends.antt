-- ===== src/Monad/Ends.antt =====
-- Calls that do not run out of fuel.
use go_zmodem.Prelude.{◌≡◌, Bool, true, false, if◌then◌else◌}
use go_zmodem.Monad.{Res, ok, err, M, ◌>>=◌, zoom, is_out_of_fuel}

-- The call came to an end: it returned, or failed with an error of the program.
abbrev pub Ends : {S A : Type 0} → Res S A → Type 0
Ends (ok a s) = Unit {0}
Ends (err e s) = is_out_of_fuel e ≡ false

abbrev pub Sure : {S A : Type 0} → M S A → Type 0
Sure {S} m = (s : S) → Ends (m s)

pub Ends->>= :
    {S A B : Type 0} (x : Res S A) (s : S) (f : A → M S B)
    → Ends x
    → ((a : A) → Sure (f a))
    → Ends (((λ _. x) >>= f) s)
Ends->>= (ok a t) s f ends sure = sure a t
Ends->>= (err e t) s f ends sure = ends

pub bind-Sure :
    {S A B : Type 0} (m : M S A) (f : A → M S B) → Sure m → ((a : A) → Sure (f a)) → Sure (m >>= f)
bind-Sure m f p q s = Ends->>= (m s) s f (p s) q

pub if-Ends :
    {S A : Type 0} (b : Bool) (x y : Res S A) → Ends x → Ends y → Ends (if b then x else y)
if-Ends true x y p q = p
if-Ends false x y p q = q

pub if-Sure : {S A : Type 0} (b : Bool) (m k : M S A) → Sure m → Sure k → Sure (if b then m else k)
if-Sure true m k p q = p
if-Sure false m k p q = q

module _ {S T A : Type 0} (get : S → T) (put : S → T → S) (m : M T A) where
  pub zoom-Sure : Sure m → Sure (zoom get put m)
  zoom-Sure sure s = go (m (get s)) (sure (get s))
    where
      go : (x : Res T A) → Ends x → Ends (zoom get put (λ _. x) s)
      go (ok a t) ends = tt
      go (err e t) ends = ends
