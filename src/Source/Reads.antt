-- ===== src/Source/Reads.antt =====
-- Seeks of a source that do not fail, and a list in two pieces.
use go_zmodem.Prelude.{◌≡◌, refl, ap, ℕ, zero, suc, [], ◌∷◌, ◌++◌, Bytes, length, take, drop}
use go_zmodem.Monad.{ok}
use go_zmodem.Source.{seek, seek_of, Source}

pub take-append-rest : (n : ℕ) (xs : Bytes) → take n xs ++ drop (length (take n xs)) xs ≡ xs
take-append-rest zero xs = refl
take-append-rest (suc n) [] = refl
take-append-rest (suc n) (x ∷ xs) = ap (λ t. x ∷ t) (take-append-rest n xs)

pub seek_lem :
    (n : ℕ) (src : Source) → src.seek_answers ≡ [] → seek n src ≡ ok tt (record src { at = n })
unfolding seek
seek_lem n src sought = ap (λ answers. seek_of answers n src) sought
