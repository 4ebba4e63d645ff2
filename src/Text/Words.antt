-- ===== src/Text/Words.antt =====
-- `strings.Fields` on words with single spaces between them.
use go_zmodem.Prelude.{
  ◌≡◌, ap, ◌∙◌, sym, ℕ, false, arith, ◌≤◌, [], ◌∷◌, ◌++◌, append_assoc, append-nil, Bytes, All,
}
use go_zmodem.Text.{is_space, fields_from, fields}

-- Every byte of the word is a printing character.
abbrev pub IsVisible : Bytes → Type 0
IsVisible = All (λ c. 33 ≤ c)

visible_no_space : (c : ℕ) → 33 ≤ c → is_space c ≡ false
visible_no_space c h = ground arith

fields_from-word :
    (word cs rest : Bytes)
    → IsVisible cs
    → fields_from word (cs ++ rest) ≡ fields_from (word ++ cs) rest
unfolding fields_from
fields_from-word word [] rest h = ap (λ w. fields_from w rest) (sym (append-nil word))
fields_from-word word (c ∷ cs) rest (h, hs) = rw (visible_no_space c h) (
    fields_from-word (word ++ c ∷ []) cs rest hs
    ∙ ap (λ w. fields_from w rest) (append_assoc word (c ∷ []) cs))

-- A word at the front, and a space behind it.
pub fields-word :
    (c : ℕ) (cs rest : Bytes)
    → IsVisible (c ∷ cs)
    → fields (c ∷ cs ++ 32 ∷ rest) ≡ (c ∷ cs) ∷ fields rest
unfolding fields
fields-word c cs rest h = fields_from-word [] (c ∷ cs) (32 ∷ rest) h

-- The last word.
pub fields-last : (c : ℕ) (cs : Bytes) → IsVisible (c ∷ cs) → fields (c ∷ cs) ≡ (c ∷ cs) ∷ []
unfolding fields
fields-last c cs h =
    ap (fields_from []) (sym (append-nil (c ∷ cs))) ∙ fields_from-word [] (c ∷ cs) [] h
