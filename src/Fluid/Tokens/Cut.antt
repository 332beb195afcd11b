-- ===== src/Fluid/Tokens/Cut.antt =====
-- What strtok leaves of a string after its first call.
use soundcan.Base.{ℕ, ◌≡◌, refl, ap, Bool, true, false, [], ◌∷◌, ◌++◌, if◌then◌else◌}
use soundcan.CText.{Text}
use soundcan.Fluid.Tokens.{is_delimiter, until_delimiter, cut_token}
use soundcan.Fluid.Tokens.Join.{Free}

-- Only delimiters.
abbrev pub AllDelimiters : Text → Text → Type 0
AllDelimiters delimiters [] = Unit {0}
AllDelimiters delimiters (c ∷ cs) = (is_delimiter delimiters c ≡ true) × AllDelimiters delimiters cs

-- Nothing, or a delimiter first.
abbrev pub Separated : Text → Text → Type 0
Separated delimiters [] = Unit {0}
Separated delimiters (c ∷ cs) = is_delimiter delimiters c ≡ true

-- What may stand behind a word. Behind no word stands nothing.
abbrev pub Behind : Text → Text → Text → Type 0
Behind delimiters [] tail = tail ≡ []
Behind delimiters (w ∷ ws) tail = Separated delimiters tail

-- `left` is the text up to the end of its first word.
abbrev pub IsCut : Text → Text → Text → Type 0
IsCut delimiters s left =
    (lead : Text) × (word : Text) × (tail : Text) × (s ≡ lead ++ (word ++ tail))
    × (left ≡ lead ++ word)
    × AllDelimiters delimiters lead
    × Free delimiters word
    × Behind delimiters word tail

-- `kept` is the text up to its first delimiter.
abbrev IsUntil : Text → Text → Text → Type 0
IsUntil delimiters s kept =
    (tail : Text) × (s ≡ kept ++ tail) × Free delimiters kept × Separated delimiters tail

IsUntil-next :
    (delimiters cs kept : Text) (c : ℕ) (b : Bool)
    → is_delimiter delimiters c ≡ b
    → IsUntil delimiters cs kept
    → IsUntil delimiters (c ∷ cs) (if b then [] else c ∷ kept)
IsUntil-next delimiters cs kept c true h u = (c ∷ cs, refl, tt, h)
IsUntil-next delimiters cs kept c false h (tail, e, free, ends) =
    (tail, ap (◌∷◌ c) e, (h, free), ends)

until_delimiter-IsUntil :
    (delimiters s : Text) → IsUntil delimiters s (until_delimiter delimiters s)
unfolding until_delimiter
until_delimiter-IsUntil delimiters [] = ([], refl, tt, tt)
until_delimiter-IsUntil delimiters (c ∷ cs) =
    IsUntil-next delimiters cs (until_delimiter delimiters cs) c (is_delimiter delimiters c) refl
      (until_delimiter-IsUntil delimiters cs)

IsCut-next :
    (delimiters cs left kept : Text) (c : ℕ) (b : Bool)
    → is_delimiter delimiters c ≡ b
    → IsCut delimiters cs left
    → IsUntil delimiters cs kept
    → IsCut delimiters (c ∷ cs) (c ∷ (if b then left else kept))
IsCut-next delimiters cs left kept c true h (lead, word, tail, e, e', all, free, behind) u =
    (c ∷ lead, word, tail, ap (◌∷◌ c) e, ap (◌∷◌ c) e', (h, all), free, behind)
IsCut-next delimiters cs left kept c false h cut (tail, e, free, ends) =
    ([], c ∷ kept, tail, ap (◌∷◌ c) e, refl, tt, (h, free), ends)

pub cut_token-IsCut : (delimiters s : Text) → IsCut delimiters s (cut_token delimiters s)
unfolding cut_token
cut_token-IsCut delimiters [] = ([], [], [], refl, refl, tt, tt, refl)
cut_token-IsCut delimiters (c ∷ cs) =
    IsCut-next delimiters cs (cut_token delimiters cs) (until_delimiter delimiters cs) c
      (is_delimiter delimiters c) refl (cut_token-IsCut delimiters cs)
      (until_delimiter-IsUntil delimiters cs)
