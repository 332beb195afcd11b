-- ===== src/Fluid/Tokens/Join.antt =====
-- What strtok makes of words that one delimiter separates.
use mathlib.Core.List.{append_assoc, append-nil}
use soundcan.Base.{ℕ, ◌≡◌, refl, sym, ap, ◌∙◌, arith, true, false, List, [], ◌∷◌, ◌++◌}
use soundcan.CText.{Text}
use soundcan.Fluid.Tokens.{is_delimiter, end_token, tokens_from, tokens}

-- A text with none of the delimiters.
abbrev pub Free : Text → Text → Type 0
Free delimiters [] = Unit {0}
Free delimiters (c ∷ cs) = (is_delimiter delimiters c ≡ false) × Free delimiters cs

abbrev pub Word : Text → Text → Type 0
Word delimiters [] = ⊥
Word delimiters (c ∷ cs) = Free delimiters (c ∷ cs)

abbrev pub Words : Text → List Text → Type 0
Words delimiters [] = Unit {0}
Words delimiters (w ∷ ws) = Word delimiters w × Words delimiters ws

-- The words with a separator between them.
abbrev pub join : ℕ → List Text → Text
join d [] = []
join d (w ∷ []) = w
join d (w ∷ v ∷ ws) = w ++ d ∷ join d (v ∷ ws)

pub Free-append : (ds xs ys : Text) → Free ds xs → Free ds ys → Free ds (xs ++ ys)
Free-append ds [] ys w w' = w'
Free-append ds (x ∷ xs) ys (h, w) w' = (h, Free-append ds xs ys w w')

pub Free-of_Word : (ds w : Text) → Word ds w → Free ds w
Free-of_Word ds [] h = absurd h
Free-of_Word ds (c ∷ cs) h = h

tokens_from_last : (ds run w : Text) → Free ds w → tokens_from ds run w ≡ end_token (run ++ w) []
unfolding tokens_from
tokens_from_last ds run [] h = ap (λ r. end_token r []) (sym (append-nil run))
tokens_from_last ds run (c ∷ cs) (h, hs) =
    let next = tokens_from_last ds (run ++ c ∷ []) cs hs in
    ground (arith, h, next, append_assoc run (c ∷ []) cs)

tokens_from_next :
    (ds run w : Text) (d : ℕ) (rest : Text)
    → Free ds w
    → is_delimiter ds d ≡ true
    → tokens_from ds run (w ++ d ∷ rest) ≡ end_token (run ++ w) (tokens ds rest)
unfolding tokens tokens_from
tokens_from_next ds run [] d rest h sep = ground (arith, sep, append-nil run)
tokens_from_next ds run (c ∷ cs) d rest (h, hs) sep =
    let next = tokens_from_next ds (run ++ c ∷ []) cs d rest hs sep in
    ground (arith, h, next, append_assoc run (c ∷ []) cs)

end_token-Word : (ds w : Text) (ws : List Text) → Word ds w → end_token w ws ≡ w ∷ ws
end_token-Word ds [] ws h = absurd h
end_token-Word ds (c ∷ cs) ws h = refl

-- The tokens of words that have no delimiter, with one delimiter between them, are the words.
pub tokens-join :
    (delimiters : Text) (d : ℕ) (words : List Text)
    → is_delimiter delimiters d ≡ true
    → Words delimiters words
    → tokens delimiters (join d words) ≡ words
unfolding tokens tokens_from
tokens-join ds d [] sep h = refl
tokens-join ds d (w ∷ []) sep (h, _) =
    tokens_from_last ds [] w (Free-of_Word ds w h) ∙ end_token-Word ds w [] h
tokens-join ds d (w ∷ v ∷ ws) sep (h, hs) =
    tokens_from_next ds [] w d (join d (v ∷ ws)) (Free-of_Word ds w h) sep
    ∙ ap (end_token w) (tokens-join ds d (v ∷ ws) sep hs)
    ∙ end_token-Word ds w (v ∷ ws) h
