-- ===== src/Fluid/Tokens.antt =====
-- strtok and strtok_r of <string.h>: the runs of characters between the delimiters.
pub mod Join
pub mod Cut
use soundcan.Base.{
  ℕ, Bool, true, false, Option, none, some, List, [], ◌∷◌, ◌++◌, ◌==◌, ◌||◌, if◌then◌else◌,
}
use soundcan.CText.{Text}

abbrev pub is_delimiter : Text → ℕ → Bool
is_delimiter [] c = false
is_delimiter (d ∷ ds) c = c == d || is_delimiter ds c

-- A run that ends is a token, if it has a character.
abbrev pub end_token : Text → List Text → List Text
end_token [] tokens = tokens
end_token (c ∷ cs) tokens = (c ∷ cs) ∷ tokens

-- The tokens of a text that comes after the run `run`.
unfoldable pub tokens_from : Text → Text → Text → List Text
tokens_from delimiters run [] = end_token run []
tokens_from delimiters run (c ∷ cs) = elim (is_delimiter delimiters c) [
  | true ↦ end_token run (tokens_from delimiters [] cs)
  | false ↦ tokens_from delimiters (run ++ c ∷ []) cs
]

unfoldable pub tokens : Text → Text → List Text
tokens delimiters s = tokens_from delimiters [] s

abbrev pub first_of {ℓ} : {A : Type ℓ} → List A → Option A
first_of [] = none
first_of (x ∷ xs) = some x

-- A text up to its first delimiter.
unfoldable pub until_delimiter : Text → Text → Text
until_delimiter delimiters [] = []
until_delimiter delimiters (c ∷ cs) =
    if is_delimiter delimiters c then [] else c ∷ until_delimiter delimiters cs

-- The string that strtok leaves: it ends its first token with a terminator.
unfoldable pub cut_token : Text → Text → Text
cut_token delimiters [] = []
cut_token delimiters (c ∷ cs) =
    c
    ∷ (if is_delimiter delimiters c then cut_token delimiters cs else until_delimiter delimiters cs)
