-- ===== src/CText/Words.antt =====
-- Literals as C strings, and the test that two C strings are the same.
use Prim.Native.Char.{code}
use Prim.Native.Nat.{Ordering}
use Prim.Native.String.{String}
use soundcan.Base.{◌≡◌, Bool, true, false, [], ◌∷◌, arith, inl, inr}
use soundcan.CText.Compare.{Text, strcmp, strcmp_refl, eq_of_strcmp, Ordering-cases}

abbrev pub text : String → Text
text String.[] = []
text (String.◌∷◌ c s) = code c ∷ text s

-- `!strcmp(s, t)`
unfoldable pub same_text : Text → Text → Bool
unfolding strcmp
same_text s t = elim (strcmp s t) [ Ordering.lt ↦ false | Ordering.eq ↦ true | Ordering.gt ↦ false ]

pub same_text_refl : (s : Text) → same_text s s ≡ true
unfolding same_text
same_text_refl s = ground (arith, strcmp_refl s)

pub eq_of_same_text : (s t : Text) → same_text s t ≡ true → s ≡ t
unfolding same_text
eq_of_same_text s t h = elim (Ordering-cases (strcmp s t)) [
  | inl e ↦ ground arith
  | inr (inl e) ↦ eq_of_strcmp s t e
  | inr (inr e) ↦ ground arith
]
