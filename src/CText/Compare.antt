-- ===== src/CText/Compare.antt =====
-- strcmp of <string.h>, as the sign of its result, and the order that it is.
use Prim.Native.Nat.{compare, Ordering}
use soundcan.Base.{◌⊎◌, inl, inr, ℕ, ◌≡◌, refl, List, [], ◌∷◌, arith}

abbrev pub Text : Type 0
Text = List ℕ

-- Negative, zero and positive are `lt`, `eq` and `gt`.
unfoldable pub strcmp : Text → Text → Ordering
strcmp [] [] = Ordering.eq
strcmp [] (y ∷ t) = Ordering.lt
strcmp (x ∷ s) [] = Ordering.gt
strcmp (x ∷ s) (y ∷ t) = elim (compare x y) [
  | Ordering.lt ↦ Ordering.lt
  | Ordering.gt ↦ Ordering.gt
  | Ordering.eq ↦ strcmp s t
]

pub strcmp_refl : (s : Text) → strcmp s s ≡ Ordering.eq
unfolding strcmp
strcmp_refl [] = refl
strcmp_refl (x ∷ s) = ground (arith, strcmp_refl s)

pub eq_of_strcmp : (s t : Text) → strcmp s t ≡ Ordering.eq → s ≡ t
unfolding strcmp
eq_of_strcmp [] [] h = refl
eq_of_strcmp [] (y ∷ t) h = ground arith
eq_of_strcmp (x ∷ s) [] h = ground arith
eq_of_strcmp (x ∷ s) (y ∷ t) h = ground (arith, eq_of_strcmp s t)

pub strcmp_trans :
    (s t u : Text) → strcmp s t ≡ Ordering.lt → strcmp t u ≡ Ordering.lt → strcmp s u ≡ Ordering.lt
unfolding strcmp
strcmp_trans [] [] u h k = ground arith
strcmp_trans [] (y ∷ t) [] h k = ground arith
strcmp_trans [] (y ∷ t) (z ∷ u) h k = refl
strcmp_trans (x ∷ s) [] u h k = ground arith
strcmp_trans (x ∷ s) (y ∷ t) [] h k = ground arith
strcmp_trans (x ∷ s) (y ∷ t) (z ∷ u) h k = ground (arith, strcmp_trans s t u)

pub strcmp-gt : (s t : Text) → strcmp s t ≡ Ordering.gt → strcmp t s ≡ Ordering.lt
unfolding strcmp
strcmp-gt [] [] h = ground arith
strcmp-gt [] (y ∷ t) h = ground arith
strcmp-gt (x ∷ s) [] h = refl
strcmp-gt (x ∷ s) (y ∷ t) h = ground (arith, strcmp-gt s t)

pub strcmp-lt : (s t : Text) → strcmp s t ≡ Ordering.lt → strcmp t s ≡ Ordering.gt
unfolding strcmp
strcmp-lt [] [] h = ground arith
strcmp-lt [] (y ∷ t) h = refl
strcmp-lt (x ∷ s) [] h = ground arith
strcmp-lt (x ∷ s) (y ∷ t) h = ground (arith, strcmp-lt s t)

pub Ordering-cases : (o : Ordering) → (o ≡ Ordering.lt) ⊎ ((o ≡ Ordering.eq) ⊎ (o ≡ Ordering.gt))
Ordering-cases Ordering.lt = inl refl
Ordering-cases Ordering.eq = inr (inl refl)
Ordering-cases Ordering.gt = inr (inr refl)
