-- ===== src/Jalv/Controls/Marked.antt =====
-- The marking of the first control of a property, in a list of controls.
use soundcan.Base.{
  ◌≡◌, ◌∙◌, refl, sym, ap, arith, Bool, true, false, ◌||◌, Option, none, some, List, [], ◌∷◌, ◌++◌,
  Bool-cases, Option-cases, inl, inr,
}
use soundcan.CText.{Text, same_text, same_text_refl, eq_of_same_text}
use soundcan.Jalv.Controls.{ControlId, set_readable}

pub same_text_comm : (u v : Text) → same_text u v ≡ same_text v u
same_text_comm u v = elim (Bool-cases (same_text u v)) [
  | inl e ↦ e ∙ sym (ap (λ w. same_text w u) (sym (eq_of_same_text u v e)) ∙ same_text_refl u)
  | inr e ↦ elim (Bool-cases (same_text v u)) [
    | inl e' ↦
        absurd
          (ground (arith, e, ap (λ w. same_text u w) (eq_of_same_text v u e'), same_text_refl u))
    | inr e' ↦ e ∙ sym e'
  ]
]

pub or_false : (b : Bool) → b ≡ (b || false)
or_false true = refl
or_false false = refl

pub or_swap : (a b c : Bool) → ((a || b) || c) ≡ (b || (a || c))
or_swap true true c = refl
or_swap true false c = refl
or_swap false true c = refl
or_swap false false c = refl

-- What set_readable finds in one list and then another.
abbrev pub or_in :
    {Node : Type 0}
    → List (ControlId Node)
    → Option (List (ControlId Node))
    → Option (List (ControlId Node))
or_in xs none = none
or_in xs (some ys) = some (xs ++ ys)

module _ {Node : Type 0} where
  pub set_readable-append_absent :
      (xs ys : List (ControlId Node)) (p : Text)
      → set_readable xs p ≡ none
      → set_readable (xs ++ ys) p ≡ or_in xs (set_readable ys p)
  unfolding set_readable
  set_readable-append_absent [] ys p h = elim (Option-cases (set_readable ys p)) [
    | inl e ↦ ground (arith, e)
    | inr (zs, e) ↦ ground (arith, e)
  ]
  set_readable-append_absent (x ∷ xs) ys p h = elim (Bool-cases (same_text x.node p)) [
    | inl same ↦ absurd (ground (arith, same, h))
    | inr differs ↦ elim (Option-cases (set_readable xs p)) [
      | inl e ↦
          let next = set_readable-append_absent xs ys p e in
          elim (Option-cases (set_readable ys p)) [
            | inl e' ↦ ground (arith, differs, next, e')
            | inr (zs, e') ↦ ground (arith, differs, next, e')
          ]
      | inr (zs, e) ↦ absurd (ground (arith, e, differs, h))
    ]
  ]

  pub set_readable-append_found :
      (xs xs' ys : List (ControlId Node)) (p : Text)
      → set_readable xs p ≡ some xs'
      → set_readable (xs ++ ys) p ≡ some (xs' ++ ys)
  unfolding set_readable
  set_readable-append_found [] xs' ys p h = absurd (ground (arith, h))
  set_readable-append_found (x ∷ xs) xs' ys p h = elim (Bool-cases (same_text x.node p)) [
    | inl same ↦ ground (arith, same, h)
    | inr differs ↦ elim (Option-cases (set_readable xs p)) [
      | inl e ↦ absurd (ground (arith, e, differs, h))
      | inr (ws, e) ↦ ground (arith, e, differs, h, set_readable-append_found xs ws ys p e)
    ]
  ]
