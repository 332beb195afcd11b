-- ===== src/Jalv/Controls/Created.antt =====
-- The controls of the properties of a plugin.
use mathlib.Core.List.{append_assoc, append-nil}
use soundcan.Base.{
  ℕ, ◌≡◌, ◌∙◌, refl, sym, ap, arith, Bool, true, false, not, ◌&&◌, ◌||◌, none, some, List, [], ◌∷◌,
  ◌++◌, ◌==◌, Bool-cases, inl, inr, if◌then◌else◌,
}
use soundcan.CText.{Text, same_text, eq_of_same_text}
use soundcan.Jalv.Controls.{
  ControlId, ForgeTypes, PropertyAnswers, new_property_control, add_control_id, set_readable,
  add_property, create_control, create_all, jalv_create_controls,
}
use soundcan.Jalv.Controls.Marked.{
  same_text_comm, or_false, or_swap, set_readable-append_absent, set_readable-append_found,
}

abbrev pub is_member : Text → List Text → Bool
is_member u [] = false
is_member u (v ∷ vs) = same_text u v || is_member u vs

-- No text stands in the list twice.
abbrev pub is_distinct : List Text → Bool
is_distinct [] = true
is_distinct (u ∷ us) = not (is_member u us) && is_distinct us

module _ {Node : Type 0} (answers : PropertyAnswers Node) (urid : Text → ℕ)
    (forge : ForgeTypes) where
  abbrev control_of : Text → ControlId Node
  control_of uri = new_property_control answers urid forge uri

  -- The type of a property is one of those that are looked for.
  abbrev pub is_known : Text → Bool
  is_known uri = not ((control_of uri).value_type == 0)

  -- The controls of writable properties, of which those of `readable` are readable too.
  abbrev pub writable_controls : (Text → Bool) → List Text → List (ControlId Node)
  writable_controls readable [] = []
  writable_controls readable (u ∷ us) =
      let rest = writable_controls readable us in
      if is_known u
      then record (control_of u) { is_writable = true; is_readable = readable u } ∷ rest
      else rest

  -- The controls of the properties that are readable only.
  abbrev pub readable_controls : List Text → List (ControlId Node)
  readable_controls [] = []
  readable_controls (u ∷ us) =
      let rest = readable_controls us in
      if is_known u && not (answers.ask u)
      then record (control_of u) { is_readable = true } ∷ rest
      else rest

  create_all-writable_controls :
      (old : List (ControlId Node)) (us : List Text)
      → create_all answers urid forge true true old us ≡ old ++ writable_controls (λ u. false) us
  unfolding create_all create_control add_property add_control_id new_property_control
  create_all-writable_controls old [] = sym (append-nil old)
  create_all-writable_controls old (u ∷ us) =
      let c = record (control_of u) { is_writable = true; is_readable = false } in
      let known = create_all-writable_controls (old ++ c ∷ []) us in
      let other = create_all-writable_controls old us in
      let join = append_assoc old (c ∷ []) (writable_controls (λ u. false) us) in
      elim (Bool-cases (is_known u)) [
        | inl e ↦ ground (arith, e, known, join)
        | inr e ↦ ground (arith, e, other)
      ]

  -- Readable, or the property `p`.
  abbrev also : Text → (Text → Bool) → Text → Bool
  also p readable u = same_text u p || readable u

  also_unknown :
      (f : Text → Bool) (us : List Text) (p : Text)
      → is_known p ≡ false
      → writable_controls (also p f) us ≡ writable_controls f us
  also_unknown f [] p h = refl
  also_unknown f (u ∷ us) p h =
      let next = also_unknown f us p h in
      elim (Bool-cases (same_text u p)) [
        | inl same ↦ let e = ap is_known (eq_of_same_text u p same) in ground (arith, e, h, next)
        | inr differs ↦ elim (Bool-cases (is_known u)) [
          | inl k ↦ ground (arith, differs, next, k)
          | inr k ↦ ground (arith, differs, next, k)
        ]
      ]

  also_absent :
      (f : Text → Bool) (us : List Text) (p : Text)
      → is_member p us ≡ false
      → writable_controls (also p f) us ≡ writable_controls f us
  also_absent f [] p h = refl
  also_absent f (u ∷ us) p h =
      let comm = same_text_comm u p in
      let differs : same_text u p ≡ false = ground (arith, comm, h) in
      let next = also_absent f us p (ground (arith, h)) in
      elim (Bool-cases (is_known u)) [
        | inl k ↦ ground (arith, differs, next, k)
        | inr k ↦ ground (arith, differs, next, k)
      ]

  set_readable_unknown :
      (f : Text → Bool) (us : List Text) (p : Text)
      → is_known p ≡ false
      → set_readable (writable_controls f us) p ≡ none
  unfolding set_readable new_property_control
  set_readable_unknown f [] p h = refl
  set_readable_unknown f (u ∷ us) p h =
      let next = set_readable_unknown f us p h in
      elim (Bool-cases (same_text u p)) [
        | inl same ↦ let e = ap is_known (eq_of_same_text u p same) in ground (arith, e, h, next)
        | inr differs ↦ elim (Bool-cases (is_known u)) [
          | inl k ↦ ground (arith, differs, next, k)
          | inr k ↦ ground (arith, differs, next, k)
        ]
      ]

  set_readable-also :
      (f : Text → Bool) (us : List Text) (p : Text)
      → is_known p ≡ true
      → is_distinct us ≡ true
      → is_member p us ≡ true
      → set_readable (writable_controls f us) p ≡ some (writable_controls (also p f) us)
  unfolding set_readable new_property_control
  set_readable-also f [] p k d m = absurd (ground (arith, m))
  set_readable-also f (u ∷ us) p k d m =
      let comm = same_text_comm u p in
      elim (Bool-cases (same_text u p)) [
        | inl same ↦
            let e = eq_of_same_text u p same in
            let gone : is_member p us ≡ false =
              ap (λ v. is_member v us) (sym e) ∙ ground (arith, d) in
            let known : is_known u ≡ true = ap is_known e ∙ k in
            let rest = also_absent f us p gone in ground (arith, same, known, rest)
        | inr differs ↦
            let next =
              set_readable-also f us p k (ground (arith, d)) (ground (arith, m, comm, differs)) in
            elim (Bool-cases (is_known u)) [
              | inl known ↦ ground (arith, differs, next, known)
              | inr unknown ↦ ground (arith, differs, next, unknown)
            ]
      ]

  -- The plugin does not have the properties of these controls as writable ones.
  AllUnasked : List (ControlId Node) → Type 0
  AllUnasked [] = Unit {0}
  AllUnasked (c ∷ cs) = (answers.ask c.node ≡ false) × AllUnasked cs

  unasked_absent :
      (rs : List (ControlId Node)) (p : Text)
      → AllUnasked rs
      → answers.ask p ≡ true
      → set_readable rs p ≡ none
  unfolding set_readable AllUnasked
  unasked_absent [] p w h = refl
  unasked_absent (c ∷ cs) p (w, ws) h =
      let next = unasked_absent cs p ws h in
      elim (Bool-cases (same_text c.node p)) [
        | inl same ↦
            let e = ap answers.ask (eq_of_same_text c.node p same) in ground (arith, e, w, h, next)
        | inr differs ↦ ground (arith, differs, next)
      ]

  -- The control of a property that is readable only.
  abbrev only_readable : Text → List (ControlId Node)
  only_readable p =
      if is_known p && not (answers.ask p)
      then record (control_of p) { is_readable = true } ∷ []
      else []

  add_property-only_readable :
      (cs : List (ControlId Node)) (p : Text)
      → answers.ask p ≡ false
      → add_property answers urid forge true false cs p ≡ cs ++ only_readable p
  unfolding add_property add_control_id new_property_control
  add_property-only_readable cs p h = elim (Bool-cases (is_known p)) [
    | inl k ↦ ground (arith, k, h)
    | inr k ↦ ground (arith, k, h, append-nil cs)
  ]

  add_property_unknown :
      (cs : List (ControlId Node)) (p : Text)
      → is_known p ≡ false
      → add_property answers urid forge true false cs p ≡ cs
  unfolding add_property new_property_control
  add_property_unknown cs p h = ground (arith, h)

  create_control-also :
      (old rs : List (ControlId Node)) (f : Text → Bool) (ws : List Text) (p : Text)
      → is_distinct ws ≡ true
      → answers.ask p ≡ is_member p ws
      → set_readable old p ≡ none
      → AllUnasked rs
      → create_control answers urid forge true false (old ++ (writable_controls f ws ++ rs)) p
        ≡ old ++ (writable_controls (also p f) ws ++ (rs ++ only_readable p))
  unfolding create_control
  create_control-also old rs f ws p distinct asks absent unasked =
      let cs = writable_controls f ws in
      let skip = set_readable-append_absent old (cs ++ rs) p absent in
      let add = add_property-only_readable (old ++ (cs ++ rs)) p in
      elim (Bool-cases (answers.ask p)) [
        | inl yes_ ↦ elim (Bool-cases (is_known p)) [
          | inl k ↦
              let found = set_readable-also f ws p k distinct (sym asks ∙ yes_) in
              let here =
                set_readable-append_found cs (writable_controls (also p f) ws) rs p found in
              ground (arith, yes_, k, skip, here, append-nil rs)
          | inr k ↦
              let none_here = set_readable_unknown f ws p k in
              let on = set_readable-append_absent cs rs p none_here in
              let none_there = unasked_absent rs p unasked yes_ in
              let same = also_unknown f ws p k in
              let kept = add_property_unknown (old ++ (cs ++ rs)) p k in
              ground (arith, yes_, k, skip, on, none_there, same, kept, append-nil rs)
        ]
        | inr no_ ↦
            let same = also_absent f ws p (sym asks ∙ no_) in
            let added = add no_ in
            let join = append_assoc old (cs ++ rs) (only_readable p) in
            let join' = append_assoc cs rs (only_readable p) in
            ground (arith, no_, same, added, join, join')
      ]

  writable_controls-eq :
      (f g : Text → Bool) (us : List Text)
      → ((u : Text) → f u ≡ g u)
      → writable_controls f us ≡ writable_controls g us
  writable_controls-eq f g [] h = refl
  writable_controls-eq f g (u ∷ us) h =
      let here = h u in
      let next = writable_controls-eq f g us h in
      elim (Bool-cases (is_known u)) [
        | inl k ↦ ground (arith, here, next, k)
        | inr k ↦ ground (arith, next, k)
      ]

  one_unasked :
      (b : Bool) (c : ControlId Node)
      → (b ≡ true → answers.ask c.node ≡ false)
      → AllUnasked (if b then c ∷ [] else [])
  unfolding AllUnasked
  one_unasked true c h = (h refl, tt)
  one_unasked false c h = tt

  only_readable-AllUnasked :
      (rs : List (ControlId Node)) (p : Text) → AllUnasked rs → AllUnasked (rs ++ only_readable p)
  unfolding AllUnasked new_property_control
  only_readable-AllUnasked [] p w =
      one_unasked (is_known p && not (answers.ask p)) (record (control_of p) { is_readable = true })
        (λ e. ground (arith, e))
  only_readable-AllUnasked (c ∷ cs) p (w, ws) = (w, only_readable-AllUnasked cs p ws)

  readable_controls-only_readable :
      (p : Text) (us : List Text)
      → readable_controls (p ∷ us) ≡ only_readable p ++ readable_controls us
  readable_controls-only_readable p us = elim (Bool-cases (is_known p && not (answers.ask p))) [
    | inl e ↦ ground (arith, e)
    | inr e ↦ ground (arith, e)
  ]

  -- None of the properties has a control.
  abbrev pub AllAbsent : List (ControlId Node) → List Text → Type 0
  AllAbsent old [] = Unit {0}
  AllAbsent old (p ∷ ps) = (set_readable old p ≡ none) × AllAbsent old ps

  create_all-readable_controls :
      (old rs : List (ControlId Node)) (f : Text → Bool) (ws ps : List Text)
      → is_distinct ws ≡ true
      → ((u : Text) → answers.ask u ≡ is_member u ws)
      → AllAbsent old ps
      → AllUnasked rs
      → create_all answers urid forge true false (old ++ (writable_controls f ws ++ rs)) ps
        ≡ old ++ (writable_controls (λ u. f u || is_member u ps) ws ++ (rs ++ readable_controls ps))
  unfolding create_all
  create_all-readable_controls old rs f ws [] distinct asks absent unasked =
      let same = writable_controls-eq f (λ u. f u || false) ws (λ u. or_false (f u)) in
      ground (arith, same, append-nil rs)
  create_all-readable_controls old rs f ws (p ∷ ps) distinct asks (absent, all_absent) unasked =
      let here = create_control-also old rs f ws p distinct (asks p) absent unasked in
      let next =
        create_all-readable_controls old (rs ++ only_readable p) (also p f) ws ps distinct asks
          all_absent (only_readable-AllUnasked rs p unasked) in
      let same =
        writable_controls-eq (λ u. also p f u || is_member u ps) (λ u. f u || is_member u (p ∷ ps))
          ws (λ u. or_swap (same_text u p) (f u) (is_member u ps)) in
      let split = readable_controls-only_readable p ps in
      let join = append_assoc rs (only_readable p) (readable_controls ps) in
      ground (arith, here, next, same, split, join)

  -- jalv_create_controls, for the writable properties and then for the readable ones, adds a control for
  -- each property of a known type: first the writable ones, which are readable too exactly if they are
  -- among the readable, and then those that are readable only, each in its order. The arrays can grow,
  -- no writable property is listed twice, asking for one agrees with the list, and no readable property
  -- has a control before.
  pub jalv_create_controls-readable_controls :
      (old : List (ControlId Node))
      → is_distinct answers.writable ≡ true
      → ((u : Text) → answers.ask u ≡ is_member u answers.writable)
      → AllAbsent old answers.readable
      → jalv_create_controls answers urid forge true false
          (jalv_create_controls answers urid forge true true old)
        ≡ old
          ++ (writable_controls (λ u. is_member u answers.readable) answers.writable
              ++ readable_controls answers.readable)
  unfolding jalv_create_controls AllUnasked
  jalv_create_controls-readable_controls old distinct asks absent =
      let first = create_all-writable_controls old answers.writable in
      let second =
        create_all-readable_controls old [] (λ u. false) answers.writable answers.readable distinct
          asks absent tt in
      let no_more = append-nil (writable_controls (λ u. false) answers.writable) in
      ground (arith, first, second, no_more)
