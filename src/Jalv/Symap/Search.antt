-- ===== src/Jalv/Symap/Search.antt =====
-- What the binary search of symap.c finds.
use Prim.Native.Nat.{Ordering}
use soundcan.Base.{
  ℕ, zero, suc, ◌+◌, ◌-◌, ◌/◌, ◌≤◌, ◌<◌, dec_lt, ◌≡◌, ◌≢◌, ◌∙◌, refl, Bool, true, false, some, [],
  inl, inr, arith, get_or, get_elem?_in, leb, ◌==◌, Bool-cases, leb→le,
}
use soundcan.Base.Maybe.{◌>>=◌}
use soundcan.CText.{Text, strcmp, strcmp_trans, strcmp-gt, strcmp-lt, Ordering-cases}
use soundcan.Jalv.Symap.{Symap, symbol_at, search_loop, symap_search, key, IsValid, u32}

-- In a valid map no read of the search is out of bounds.
pub symbol_at_in : (m : Symap) (i : ℕ) → IsValid m → i < m.size → symbol_at m i ≡ some (key m i)
unfolding symbol_at
symbol_at_in m i v h =
    ground
      (arith, v.ids i, get_elem?_in m.index i 0, get_elem?_in m.symbols (get_or m.index i 0 - 1) [])

-- What a search for `sym` has found: where it is, or where it belongs.
abbrev pub Located : Symap → Text → ℕ × Bool → Type 0
Located m sym (i, true) = (i < m.size) × (strcmp (key m i) sym ≡ Ordering.eq)
Located m sym (i, false) =
    (i ≤ m.size)
    × ((j : ℕ) → j < i → strcmp (key m j) sym ≡ Ordering.lt)
    × ((j : ℕ) → i ≤ j → j < m.size → strcmp (key m j) sym ≡ Ordering.gt)

module _ (m : Symap) (sym : Text) (v : IsValid m) where
  lt_upto :
      (i : ℕ)
      → i < m.size
      → strcmp (key m i) sym ≡ Ordering.lt
      → (j : ℕ) → j < i + 1
      → strcmp (key m j) sym ≡ Ordering.lt
  lt_upto i h e j le = elim (dec_lt j i) [
    | yes p ↦ strcmp_trans (key m j) (key m i) sym (v.sorted j i p h) e
    | no p ↦ let same : j ≡ i = omega arith in rw same e
  ]

  gt_from :
      (i : ℕ)
      → strcmp (key m i) sym ≡ Ordering.gt
      → (j : ℕ) → i ≤ j
      → j < m.size
      → strcmp (key m j) sym ≡ Ordering.gt
  gt_from i e j le h = elim (dec_lt i j) [
    | yes p ↦
        strcmp-lt sym (key m j)
          (strcmp_trans sym (key m i) (key m j) (strcmp-gt (key m i) sym e) (v.sorted i j p h))
    | no p ↦ let same : j ≡ i = omega arith in rw same e
  ]

  -- The two rounds that go on.
  loop_right :
      (fuel lower upper i : ℕ) (s : Text)
      → lower ≤ upper
      → symbol_at m (lower + (upper - lower) / 2) ≡ some s
      → strcmp s sym ≡ Ordering.lt
      → lower + (upper - lower) / 2 + 1 < u32
      → search_loop (suc fuel) m sym lower upper i
        ≡ search_loop fuel m sym
            (lower + (upper - lower) / 2 + 1)
            upper
            (lower + (upper - lower) / 2 + 1)
  unfolding search_loop
  loop_right fuel lower upper i s h read c small = ground arith

  loop_left :
      (fuel lower upper i : ℕ) (s : Text)
      → lower ≤ upper
      → symbol_at m (lower + (upper - lower) / 2) ≡ some s
      → strcmp s sym ≡ Ordering.gt
      → lower + (upper - lower) / 2 ≢ 0
      → search_loop (suc fuel) m sym lower upper i
        ≡ search_loop fuel m sym lower
            (lower + (upper - lower) / 2 - 1)
            (lower + (upper - lower) / 2)
  unfolding search_loop
  loop_left fuel lower upper i s h read c small = ground arith

  -- With fuel for each round left, the loop ends with the symbol's place.
  search_loop_lem :
      (fuel lower upper i : ℕ)
      → upper + 1 < fuel + lower
      → upper < m.size
      → (upper < lower → i ≡ lower)
      → lower ≤ upper + 1
      → ((j : ℕ) → j < lower → strcmp (key m j) sym ≡ Ordering.lt)
      → ((j : ℕ) → upper < j → j < m.size → strcmp (key m j) sym ≡ Ordering.gt)
      → (r : ℕ × Bool) × (search_loop fuel m sym lower upper i ≡ some r) × Located m sym r
  unfolding search_loop
  search_loop_lem zero lower upper i hf hu hi hl below above = absurd (omega arith)
  search_loop_lem (suc fuel) lower upper i hf hu hi hl below above =
      elim (Bool-cases (leb lower upper)) [
        | inr e ↦ (
          (i, false),
          ground arith,
          (ground arith, λ j h. below j (ground arith), λ j h k. above j (ground arith) k),
        )
        | inl e ↦
            let le = leb→le lower upper e in
            let mid : ℕ = lower + (upper - lower) / 2 in
            let in_size : mid < m.size = omega arith in
            let read = symbol_at_in m mid v in_size in
            elim (Ordering-cases (strcmp (key m mid) sym)) [
              | inr (inl c) ↦ ((mid, true), ground arith, (in_size, c))
              | inl c ↦
                  let (r, run, found) =
                    search_loop_lem fuel (mid + 1) upper (mid + 1) (omega arith) hu (λ _. refl)
                      (omega arith) (lt_upto mid in_size c) above in
                  (
                    r,
                    loop_right fuel lower upper i (key m mid) (omega arith) read c
                          (omega (arith, v.small))
                        ∙ run,
                    found,
                  )
              | inr (inr c) ↦ elim (Bool-cases (mid == 0)) [
                | inl z ↦ (
                  (mid, false),
                  ground arith,
                  (omega arith, λ j h. below j (ground arith), gt_from mid c),
                )
                | inr nz ↦
                    let (r, run, found) =
                      search_loop_lem fuel lower (mid - 1) mid (ground arith) (ground arith)
                        (λ h. ground arith) (ground arith) below
                        (λ j h. gt_from mid c j (ground arith)) in
                    (
                      r,
                      loop_left fuel lower upper i (key m mid) (omega arith) read c (ground arith)
                          ∙ run,
                      found,
                    )
              ]
            ]
      ]

  -- On a valid map `symap_search` ends, and finds the symbol or where it belongs.
  pub symap_search_lem : (r : ℕ × Bool) × (symap_search m sym ≡ some r) × Located m sym r
  unfolding symap_search
  symap_search_lem = elim (Bool-cases (m.size == 0)) [
    | inl e ↦ (
      (0, false),
      rw e,
      (omega arith, λ j h. absurd (omega arith), λ j h k. absurd (ground arith)),
    )
    | inr e ↦
        let last : ℕ = m.size - 1 in
        let in_size : last < m.size = ground arith in
        let loop =
          search_loop_lem (m.size + 1) 0 last last (omega arith) in_size (λ h. absurd (omega arith))
            (omega arith) (λ j h. absurd (omega arith)) (λ j h k. absurd (omega arith)) in
        let read = symbol_at_in m last v in_size in
        elim (Ordering-cases (strcmp (key m last) sym)) [
          | inl c ↦ (
            (m.size, false),
            rw (e, read, ◌>>=◌, c),
            (
              omega arith,
              λ j h. lt_upto last in_size c j (omega arith),
              λ j h k. absurd (omega arith),
            ),
          )
          | inr (inl c) ↦ (loop.0, rw (e, read, ◌>>=◌, c) (loop.1), loop.2)
          | inr (inr c) ↦ (loop.0, rw (e, read, ◌>>=◌, c) (loop.1), loop.2)
        ]
  ]
