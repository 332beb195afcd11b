-- ===== src/Jalv/Symap/Insert.antt =====
-- The insertion of symap.c keeps the map valid.
use soundcan.Base.{
  ℕ, zero, suc, ◌+◌, ◌-◌, ◌≤◌, ◌<◌, dec_lt, ◌≡◌, refl, List, [], ◌∷◌, ◌++◌, arith, length, get_or,
  length-append, get_or-append_left, get_or-append_last, false, ◌⊎◌, inl, inr,
}
use soundcan.CText.{Text, strcmp, strcmp-gt, Ordering}
use soundcan.Jalv.Symap.{Symap, insert_at, key, IsValid, u32}
use soundcan.Jalv.Symap.Search.{Located}

length-insert_at : (xs : List ℕ) (i v : ℕ) → length (insert_at xs i v) ≡ length xs + 1
unfolding insert_at
length-insert_at [] zero v = refl
length-insert_at [] (suc i) v = refl
length-insert_at (x ∷ xs) zero v = omega arith
length-insert_at (x ∷ xs) (suc i) v = omega (arith, length-insert_at xs i v)

insert_at_before :
    (xs : List ℕ) (i v j : ℕ)
    → j < i
    → i ≤ length xs
    → get_or (insert_at xs i v) j 0 ≡ get_or xs j 0
unfolding insert_at
insert_at_before [] i v j h k = absurd (omega arith)
insert_at_before (x ∷ xs) zero v j h k = absurd (omega arith)
insert_at_before (x ∷ xs) (suc i) v zero h k = refl
insert_at_before (x ∷ xs) (suc i) v (suc j) h k =
    insert_at_before xs i v j (omega arith) (omega arith)

insert_at_self : (xs : List ℕ) (i v : ℕ) → i ≤ length xs → get_or (insert_at xs i v) i 0 ≡ v
unfolding insert_at
insert_at_self [] zero v k = refl
insert_at_self [] (suc i) v k = absurd (omega arith)
insert_at_self (x ∷ xs) zero v k = refl
insert_at_self (x ∷ xs) (suc i) v k = insert_at_self xs i v (omega arith)

insert_at_after :
    (xs : List ℕ) (i v j : ℕ)
    → i ≤ j
    → i ≤ length xs
    → get_or (insert_at xs i v) (suc j) 0 ≡ get_or xs j 0
unfolding insert_at
insert_at_after [] zero v j h k = refl
insert_at_after [] (suc i) v j h k = absurd (omega arith)
insert_at_after (x ∷ xs) zero v j h k = refl
insert_at_after (x ∷ xs) (suc i) v zero h k = absurd (omega arith)
insert_at_after (x ∷ xs) (suc i) v (suc j) h k =
    insert_at_after xs i v j (omega arith) (omega arith)

-- `map` after the insertion of `text` at `i`.
unfoldable pub inserted : Symap → Text → ℕ → Symap
inserted m text i = record {
  symbols = m.symbols ++ text ∷ [];
  index = insert_at m.index i (m.size + 1);
  size = m.size + 1;
}

module _ (m : Symap) (text : Text) (i : ℕ) (v : IsValid m) (room : m.size + 1 < u32)
    (here : Located m text (i, false)) where
  in_index : i ≤ length m.index
  in_index = omega (arith, v.index_length, here.0)

  before : (j : ℕ) → j < i → get_or (inserted m text i).index j 0 ≡ get_or m.index j 0
  unfolding inserted
  before j h = insert_at_before m.index i (m.size + 1) j h in_index

  at_place : get_or (inserted m text i).index i 0 ≡ m.size + 1
  unfolding inserted
  at_place = insert_at_self m.index i (m.size + 1) in_index

  after : (j : ℕ) → i ≤ j → get_or (inserted m text i).index (suc j) 0 ≡ get_or m.index j 0
  unfolding inserted
  after j h = insert_at_after m.index i (m.size + 1) j h in_index

  -- An old ID names its old symbol.
  old_symbol :
      (id : ℕ)
      → 0 < id
      → id ≤ m.size
      → get_or (inserted m text i).symbols (id - 1) [] ≡ get_or m.symbols (id - 1) []
  unfolding inserted
  old_symbol id p h =
      get_or-append_left m.symbols (text ∷ []) (id - 1) [] (omega (arith, v.symbols_length))

  key_before : (j : ℕ) → j < i → key (inserted m text i) j ≡ key m j
  key_before j h =
      let (p, q) = v.ids j (omega (arith, here.0)) in
      rw (before j h) (old_symbol (get_or m.index j 0) p q)

  key_at : key (inserted m text i) i ≡ text
  unfolding inserted
  key_at =
      rw (insert_at_self m.index i (m.size + 1) in_index)
        (get_or-append_last m.symbols text (m.size + 1 - 1) [] (omega (arith, v.symbols_length)))

  key_after : (j : ℕ) → i ≤ j → j < m.size → key (inserted m text i) (suc j) ≡ key m j
  key_after j h k = let (p, q) = v.ids j k in rw (after j h) (old_symbol (get_or m.index j 0) p q)

  -- An index is before the place, at it, or behind it.
  place_cases : (j : ℕ) → (j < i) ⊎ ((j ≡ i) ⊎ ((k : ℕ) × (j ≡ suc k) × (i ≤ k)))
  place_cases j = elim (dec_lt j i) [
    | yes p ↦ inl p
    | no p ↦ elim (dec_lt i j) [
      | yes q ↦ inr (inr (j - 1, omega arith, omega arith))
      | no q ↦ inr (inl (omega arith))
    ]
  ]

  ids_inserted :
      (j : ℕ)
      → j < m.size + 1
      → (0 < get_or (inserted m text i).index j 0)
        × (get_or (inserted m text i).index j 0 ≤ m.size + 1)
  ids_inserted j h = elim (place_cases j) [
    | inl p ↦ rw (before j p) (omega (arith, v.ids j (omega (arith, here.0))))
    | inr (inl e) ↦ rw (e, at_place) (omega arith)
    | inr (inr (k, e, p)) ↦ rw (e, after k p) (omega (arith, v.ids k (omega arith)))
  ]

  sorted_inserted :
      (j k : ℕ)
      → j < k
      → k < m.size + 1
      → strcmp (key (inserted m text i) j) (key (inserted m text i) k) ≡ Ordering.lt
  sorted_inserted j k h size = elim (place_cases k) [
    | inl p ↦
        rw (key_before k p, key_before j (omega arith)) (v.sorted j k h (omega (arith, here.0)))
    | inr (inl e) ↦ rw (e, key_at, key_before j (omega arith)) (here.1 j (omega arith))
    | inr (inr (k', e, p)) ↦
        let k_size : k' < m.size = omega arith in
        rw (e, key_after k' p k_size)
          (elim (place_cases j) [
            | inl q ↦ rw (key_before j q) (v.sorted j k' (omega arith) k_size)
            | inr (inl f) ↦ rw (f, key_at) (strcmp-gt (key m k') text (here.2 k' p k_size))
            | inr (inr (j', f, q)) ↦
                rw (f, key_after j' q (omega arith)) (v.sorted j' k' (omega arith) k_size)
          ])
  ]

  covered_inserted :
      (k : ℕ)
      → k < m.size + 1
      → (j : ℕ) × (j < m.size + 1) × (get_or (inserted m text i).index j 0 ≡ suc k)
  covered_inserted k h = elim (dec_lt k m.size) [
    | no p ↦ (i, omega (arith, here.0), rw at_place (omega arith))
    | yes p ↦
        let (j, j_size, e) = v.covered k p in
        elim (dec_lt j i) [
          | yes q ↦ (j, omega arith, rw (before j q) e)
          | no q ↦ (suc j, omega arith, rw (after j (omega arith)) e)
        ]
  ]

  pub inserted-IsValid : IsValid (inserted m text i)
  unfolding inserted
  inserted-IsValid = record {
    small = room;
    symbols_length = omega (arith, length-append m.symbols (text ∷ []), v.symbols_length);
    index_length = omega (arith, length-insert_at m.index i (m.size + 1), v.index_length);
    ids = ids_inserted;
    sorted = sorted_inserted;
    covered = covered_inserted;
  }
