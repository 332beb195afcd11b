-- ===== src/Jalv/Symap/Map.antt =====
-- symap_try_map and symap_map of symap.c against symap_unmap.
use soundcan.Base.{
  ℕ, ◌+◌, ◌-◌, ◌≤◌, ◌<◌, dec_lt, ◌≡◌, ◌≢◌, ◌∙◌, sym, ap, refl, [], ◌∷◌, arith, get_or, get_elem?,
  get_elem?_in, Bool, true, false, some, ◌==◌, if◌then◌else◌, lt-length_of_get,
  get_elem?-append_left, get_elem?-append_last,
}
use soundcan.Base.Maybe.{◌>>=◌}
use soundcan.CText.{Text, strcmp_refl, eq_of_strcmp}
use soundcan.Jalv.Symap.{
  roomy, Symap, IsValid, u32, key, symap_new, symap_search, symap_try_map, symap_map, symap_unmap,
  append_symbol,
}
use soundcan.Jalv.Symap.Search.{Located, symap_search_lem}
use soundcan.Jalv.Symap.Insert.{inserted, inserted-IsValid}

pub symap_new-IsValid : IsValid symap_new
unfolding symap_new
symap_new-IsValid = record {
  small = omega arith;
  symbols_length = refl;
  index_length = refl;
  ids = λ i h. elim h [ ];
  sorted = λ i j h k. elim k [ ];
  covered = λ k h. elim h [ ];
}

pub unmap_in :
    (m : Symap) (id : ℕ)
    → IsValid m
    → 0 < id
    → id ≤ m.size
    → symap_unmap m id ≡ some (get_or m.symbols (id - 1) [])
unfolding symap_unmap
unmap_in m id v p q = ground (arith, v.symbols_length, get_elem?_in m.symbols (id - 1) [])

pub unmap_of_get :
    (m : Symap) (k : ℕ) (t : Text)
    → IsValid m
    → get_elem? m.symbols k ≡ some t
    → symap_unmap m (k + 1) ≡ some t
unfolding symap_unmap
unmap_of_get m k t v h =
    let back : k + 1 - 1 ≡ k = omega arith in
    ground (arith, v.symbols_length, lt-length_of_get m.symbols k t h, back)

-- What an ID that has a symbol looks like.
pub in_of_unmap :
    (m : Symap) (id : ℕ) (t : Text)
    → symap_unmap m id ≡ some t
    → (0 < id) × (id ≤ m.size) × (get_elem? m.symbols (id - 1) ≡ some t)
unfolding symap_unmap
in_of_unmap m id t h = ground arith

module _ (m : Symap) (v : IsValid m) where
  -- The index entry of a mapped symbol.
  entry_of_unmap :
      (id : ℕ) (t : Text)
      → symap_unmap m id ≡ some t
      → (i : ℕ) × (i < m.size) × (get_or m.index i 0 ≡ id) × (key m i ≡ t)
  entry_of_unmap id t h =
      let (p, q, e) = in_of_unmap m id t h in
      let (i, size, f) = v.covered (id - 1) (omega arith) in
      let same : get_or m.index i 0 ≡ id = omega arith in
      (i, size, same, rw same (ground (arith, unmap_in m id v p q)))

  -- Strings that strcmp calls equal stand at one place of the index.
  same_entry : (i j : ℕ) → i < m.size → j < m.size → key m i ≡ key m j → i ≡ j
  same_entry i j hi hj e = elim (dec_lt i j) [
    | yes p ↦ absurd (ground (arith, v.sorted i j p hj, strcmp_refl (key m j)))
    | no p ↦ elim (dec_lt j i) [
      | yes q ↦ absurd (ground (arith, v.sorted j i q hi, strcmp_refl (key m j)))
      | no q ↦ omega arith
    ]
  ]

  -- In a valid map two IDs never name one symbol.
  pub unmap_injective :
      (k l : ℕ) (t : Text) → symap_unmap m k ≡ some t → symap_unmap m l ≡ some t → k ≡ l
  unmap_injective k l t h h' =
      let (i, hi, ei, ki) = entry_of_unmap k t h in
      let (j, hj, ej, kj) = entry_of_unmap l t h' in
      let same = same_entry i j hi hj (ki ∙ sym kj) in
      sym ei ∙ ap (λ n. get_or m.index n 0) same ∙ ej

  -- A symbol that the search does not find has no ID.
  pub unmap-ne_of_absent :
      (i : ℕ) (t : Text) → Located m t (i, false) → (k : ℕ) → symap_unmap m k ≢ some t
  unmap-ne_of_absent i t here k h =
      let (j, size, e, named) = entry_of_unmap k t h in
      let same = strcmp_refl t in
      elim (dec_lt j i) [
        | yes p ↦ let less = here.1 j p in ground arith
        | no p ↦ let more = here.2 j (omega arith) size in ground arith
      ]

  pub found_id :
      (i : ℕ) (t : Text)
      → Located m t (i, true)
      → (get_elem? m.index i ≡ some (get_or m.index i 0))
        × (get_or m.index i 0 ≢ 0)
        × (symap_unmap m (get_or m.index i 0) ≡ some t)
  found_id i t here =
      let (p, q) = v.ids i here.0 in
      (
        get_elem?_in m.index i 0 (omega (arith, v.index_length)),
        omega arith,
        unmap_in m (get_or m.index i 0) v p q ∙ ap some (eq_of_strcmp (key m i) t here.1),
      )

  try_of_Located :
      (t : Text) (r : ℕ × Bool)
      → symap_search m t ≡ some r
      → Located m t r
      → (id : ℕ) × (symap_try_map m t ≡ some id)
        × (id ≢ 0 → symap_unmap m id ≡ some t)
        × ((k : ℕ) → symap_unmap m k ≡ some t → k ≡ id)
  unfolding symap_try_map
  try_of_Located t (i, true) run here =
      let (read, pos, named) = found_id i t here in
      (
        get_or m.index i 0,
        rw (run, ◌>>=◌) read,
        (λ _. named),
        (λ k h. unmap_injective k (get_or m.index i 0) t h named),
      )
  try_of_Located t (i, false) run here = (
    0,
    rw (run, ◌>>=◌),
    (λ h. absurd (h refl)),
    (λ k h. absurd (unmap-ne_of_absent i t here k h)),
  )

  -- In a valid map symap_try_map ends and is the exact inverse of symap_unmap: it returns the one ID
  -- that symap_unmap takes to the string, or 0 where no ID is taken to it.
  pub symap_try_map_lem :
      (t : Text)
      → (id : ℕ) × (symap_try_map m t ≡ some id)
        × (id ≢ 0 → symap_unmap m id ≡ some t)
        × ((k : ℕ) → symap_unmap m k ≡ some t → k ≡ id)
  symap_try_map_lem t = let (r, run, here) = symap_search_lem m t v in try_of_Located t r run here

  -- What a call that had its memory leaves: a valid map in which the returned ID names the string, the
  -- old IDs name what they named, and no other string is named.
  pub record Maps (t : Text) (id : ℕ) (m' : Symap) : Type 0 where
    pub valid : IsValid m'
    pub nonzero : id ≢ 0
    pub named : symap_unmap m' id ≡ some t
    pub kept : (k : ℕ) (u : Text) → symap_unmap m k ≡ some u → symap_unmap m' k ≡ some u
    pub only : (k : ℕ) (u : Text) → symap_unmap m' k ≡ some u → u ≢ t → symap_unmap m k ≡ some u

  -- The new ID names the new string, and the others what they named.
  unmap-inserted :
      (t : Text) (i k : ℕ)
      → symap_unmap (inserted m t i) k ≡ (if k == m.size + 1 then some t else symap_unmap m k)
  unfolding symap_unmap inserted
  unmap-inserted t i k = ground (
    arith,
    v.symbols_length,
    get_elem?-append_left m.symbols (t ∷ []) (k - 1),
    get_elem?-append_last m.symbols t (k - 1),
  )

  map_of_Located :
      (t : Text) (r : ℕ × Bool)
      → m.size + 1 < u32
      → symap_search m t ≡ some r
      → Located m t r
      → (id : ℕ) × (m' : Symap) × (symap_map roomy m t ≡ some (id, m')) × Maps t id m'
  unfolding symap_map append_symbol inserted
  map_of_Located t (i, true) room run here =
      let (read, pos, named) = found_id i t here in
      (
        get_or m.index i 0,
        m,
        rw (run, ◌>>=◌, read),
        record { valid = v; nonzero = pos; named = named; kept = λ k u h. h; only = λ k u h _. h },
      )
  map_of_Located t (i, false) room run here = (
    m.size + 1,
    inserted m t i,
    rw (run, ◌>>=◌) (ground arith),
    record {
      valid = inserted-IsValid m t i v room here;
      nonzero = omega arith;
      named = ground (arith, unmap-inserted t i (m.size + 1));
      kept = λ k u h. ground (arith, unmap-inserted t i k, in_of_unmap m k u h);
      only = λ k u h ne. ground (arith, unmap-inserted t i k);
    },
  )

  -- With fewer than 2^32 - 1 symbols and memory, symap_map ends and maps the string.
  pub symap_map-Maps :
      (t : Text)
      → m.size + 1 < u32
      → (id : ℕ) × (m' : Symap) × (symap_map roomy m t ≡ some (id, m')) × Maps t id m'
  symap_map-Maps t room =
      let (r, run, here) = symap_search_lem m t v in map_of_Located t r room run here
