-- ===== src/Jalv/Symap/Intern.antt =====
-- symap.c against the list of the strings met so far, in the order in which they were met.
use soundcan.Base.{
  ℕ, zero, suc, ◌+◌, ◌-◌, ◌≤◌, ◌<◌, ◌≡◌, ◌≢◌, refl, List, [], ◌∷◌, ◌++◌, arith, length, get_elem?,
  get_or, get_elem?-cons, Bool, true, false, Option, some, ◌==◌, if◌then◌else◌, ℕ_discrete, ◌&&◌,
}
use soundcan.Base.Maybe.{◌>>=◌}
use soundcan.CText.{Text, strcmp, strcmp_refl, eq_of_strcmp, Ordering}
use soundcan.Jalv.Symap.{
  Symap, Heap, roomy, IsValid, u32, symap_new, symap_search, symap_try_map, symap_map,
  append_symbol,
}
use soundcan.Jalv.Symap.Search.{Located, symap_search_lem}
use soundcan.Jalv.Symap.Insert.{inserted, inserted-IsValid}
use soundcan.Jalv.Symap.Map.{
  in_of_unmap, unmap_of_get, unmap_injective, unmap-ne_of_absent, found_id, symap_new-IsValid,
}

same : Text → Text → Bool
same s t = elim (strcmp s t) [ Ordering.eq ↦ true | _ ↦ false ]

-- The place of a string in the list, from 1, or 0.
pub position : List Text → Text → ℕ
unfolding same
position [] t = 0
position (x ∷ xs) t =
    let rest = position xs t in if same x t then 1 else if rest == 0 then 0 else rest + 1

-- One request: the string's place, after appending the string if it is new.
pub intern : List Text → Text → ℕ × List Text
intern xs t = if position xs t == 0 then (length xs + 1, xs ++ t ∷ []) else (position xs t, xs)

pub intern_all : List Text → List Text → List ℕ × List Text
intern_all xs [] = ([], xs)
intern_all xs (t ∷ ts) =
    let (id, xs') = intern xs t in let (ids, ys) = intern_all xs' ts in (id ∷ ids, ys)

-- The calls of symap_map for a list of strings, in order.
unfoldable pub map_all : Symap → List Text → Option (List ℕ × Symap)
map_all m [] = some ([], m)
map_all m (t ∷ ts) = do
  (id, m') ← symap_map roomy m t
  (ids, m'') ← map_all m' ts
  some (id ∷ ids, m'')

position_absent : (xs : List Text) (t : Text) (k : ℕ) → position xs t ≡ 0 → get_elem? xs k ≢ some t
unfolding position
position_absent [] t k e h = ground arith
position_absent (x ∷ xs) t zero e h = ground (arith, strcmp_refl x)
position_absent (x ∷ xs) t (suc k) e h = position_absent xs t k (ground arith) h

position_present :
    (xs : List Text) (t : Text) → position xs t ≢ 0 → get_elem? xs (position xs t - 1) ≡ some t
unfolding position
position_present [] t h = absurd (h refl)
position_present (x ∷ xs) t h =
    ground (arith, position_present xs t, eq_of_strcmp x t, get_elem?-cons x xs (position xs t))

position_of_unique :
    (xs : List Text) (t : Text) (id : ℕ)
    → id ≢ 0
    → get_elem? xs (id - 1) ≡ some t
    → ((k : ℕ) → get_elem? xs k ≡ some t → k + 1 ≡ id)
    → position xs t ≡ id
position_of_unique xs t id nz e only = elim (ℕ_discrete (position xs t) 0) [
  | yes z ↦ absurd (position_absent xs t (id - 1) z e)
  | no p ↦ omega (arith, only (position xs t - 1) (position_present xs t p))
]

-- symap_map returns the place of the string in the list of the strings so far, and leaves that list.
abbrev Interns : Symap → Text → Type 0
Interns m t =
    (m' : Symap) × (symap_map roomy m t ≡ some ((intern m.symbols t).0, m'))
    × (m'.symbols ≡ (intern m.symbols t).1)
    × IsValid m'
    × (m'.size ≤ m.size + 1)

step_of_Located :
    (m : Symap) (t : Text) (v : IsValid m)
    → m.size + 1 < u32
    → (r : ℕ × Bool) → symap_search m t ≡ some r
    → Located m t r
    → Interns m t
unfolding intern symap_map append_symbol inserted
step_of_Located m t v room (i, true) run here =
    let id = get_or m.index i 0 in
    let (read, nz, named) = found_id m v i t here in
    let place : position m.symbols t ≡ id =
      position_of_unique m.symbols t id nz (in_of_unmap m id t named).2
        (λ k h. unmap_injective m v (k + 1) id t (unmap_of_get m k t v h) named) in
    (m, rw (run, ◌>>=◌, read) (ground arith), ground arith, v, omega arith)
step_of_Located m t v room (i, false) run here =
    let place : position m.symbols t ≡ 0 = elim (ℕ_discrete (position m.symbols t) 0) [
      | yes z ↦ z
      | no p ↦ absurd (
          unmap-ne_of_absent m v i t here (position m.symbols t - 1 + 1)
            (unmap_of_get m (position m.symbols t - 1) t v (position_present m.symbols t p)))
    ] in
    (
      inserted m t i,
      rw (run, ◌>>=◌) (ground (arith, v.symbols_length)),
      ground arith,
      inserted-IsValid m t i v room here,
      omega arith,
    )

map_step : (m : Symap) (t : Text) → IsValid m → m.size + 1 < u32 → Interns m t
map_step m t v room =
    let (r, run, here) = symap_search_lem m t v in step_of_Located m t v room r run here

map_all-intern_all :
    (m : Symap) (ts : List Text)
    → IsValid m
    → m.size + length ts < u32
    → (m' : Symap) × (map_all m ts ≡ some ((intern_all m.symbols ts).0, m'))
      × (m'.symbols ≡ (intern_all m.symbols ts).1)
      × IsValid m'
unfolding map_all intern_all
map_all-intern_all m [] v h = (m, refl, refl, v)
map_all-intern_all m (t ∷ ts) v h =
    let (m₁, run, list, v₁, size) = map_step m t v (omega arith) in
    let (m₂, runs, lists, v₂) = map_all-intern_all m₁ ts v₁ (omega arith) in
    (m₂, rw (run, ◌>>=◌, runs, list), rw (lists, list), v₂)

-- A symap that starts empty answers any sequence of fewer than 2^32 requests, given memory, as the
-- list of strings in order of first request does, it stores exactly that list, and it ends valid.
pub symap-refines-intern :
    (ts : List Text)
    → length ts < u32
    → (m : Symap) × (map_all symap_new ts ≡ some ((intern_all [] ts).0, m))
      × (m.symbols ≡ (intern_all [] ts).1)
      × IsValid m
unfolding symap_new
symap-refines-intern ts h = map_all-intern_all symap_new ts symap_new-IsValid (omega arith)

-- Where an array cannot grow, symap_map answers as symap_try_map does, 0 for a new string, and leaves
-- the map alone.
symap_map_out_of_memory :
    (heap : Heap) (m : Symap) (t : Text)
    → heap.symbols_grow && heap.index_grow ≡ false
    → symap_map heap m t ≡ symap_try_map m t >>= (λ id. some (id, m))
unfolding symap_map symap_try_map append_symbol
symap_map_out_of_memory heap m t h = ground arith
