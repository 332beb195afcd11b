-- ===== src/Tests/SymapRuns.antt =====
-- symap.c on the strings of its own test program, as far as they show its branches.
use soundcan.Base.{ℕ, ◌≡◌, ◌<◌, ◌≢◌, refl, zero, suc, get_or, ◌≤◌, some, List, [], ◌∷◌, Bool, arith}
use soundcan.CText.{Text, strcmp, Ordering}
use soundcan.Jalv.Symap.{
  Symap, IsValid, symap_new, symap_map, symap_try_map, symap_unmap, symap_search, search_loop,
  symbol_at, append_symbol, insert_at, roomy, key,
}
use soundcan.Jalv.Symap.Search.{Located, symap_search_lem}
use soundcan.Jalv.Symap.Map.{symap_try_map_lem, symap_map-Maps, Maps}
use soundcan.Jalv.Symap.Intern.{map_all, intern_all, symap-refines-intern}

-- "hi", "by", "no"
abbrev hi : Text
hi = b'h' ∷ b'i' ∷ []

abbrev by : Text
by = b'b' ∷ b'y' ∷ []

abbrev no_text : Text
no_text = b'n' ∷ b'o' ∷ []

abbrev requests : List Text
requests = hi ∷ by ∷ hi ∷ no_text ∷ by ∷ []

symap-refines-intern_example :
    (m : Symap) × (map_all symap_new requests ≡ some ((intern_all [] requests).0, m))
    × (m.symbols ≡ (intern_all [] requests).1)
    × IsValid m
symap-refines-intern_example = symap-refines-intern requests (omega arith)

-- The map after two requests.
abbrev two : Symap
two = record { symbols = hi ∷ by ∷ []; index = 2 ∷ 1 ∷ []; size = 2 }

two_run : map_all symap_new (hi ∷ by ∷ []) ≡ some (1 ∷ 2 ∷ [], two)
unfolding map_all symap_new symap_map symap_search search_loop symbol_at strcmp append_symbol
    insert_at
two_run = refl

two_ids : (i : ℕ) → i < 2 → (0 < get_or two.index i 0) × (get_or two.index i 0 ≤ 2)
two_ids zero h = omega arith
two_ids (suc zero) h = omega arith
two_ids (suc (suc i)) h = absurd (omega arith)

two_sorted : (i j : ℕ) → i < j → j < 2 → strcmp (key two i) (key two j) ≡ Ordering.lt
unfolding strcmp
two_sorted zero zero h k = absurd (omega arith)
two_sorted zero (suc zero) h k = refl
two_sorted zero (suc (suc j)) h k = absurd (omega arith)
two_sorted (suc i) j h k = absurd (omega arith)

two_covered : (k : ℕ) → k < 2 → (i : ℕ) × (i < 2) × (get_or two.index i 0 ≡ suc k)
two_covered zero h = (1, omega arith, refl)
two_covered (suc zero) h = (0, omega arith, refl)
two_covered (suc (suc k)) h = absurd (omega arith)

two-IsValid : IsValid two
two-IsValid = record {
  small = omega arith;
  symbols_length = refl;
  index_length = refl;
  ids = two_ids;
  sorted = two_sorted;
  covered = two_covered;
}

try_hi : symap_try_map two hi ≡ some 1
unfolding symap_try_map symap_search search_loop symbol_at strcmp
try_hi = refl

symap_search_lem_example :
    (r : ℕ × Bool) × (symap_search two no_text ≡ some r) × Located two no_text r
symap_search_lem_example = symap_search_lem two no_text two-IsValid

symap_try_map_lem_example :
    (id : ℕ) × (symap_try_map two by ≡ some id)
    × (id ≢ 0 → symap_unmap two id ≡ some by)
    × ((k : ℕ) → symap_unmap two k ≡ some by → k ≡ id)
symap_try_map_lem_example = symap_try_map_lem two two-IsValid by

symap_map-Maps_example :
    (id : ℕ) × (m' : Symap) × (symap_map roomy two no_text ≡ some (id, m'))
    × Maps two two-IsValid no_text id m'
symap_map-Maps_example = symap_map-Maps two two-IsValid no_text (omega arith)
