-- ===== src/Jalv/Symap.antt =====
-- ATTIC/galv/golang/jalv/symap.c, a string interner: the symbols in the order of their IDs, and the
-- IDs in the order of their symbols.
pub mod Search
pub mod Insert
pub mod Map
pub mod Intern
use soundcan.Base.{
  ℕ, zero, suc, ◌+◌, ◌-◌, ◌/◌, ◌%◌, ◌^◌, ◌≤◌, ◌<◌, ◌≡◌, Bool, true, false, Option, none, some, List,
  [], ◌∷◌, ◌++◌, length, get_elem?, get_or, take, drop, leb, ◌==◌, if◌then◌else◌,
}
use soundcan.CText.{Text, strcmp, Ordering}
use soundcan.Base.Maybe.{◌>>=◌}

abbrev pub u32 : ℕ
u32 = 2 ^ 32

-- `struct SymapImpl`
pub record Symap : Type 0 where
  pub symbols : List Text
  pub index : List ℕ
  pub size : ℕ

unfoldable pub symap_new : Symap
symap_new = record { symbols = []; index = []; size = 0 }

-- `map->symbols[map->index[i] - 1]`; a read out of bounds is `none`.
unfoldable pub symbol_at : Symap → ℕ → Option Text
symbol_at m i = do id ← get_elem? m.index i; if id == 0 then none else get_elem? m.symbols (id - 1)

-- The `while` loop of `symap_search`. `lower + (upper - lower) / 2` is at most `upper`, so only `++i`
-- can wrap. Out of fuel is `none` too.
unfoldable pub search_loop : ℕ → Symap → Text → ℕ → ℕ → ℕ → Option (ℕ × Bool)
search_loop zero m sym lower upper i = none
search_loop (suc fuel) m sym lower upper i = elim (leb lower upper) [
  | false ↦ some (i, false)
  | true ↦
      let mid = lower + (upper - lower) / 2 in
      elim (symbol_at m mid) [
        | none ↦ none
        | some s ↦ elim (strcmp s sym) [
          | Ordering.eq ↦ some (mid, true)
          | Ordering.gt ↦ elim (mid == 0) [
            | true ↦ some (mid, false)
            | false ↦ search_loop fuel m sym lower (mid - 1) mid
          ]
          | Ordering.lt ↦ search_loop fuel m sym ((mid + 1) % u32) upper ((mid + 1) % u32)
        ]
      ]
]

-- The result is the return value and `*exact`.
unfoldable pub symap_search : Symap → Text → Option (ℕ × Bool)
symap_search m sym = if m.size == 0 then some (0, false) else do
  last ← symbol_at m (m.size - 1)
  elim (strcmp last sym) [
    | Ordering.lt ↦ some (m.size, false)
    | _ ↦ search_loop (m.size + 1) m sym 0 (m.size - 1) (m.size - 1)
  ]

unfoldable pub symap_try_map : Symap → Text → Option ℕ
symap_try_map m sym = do
  (i, exact) ← symap_search m sym
  if exact then get_elem? m.index i else some 0

-- Whether the three allocations of a call of `symap_map` succeed.
pub record Heap : Type 0 where
  pub symbols_grow : Bool
  pub index_grow : Bool
  pub copy_made : Bool

abbrev pub roomy : Heap
roomy = record { symbols_grow = true; index_grow = true; copy_made = true }

-- The `memmove` of the tail and the write at `i`.
unfoldable pub insert_at : List ℕ → ℕ → ℕ → List ℕ
insert_at xs i v = take i xs ++ v ∷ drop i xs

-- `symap_strdup` writes through the result of `malloc` unchecked: `none`.
unfoldable pub append_symbol : Heap → Symap → Text → ℕ → Option (ℕ × Symap)
append_symbol heap m sym i =
    let id = (m.size + 1) % u32 in
    if heap.symbols_grow
    then if heap.index_grow
      then if heap.copy_made
        then some (
          id,
          record { symbols = m.symbols ++ sym ∷ []; index = insert_at m.index i id; size = id },
        )
        else none
      else some (0, m)
    else some (0, m)

unfoldable pub symap_map : Heap → Symap → Text → Option (ℕ × Symap)
symap_map heap m sym = do
  (i, exact) ← symap_search m sym
  elim exact [
    | true ↦ do id ← get_elem? m.index i; some (id, m)
    | false ↦ append_symbol heap m sym i
  ]

-- `none` is NULL.
pub symap_unmap : Symap → ℕ → Option Text
symap_unmap m id =
    if id == 0 then none else if leb id m.size then get_elem? m.symbols (id - 1) else none

-- The symbol of the `i`th entry of the index, for statements.
abbrev pub key : Symap → ℕ → Text
key m i = get_or m.symbols (get_or m.index i 0 - 1) []

pub record IsValid (m : Symap) : Type 0 where
  pub small : m.size < u32
  pub symbols_length : length m.symbols ≡ m.size
  pub index_length : length m.index ≡ m.size
  pub ids : (i : ℕ) → i < m.size → (0 < get_or m.index i 0) × (get_or m.index i 0 ≤ m.size)
  pub sorted : (i j : ℕ) → i < j → j < m.size → strcmp (key m i) (key m j) ≡ Ordering.lt
  pub covered : (k : ℕ) → k < m.size → (i : ℕ) × (i < m.size) × (get_or m.index i 0 ≡ suc k)
