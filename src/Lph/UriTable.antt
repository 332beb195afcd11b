-- ===== src/Lph/UriTable.antt =====
-- ATTIC/lv2-pw-host/lph/constants.c: the numbers of URIs.
pub mod Names
use soundcan.Base.{
  ℕ, zero, suc, ◌+◌, ◌-◌, ◌%◌, ◌^◌, Bool, true, false, Option, none, some, List, [], ◌∷◌, ◌++◌,
  length, get_elem?, ltb, leb, ◌&&◌, if◌then◌else◌,
}
use soundcan.CText.{Text, strcmp}
use Prim.Native.Nat.{Ordering, lt, eq, gt}

-- spa_streq
pub spa_streq : Text → Text → Bool
spa_streq s t = elim (strcmp s t) [ lt ↦ false | eq ↦ true | gt ↦ false ]

-- The loop over the array: `i` counts the strings before. The position is from 1 on.
pub find_from : ℕ → List Text → Text → Option ℕ
find_from i [] uri = none
find_from i (p ∷ ps) uri =
    let rest = find_from (i + 1) ps uri in if spa_streq p uri then some (i + 1) else rest

-- `added` tells whether the array can take another pointer. The result is a 32 bit word.
pub uri_table_map : List Text → Text → Bool → ℕ × List Text
uri_table_map table uri added = elim (find_from 0 table uri) [
  | some i ↦ (i % 2 ^ 32, table)
  | none ↦
      let table' = if added then table ++ uri ∷ [] else table in (length table' % 2 ^ 32, table')
]

-- `none` is NULL.
pub uri_table_unmap : List Text → ℕ → Option Text
uri_table_unmap table urid =
    if ltb 0 urid && leb urid (length table) then get_elem? table (urid - 1) else none
