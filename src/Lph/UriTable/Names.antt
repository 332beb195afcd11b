-- ===== src/Lph/UriTable/Names.antt =====
-- A number names its URI.
use soundcan.Base.{
  dec_lt, ℕ, suc, ◌+◌, ◌-◌, ◌%◌, ◌^◌, ◌≡◌, ◌≤◌, ◌<◌, ◌∙◌, ap, arith, true, none, some, List, [],
  ◌∷◌, ◌++◌, length, length-append, get_elem?, get_elem?-append_left, get_elem?-append_last,
  Bool-cases, Option-cases, inl, inr,
}
use soundcan.CText.{Text, strcmp, eq_of_strcmp, Ordering-cases}
use soundcan.Lph.UriTable.{spa_streq, find_from, uri_table_map, uri_table_unmap}

streq_eq : (s t : Text) → spa_streq s t ≡ true → s ≡ t
unfolding spa_streq
streq_eq s t h = elim (Ordering-cases (strcmp s t)) [
  | inl e ↦ ground arith
  | inr (inl e) ↦ eq_of_strcmp s t e
  | inr (inr e) ↦ ground arith
]

-- What the loop finds is the URI.
found :
    (i : ℕ) (table : List Text) (uri : Text) (k : ℕ)
    → find_from i table uri ≡ some k
    → (i < k) × (k ≤ i + length table) × (get_elem? table (k - i - 1) ≡ some uri)
unfolding find_from
found i [] uri k h = ground arith
found i (p ∷ ps) uri k h = elim (Bool-cases (spa_streq p uri)) [
  | inl e ↦
      let here : i + 1 ≡ k = ground arith in
      let first : k - i - 1 ≡ 0 = omega arith in
      (omega arith, omega arith, ap (get_elem? (p ∷ ps)) first ∙ ap some (streq_eq p uri e))
  | inr e ↦
      let (lower, upper, at) = found (i + 1) ps uri k (ground arith) in
      let later : k - i - 1 ≡ suc (k - (i + 1) - 1) = omega arith in
      (omega arith, omega arith, ap (get_elem? (p ∷ ps)) later ∙ at)
]

unmap_valid :
    (table : List Text) (urid : ℕ) (uri : Text)
    → 0 < urid
    → urid ≤ length table
    → get_elem? table (urid - 1) ≡ some uri
    → uri_table_unmap table urid ≡ some uri
unfolding uri_table_unmap
unmap_valid table urid uri pos h e = ground (arith, e)

unmap-append :
    (table : List Text) (uri : Text) (k : ℕ)
    → k ≤ length table
    → uri_table_unmap (table ++ uri ∷ []) k ≡ uri_table_unmap table k
unfolding uri_table_unmap
unmap-append table uri k h = elim (dec_lt 0 k) [
  | yes p ↦ ground (
    arith,
    length-append table (uri ∷ []),
    get_elem?-append_left table (uri ∷ []) (k - 1) (omega arith),
  )
  | no p ↦ ground arith
]

map_found :
    (table : List Text) (uri : Text) (i : ℕ)
    → find_from 0 table uri ≡ some i
    → uri_table_map table uri true ≡ (i % 2 ^ 32, table)
unfolding uri_table_map
map_found table uri i e = ground (arith, e)

map_new :
    (table : List Text) (uri : Text)
    → find_from 0 table uri ≡ none
    → uri_table_map table uri true ≡ (length (table ++ uri ∷ []) % 2 ^ 32, table ++ uri ∷ [])
unfolding uri_table_map
map_new table uri e = ground (arith, e)

-- The number that uri_table_map returns, if the array can grow, is one that uri_table_unmap takes to
-- the URI, and no number that was given before changes its URI. There are fewer than 2^32 - 1 URIs.
pub uri_table_map-unmap :
    (table : List Text) (uri : Text) (k : ℕ)
    → length table + 1 < 2 ^ 32
    → k ≤ length table
    → (uri_table_unmap ((uri_table_map table uri true).1) ((uri_table_map table uri true).0)
        ≡ some uri)
      × (uri_table_unmap ((uri_table_map table uri true).1) k ≡ uri_table_unmap table k)
uri_table_map-unmap table uri k h hk = elim (Option-cases (find_from 0 table uri)) [
  | inl e ↦
      let n = length (table ++ uri ∷ []) in
      let size : n ≡ length table + 1 = length-append table (uri ∷ []) in
      let run = map_new table uri e in
      let small : n % 2 ^ 32 ≡ n = omega (arith, size) in
      let last = get_elem?-append_last table uri (n % 2 ^ 32 - 1) (omega (arith, size, small)) in
      (
        ap (λ (r : ℕ × List Text). uri_table_unmap (r.1) (r.0)) run
            ∙ unmap_valid (table ++ uri ∷ []) (n % 2 ^ 32) uri (omega (arith, size, small))
                (omega (arith, small)) last,
        ap (λ (r : ℕ × List Text). uri_table_unmap (r.1) k) run ∙ unmap-append table uri k hk,
      )
  | inr (i, e) ↦
      let (lower, upper, at) = found 0 table uri i e in
      let run = map_found table uri i e in
      let same : i - 1 ≡ i - 0 - 1 = omega arith in
      let small : i % 2 ^ 32 ≡ i = omega arith in
      (
        ap (λ (r : ℕ × List Text). uri_table_unmap (r.1) (r.0)) run
            ∙ ap (uri_table_unmap table) small
            ∙ unmap_valid table i uri lower (omega (arith, upper)) (ap (get_elem? table) same ∙ at),
        ap (λ (r : ℕ × List Text). uri_table_unmap (r.1) k) run,
      )
]
