-- ===== src/Backend/Values/Cache.antt =====
-- The references to tables: each leads back to its table as long as the cache is kept.
use vecoda.Base.{
  true, ℕ, ◌≡◌, refl, false, List, [], ◌∷◌, Option, none, some, ◌==◌, arith, map, mem, Bool-cases,
  inl, inr, ap, ==_refl,
}
use vecoda.Backend.Values.{Heap, Display, find_entry, cache_table}

fresh-none : (k : ℕ) (m : List (ℕ × ℕ)) → mem k (map (λ e. e.0) m) ≡ false → find_entry k m ≡ none
unfolding find_entry
fresh-none k [] h = refl
fresh-none k ((j, v) ∷ m) h = ground (arith, fresh-none k m)

found_old :
    (k t : ℕ) (m : List (ℕ × ℕ)) (q u : ℕ)
    → find_entry k m ≡ none
    → find_entry q m ≡ some u
    → find_entry q ((k, t) ∷ m) ≡ some u
unfolding find_entry
found_old k t m q u new e = elim (Bool-cases (k == q)) [
  | inl same ↦ absurd (ground (arith, ap (λ x. find_entry x m) {x = k} {y = q}))
  | inr other ↦ rw other e
]

-- The reference of a table leads back to it.
unfoldable pub IsCache : {H : Type 0} → Display H → Type 0
IsCache d = (t r : ℕ) → find_entry t d.cache ≡ some r → find_entry r d.refs ≡ some t

-- What was a reference stays one, to the same table.
unfoldable pub Keeps : {H : Type 0} → Display H → Display H → Type 0
Keeps a b = (r t : ℕ) → find_entry r a.refs ≡ some t → find_entry r b.refs ≡ some t

module _ {H : Type 0} (heap : Heap) (l : ℕ) (t : ℕ) (d : Display H) (v : IsCache d)
    (kept : heap.has_ref ≡ true) where
  cached :
      (found : Option ℕ)
      → find_entry t d.cache ≡ found
      → let c = cache_table heap l t d in
        IsCache c.0
        × Keeps d c.0
        × (find_entry t c.0.cache ≡ some c.1)
        × (find_entry c.1 c.0.refs ≡ some t)
  unfolding cache_table IsCache Keeps find_entry
  cached (some r) e = rw (cache_table, e) (v, λ r t e. e, e, v t r e)
  cached none e =
      let r = heap.new_ref (map (λ e. e.0) d.refs) in
      let new : find_entry r d.refs ≡ none =
        fresh-none r d.refs (heap.new_ref-fresh (map (λ e. e.0) d.refs)) in
      rw (cache_table, e, kept)
        (
          λ u q e'. elim (Bool-cases (t == u)) [
            | inl same ↦ let hit : r ≡ q = ground (arith, e') in ground arith
            | inr other ↦
                let old : find_entry u d.cache ≡ some q = ground (arith, e') in
                found_old r t d.refs q u new (v u q old)
          ],
          λ q u e'. found_old r t d.refs q u new e',
          rw (==_refl t) refl,
          rw (==_refl r) refl,
        )

  -- A table that is cached gets a reference that leads back to it and is its own from then on; the
  -- references that were there still lead to their tables, and every table's reference leads back to
  -- it, so that no two tables share one. That was so before, and the library has a `luaL_ref`.
  pub cache_table-IsCache :
      let c = cache_table heap l t d in
      IsCache c.0
      × Keeps d c.0
      × (find_entry t c.0.cache ≡ some c.1)
      × (find_entry c.1 c.0.refs ≡ some t)
  cache_table-IsCache = cached (find_entry t d.cache) refl
