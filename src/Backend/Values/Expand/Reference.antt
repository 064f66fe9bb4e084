-- ===== src/Backend/Values/Expand/Reference.antt =====
-- A table that was shown by its reference is shown with its entries when that is expanded.
use vecoda.Base.{true, ℕ, suc, ◌≡◌, refl, false, List, ◌∷◌, Option, none, some}
use vecoda.Base.CString.{codes}
use vecoda.Backend.Evaluation.{Frame}
use vecoda.Backend.Values.{
  Value, Heap, Node, end, reference, done, Display, then_run, cache_table, get_table_as_text,
  type_name,
}
use vecoda.Backend.Values.Show.{get_value_as_text, show_value}
use vecoda.Backend.Values.Cache.{IsCache, Keeps, cache_table-IsCache}
use vecoda.Backend.Values.Expand.{nothing, expand_node}

module _ {H : Type 0} (heap : Heap) (l : ℕ) (kept : heap.has_ref ≡ true) where
  -- A table with entries, shown at the depth 1 of a variable or of a result, is shown by its reference
  -- alone; and whatever is shown after that, the reference expands to that table at the depth
  -- 2. The cache was right before, and the library has a `luaL_ref`.
  pub expand_node-reference :
      (fuel later t : ℕ) (x : Value × Value) (xs : List (Value × Value))
      (frame : Option (Frame Value Value)) (d e : Display H)
      → heap.entries t ≡ x ∷ xs
      → IsCache d
      → Keeps (cache_table heap l t d).0 e
      → let c = cache_table heap l t d in
        (get_value_as_text heap l (suc fuel) 1 none false (Value.table t) d
          ≡ done (c.0, Node.table (codes "table") end (reference c.1)))
        × (expand_node heap l later nothing c.1 frame e
            ≡ then_run
                (get_value_as_text heap l later 2 none false (Value.table t) e)
                λ r. done (r.0, some r.1))
  unfolding get_value_as_text show_value get_table_as_text expand_node Keeps type_name
  expand_node-reference fuel later t x xs frame d e es v k =
      let (_, _, _, back) = cache_table-IsCache heap l t d v kept in
      (rw es refl, rw (expand_node, k (cache_table heap l t d).1 t back) refl)
