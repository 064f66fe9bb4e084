-- ===== src/Backend/Values/Expand/References.antt =====
-- Every reference in a tree that is shown can be expanded.
use vecoda.Base.{
  true, ℕ, zero, suc, ◌-◌, ◌≡◌, refl, Bool, List, [], ◌∷◌, Option, none, some, Text, Bool-cases,
  inl, inr, ltb,
}
use mathlib.Core.Path.{subst}
use vecoda.Backend.Values.{
  Value, nil, thread, boolean, number, string, table, user_data, Called, missing, failed, gave,
  hangs, Heap, Node, end, Mark, unmarked, empty, reference, Run, done, undefined, Display,
  cache_table, show_entries, get_table_as_text, as_string, get_class_name_for_userdata,
}
use vecoda.Backend.Values.Show.{
  last_of, class_name, show_address, show_results, show_user_data, show_value, get_value_as_text,
}
use vecoda.Backend.Values.Cache.{IsCache, Keeps, cache_table-IsCache}
use vecoda.Backend.Values.References.{
  Leads, Refers, AllRefer, Gives, then_run-Gives, Shown, AllShown, unchanged, show_entries-Gives,
}

no_reference :
    (es : List (Value × Value)) (refs : List (ℕ × ℕ))
    → Leads refs (elim es as (λ _. Mark) [ [] ↦ empty | e ∷ rest ↦ unmarked ])
no_reference [] refs = tt
no_reference (e ∷ es) refs = tt

module _ {H : Type 0} (heap : Heap) (l : ℕ) (kept : heap.has_ref ≡ true) where
  at_depth :
      (type : Text) (t : ℕ) (d : Display H)
      → IsCache d
      → (es : List (Value × Value))
      → Shown d (elim es as (λ _. Display H × Node) [
        | [] ↦ (d, Node.table type end empty)
        | e ∷ rest ↦
            ((cache_table heap l t d).0, Node.table type end (reference (cache_table heap l t d).1))
      ])
  unfolding Refers AllRefer
  at_depth type t d c [] = (unchanged d c, (tt, tt))
  at_depth type t d c (e ∷ es) =
      let (v, k, _, back) = cache_table-IsCache heap l t d c kept in ((v, k), (tt, (t, back)))

  get_table_as_text-Gives :
      (show : Bool → Value → Display H → Run (Display H × Node))
      → ((key : Bool) (v : Value) (d : Display H) → IsCache d → Gives (Shown d) (show key v d))
      → (max_depth : ℕ) (type : Text) (t : ℕ) (d : Display H) → IsCache d
      → Gives (Shown d) (get_table_as_text heap l show max_depth type t d)
  unfolding get_table_as_text Gives Refers AllRefer
  get_table_as_text-Gives show g max_depth type t d c = elim (Bool-cases (ltb 0 max_depth)) [
    | inl more ↦
        rw (get_table_as_text, more)
          (then_run-Gives (AllShown d) (Shown d) (show_entries show (heap.entries t) d) _
            (show_entries-Gives show g (heap.entries t) d c)
            λ all s. (s.0, (s.1, no_reference (heap.entries t) all.0.refs)))
    | inr less ↦ rw (get_table_as_text, less) (at_depth type t d c (heap.entries t))
  ]

  show_address-Gives :
      (as_key : Bool) (class : Text) (p : ℕ) (d : Display H)
      → IsCache d
      → Shown d (show_address heap l as_key class p d)
  unfolding show_address Refers IsCache Keeps
  show_address-Gives as_key class p d c = elim (Bool-cases d.warned) [
    | inl e ↦ rw e ((c, λ r t e. e), tt)
    | inr e ↦ rw e ((c, λ r t e. e), tt)
  ]

  described :
      (again : Text → Value → Display H → Run (Display H × Node)) (as_key : Bool) (p : ℕ)
      (d : Display H)
      → IsCache d
      → heap.to_watch p ≡ missing
      → (r : Called (Option Text)) → heap.to_string p ≡ r
      → Gives (Shown d) (show_user_data heap l again as_key p d)
  unfolding show_user_data Gives Refers
  described again as_key p d c e hangs e' = rw (show_user_data, e, e') tt
  described again as_key p d c e missing e' =
      rw (show_user_data, e, e')
        (show_address-Gives as_key (class_name (get_class_name_for_userdata heap l p d)) p d c)
  described again as_key p d c e (failed none) e' = rw (show_user_data, e, e') (unchanged d c, tt)
  described again as_key p d c e (failed (some text)) e' =
      rw (show_user_data, e, e') (unchanged d c, tt)
  described again as_key p d c e (gave none) e' =
      rw (show_user_data, e, e')
        (show_address-Gives as_key (class_name (get_class_name_for_userdata heap l p d)) p d c)
  described again as_key p d c e (gave (some text)) e' =
      rw (show_user_data, e, e') (unchanged d c, tt)

  show_results-Gives :
      (again : Text → Value → Display H → Run (Display H × Node)) (class : Text)
      (results : List Value) (d : Display H)
      → ((type : Text) (v : Value) → Gives (Shown d) (again type v d))
      → Gives (Shown d) (show_results again class results d)
  unfolding show_results Gives as_string last_of
  show_results-Gives again class [] d g = g class nil
  show_results-Gives again class (v ∷ []) d g = g class v
  show_results-Gives again class (v ∷ w ∷ ws) d g =
      elim (as_string v)
        as (λ name. Gives (Shown d) (elim name as (λ _. Run (Display H × Node)) [
          | none ↦ undefined
          | some name ↦ again name (last_of w ws) d
        ])) [ none ↦ tt | some name ↦ g name (last_of w ws) ]

  show_user_data-Gives :
      (again : Text → Value → Display H → Run (Display H × Node)) (as_key : Bool) (p : ℕ)
      (d : Display H)
      → IsCache d
      → ((type : Text) (v : Value) → Gives (Shown d) (again type v d))
      → (r : Called (List Value)) → heap.to_watch p ≡ r
      → Gives (Shown d) (show_user_data heap l again as_key p d)
  unfolding show_user_data Gives Refers
  show_user_data-Gives again as_key p d c g hangs e = rw (show_user_data, e) tt
  show_user_data-Gives again as_key p d c g missing e =
      described again as_key p d c e (heap.to_string p) refl
  show_user_data-Gives again as_key p d c g (failed none) e =
      rw (show_user_data, e) (unchanged d c, tt)
  show_user_data-Gives again as_key p d c g (failed (some text)) e =
      rw (show_user_data, e) (unchanged d c, tt)
  show_user_data-Gives again as_key p d c g (gave vs) e =
      rw (show_user_data, e) (show_results-Gives again _ vs d g)

  shown :
      (fuel max_depth : ℕ) (override : Option Text) (as_key : Bool) (v : Value) (d : Display H)
      → IsCache d
      → Gives (Shown d) (get_value_as_text heap l fuel max_depth override as_key v d)
  unfolding get_value_as_text show_value Gives Refers
  shown zero max_depth override as_key v d c = tt
  shown (suc fuel) max_depth override as_key (user_data p) d c =
      show_user_data-Gives (λ type w. get_value_as_text heap l fuel max_depth (some type) as_key w)
        as_key p d c (λ type w. shown fuel max_depth (some type) as_key w d c) (heap.to_watch p)
        refl
  shown (suc fuel) max_depth override as_key (table t) d c =
      get_table_as_text-Gives
        (λ key w. get_value_as_text heap l fuel (max_depth - 1 - 1) none key w)
        (λ key w d c. shown fuel (max_depth - 1 - 1) none key w d c) (max_depth - 1) _ t d c
  shown (suc fuel) max_depth override as_key nil d c = (unchanged d c, tt)
  shown (suc fuel) max_depth override as_key thread d c = (unchanged d c, tt)
  shown (suc fuel) max_depth override as_key (boolean b) d c = (unchanged d c, tt)
  shown (suc fuel) max_depth override as_key (number n) d c = (unchanged d c, tt)
  shown (suc fuel) max_depth override as_key (string n) d c = (unchanged d c, tt)
  shown (suc fuel) max_depth override as_key (Value.function s n) d c = (unchanged d c, tt)

  -- Whatever value is shown, at whatever depth: every reference in the tree leads to a table afterwards, as
  -- do the references of earlier trees, each to the table that it led to; and the cache stays right:
  -- each table's reference leads back to it. The cache was right before, and the library has a
  -- `luaL_ref`.
  pub get_value_as_text-Refers :
      (fuel max_depth : ℕ) (override : Option Text) (as_key : Bool) (v : Value) (d e : Display H)
      (n : Node)
      → IsCache d
      → get_value_as_text heap l fuel max_depth override as_key v d ≡ done (e, n)
      → IsCache e × Keeps d e × Refers e.refs n
  unfolding Gives
  get_value_as_text-Refers fuel max_depth override as_key v d e n c h =
      let s = subst (Gives (Shown d)) h (shown fuel max_depth override as_key v d c) in
      (s.0.0, s.0.1, s.1)
