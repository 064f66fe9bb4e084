-- ===== src/Tests/Trees.antt =====
-- The theorems on values, in a heap with two tables that refer to each other and user data.
use vecoda.Base.{
  ℕ, suc, ◌+◌, ◌≤◌, ◌≡◌, ◌≢◌, refl, Bool, true, false, List, [], ◌∷◌, none, some, arith, mem, ◌==◌,
  if◌then◌else◌, ap,
}
use mathlib.Core.Path.{subst}
use vecoda.Base.CString.{codes}
use vecoda.Backend.Values
use vecoda.Backend.Values.{
  Value, Called, missing, failed, gave, hangs, Heap, Node, Run, done, runs_on, Display, find_entry,
  cache_table, then_run, end, reference,
}
use vecoda.Backend.Values.Show.{get_value_as_text, last_of}
use vecoda.Backend.Values.Depth.{Ends, rank_of, shown_result, get_value_as_text-Ends}
use vecoda.Backend.Values.Cache.{IsCache, Keeps, cache_table-IsCache}
use vecoda.Backend.Values.References.{Refers}
use vecoda.Backend.Values.Expand.{nothing, expand_node}
use vecoda.Backend.Values.Expand.References.{get_value_as_text-Refers}
use vecoda.Backend.Values.Expand.Reference.{expand_node-reference}
use vecoda.Tests.{demo}

abbrev above : List ℕ → ℕ
above [] = 1
above (k ∷ ks) = suc (k + above ks)

not_in : (ks : List ℕ) (n : ℕ) → above ks ≤ n → mem n ks ≡ false
not_in [] n h = refl
not_in (k ∷ ks) n h = ground (arith, not_in ks n (omega arith))

-- Table 1 holds table 2, which holds table 1; the user datum 5 is shown as table 1.
abbrev entries : ℕ → List (Value × Value)
entries t =
    if t == 1
    then (Value.string (codes "next"), Value.table 2) ∷ []
    else (if t == 2 then (Value.number (codes "1"), Value.table 1) ∷ [] else [])

abbrev heap : Heap
heap = record {
  entries = entries;
  to_watch = λ p. gave (Value.table 1 ∷ []);
  to_string = λ p. missing;
  metatable = λ p. none;
  registry = λ r. none;
  pointer = λ p. codes "0";
  wide_to_utf8 = λ t. none;
  has_ref = true;
  new_ref = above;
  new_ref-fresh = λ ks. not_in ks (above ks) (omega arith);
}

abbrev display : Display (ℕ → ℕ)
display = record { backend = demo; cache = []; refs = []; warned = false }

no_cache : IsCache display
unfolding IsCache find_entry
no_cache t r e = ground arith

abbrev results : Called (List Value) → List Value
results (gave vs) = vs
results missing = []
results (failed text) = []
results hangs = []

ranked :
    (p : ℕ) (vs : List Value) → heap.to_watch p ≡ gave vs → rank_of (λ q. 0) (shown_result vs) ≤ 0
unfolding last_of
ranked p vs e = subst (λ w. rank_of (λ q. 0) (shown_result w) ≤ 0) (ap results e) (omega arith)

abbrev comes_back : {A : Type 0} → Called A → Bool
comes_back hangs = false
comes_back other = true

watched : (p : ℕ) → heap.to_watch p ≢ hangs
watched p e = absurd (ground (arith, ap comes_back e))

named : (p : ℕ) → heap.to_string p ≢ hangs
named p e = absurd (ground (arith, ap comes_back e))

get_value_as_text-Ends_example :
    Ends (get_value_as_text heap 10 12 4 none false (Value.user_data 5) display)
get_value_as_text-Ends_example =
    get_value_as_text-Ends heap 10 (λ p. 0) 0 ranked (λ p. omega arith) watched named 12 4 none
      false (Value.user_data 5) display (omega arith)

cache_table-IsCache_example :
    let c = cache_table heap 10 2 display in
    IsCache c.0
    × Keeps display c.0
    × (find_entry 2 c.0.cache ≡ some c.1)
    × (find_entry c.1 c.0.refs ≡ some 2)
cache_table-IsCache_example = cache_table-IsCache heap 10 2 display no_cache refl

-- Table 1 at the depth 2: its entry, with a reference to table 2.
abbrev cached : Display (ℕ → ℕ)
cached = (cache_table heap 10 2 display).0

abbrev tree : Node
tree =
    Node.table (codes "table")
      (Values.element (Node.value (codes "next") (codes "string"))
        (Node.table (codes "table") end (reference 1)) end)
      Values.unmarked

tree_shown : get_value_as_text heap 10 9 2 none false (Value.table 1) display ≡ done (cached, tree)
unfolding get_value_as_text
tree_shown = refl

get_value_as_text-Refers_example : IsCache cached × Keeps display cached × Refers cached.refs tree
get_value_as_text-Refers_example =
    get_value_as_text-Refers heap 10 refl 9 2 none false (Value.table 1) display cached tree
      no_cache tree_shown

kept : Keeps cached cached
unfolding Keeps
kept r t e = e

expand_node-reference_example :
    let c = cache_table heap 10 2 display in
    (get_value_as_text heap 10 5 1 none false (Value.table 2) display
      ≡ done (c.0, Node.table (codes "table") end (reference c.1)))
    × (expand_node heap 10 9 nothing c.1 none c.0
        ≡ then_run
            (get_value_as_text heap 10 9 2 none false (Value.table 2) c.0)
            λ r. done (r.0, some r.1))
expand_node-reference_example =
    expand_node-reference heap 10 refl 4 9 2 (Value.number (codes "1"), Value.table 1) [] none
      display cached refl no_cache kept
