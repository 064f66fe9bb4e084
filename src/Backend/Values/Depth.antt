-- ===== src/Backend/Values/Depth.antt =====
-- When `GetValueAsText` comes to an end: tables only go as deep as asked for, but user data are
-- followed at the same depth.
use vecoda.Base.{
  ℕ, zero, suc, ◌≢◌, ◌+◌, ◌-◌, ◌≤◌, ◌<◌, ◌≡◌, refl, ◌⊎◌, inl, inr, Bool, true, false, List, [], ◌∷◌,
  Option, none, some, arith, ltb, Text,
}
use mathlib.Core.Path.{subst}
use vecoda.Backend.Values.{
  Value, nil, thread, boolean, number, string, table, user_data, Called, missing, failed, gave,
  hangs, Heap, Node, Run, done, undefined, runs_on, Display, as_string, then_run, show_entries,
  get_table_as_text,
}
use vecoda.Backend.Values.Show.{
  last_of, show_results, show_user_data, show_value, get_value_as_text,
}

-- The computation ends, in a result or in undefined behaviour.
unfoldable pub Ends : {A : Type 0} → Run A → Type 0
Ends {A = A} r = ((a : A) × (r ≡ done a)) ⊎ (r ≡ undefined)

then_run-Ends :
    {A B : Type 0} (r : Run A) (f : A → Run B)
    → Ends r
    → ((a : A) → Ends (f a))
    → Ends (then_run r f)
unfolding Ends then_run
then_run-Ends (done a) f e g = g a
then_run-Ends undefined f e g = inr refl
then_run-Ends runs_on f (inl (a, e)) g = absurd (ground arith)
then_run-Ends runs_on f (inr e) g = absurd (ground arith)

-- What a value with results of `__towatch` stands for.
abbrev pub shown_result : List Value → Value
shown_result [] = nil
shown_result (v ∷ vs) = last_of v vs

abbrev pub budget : ℕ → ℕ → ℕ
budget w zero = 0
budget w (suc depth) = w + budget w depth

module _ {H : Type 0} where
  show_entries-Ends :
      (show : Bool → Value → Display H → Run (Display H × Node))
      → ((key : Bool) (v : Value) (d : Display H) → Ends (show key v d))
      → (entries : List (Value × Value)) (d : Display H) → Ends (show_entries show entries d)
  unfolding show_entries Ends
  show_entries-Ends show e [] d = inl (_, refl)
  show_entries-Ends show e ((k, v) ∷ rest) d = then_run-Ends (show true k d) _ (e true k d) λ key.
      then_run-Ends (show false v key.0) _ (e false v key.0) λ data_.
        then_run-Ends (show_entries show rest data_.0) _ (show_entries-Ends show e rest data_.0)
          λ more. inl (_, refl)

  get_table_as_text-Ends :
      (heap : Heap) (l : ℕ) (show : Bool → Value → Display H → Run (Display H × Node))
      (max_depth : ℕ)
      → (0 < max_depth → (key : Bool) (v : Value) (d : Display H) → Ends (show key v d))
      → (type : Text) (t : ℕ) (d : Display H)
      → Ends (get_table_as_text heap l show max_depth type t d)
  unfolding get_table_as_text Ends
  get_table_as_text-Ends heap l show zero e type t d = inl (_, refl)
  get_table_as_text-Ends heap l show (suc k) e type t d =
      let more : ltb 0 (suc k) ≡ true = ground arith in
      rw (get_table_as_text, more)
        (then_run-Ends (show_entries show (heap.entries t) d) _
          (show_entries-Ends show (e (omega arith)) (heap.entries t) d) λ all. inl (_, refl))

  show_results-Ends :
      (again : Text → Value → Display H → Run (Display H × Node)) (class : Text)
      (results : List Value) (d : Display H)
      → ((type : Text) → Ends (again type (shown_result results) d))
      → Ends (show_results again class results d)
  unfolding show_results last_of Ends as_string
  show_results-Ends again class [] d e = e class
  show_results-Ends again class (v ∷ []) d e = e class
  show_results-Ends again class (v ∷ w ∷ ws) d e =
      elim (as_string v)
        as (λ name. Ends (elim name as (λ _. Run (Display H × Node)) [
          | none ↦ undefined
          | some name ↦ again name (last_of w ws) d
        ])) [ none ↦ inr refl | some name ↦ e name ]

-- How often `__towatch` is followed from a value.
abbrev pub rank_of : (ℕ → ℕ) → Value → ℕ
rank_of rank (user_data p) = suc (rank p)
rank_of rank _ = 0

rank_of-le :
    (rank : ℕ → ℕ) (bound : ℕ)
    → ((p : ℕ) → rank p ≤ bound)
    → (v : Value) → rank_of rank v ≤ suc bound
rank_of-le rank bound bounded (user_data p) = omega (arith, bounded p)
rank_of-le rank bound bounded nil = omega arith
rank_of-le rank bound bounded thread = omega arith
rank_of-le rank bound bounded (boolean b) = omega arith
rank_of-le rank bound bounded (number n) = omega arith
rank_of-le rank bound bounded (string n) = omega arith
rank_of-le rank bound bounded (table t) = omega arith
rank_of-le rank bound bounded (Value.function s n) = omega arith

module _ {H : Type 0} (heap : Heap) (l : ℕ) where
  described :
      (again : Text → Value → Display H → Run (Display H × Node)) (as_key : Bool) (p : ℕ)
      (d : Display H)
      → heap.to_watch p ≡ missing
      → heap.to_string p ≢ hangs
      → (r : Called (Option Text)) → heap.to_string p ≡ r
      → Ends (show_user_data heap l again as_key p d)
  unfolding show_user_data Ends
  described again as_key p d e calm hangs e' = absurd (calm e')
  described again as_key p d e calm missing e' = rw (show_user_data, e, e') (inl (_, refl))
  described again as_key p d e calm (failed text) e' = rw (show_user_data, e, e') (inl (_, refl))
  described again as_key p d e calm (gave none) e' = rw (show_user_data, e, e') (inl (_, refl))
  described again as_key p d e calm (gave (some text)) e' =
      rw (show_user_data, e, e') (inl (_, refl))

  show_user_data-Ends :
      (again : Text → Value → Display H → Run (Display H × Node)) (as_key : Bool) (p : ℕ)
      (d : Display H)
      → ((vs : List Value)
          → heap.to_watch p ≡ gave vs
          → (type : Text) → Ends (again type (shown_result vs) d))
      → heap.to_watch p ≢ hangs
      → heap.to_string p ≢ hangs
      → (r : Called (List Value)) → heap.to_watch p ≡ r
      → Ends (show_user_data heap l again as_key p d)
  unfolding show_user_data Ends
  show_user_data-Ends again as_key p d f calm calm' hangs e = absurd (calm e)
  show_user_data-Ends again as_key p d f calm calm' missing e =
      described again as_key p d e calm' (heap.to_string p) refl
  show_user_data-Ends again as_key p d f calm calm' (failed text) e =
      rw (show_user_data, e) (inl (_, refl))
  show_user_data-Ends again as_key p d f calm calm' (gave vs) e =
      rw (show_user_data, e) (show_results-Ends again _ vs d (f vs e))

  module _ (rank : ℕ → ℕ) (bound : ℕ)
      (ranked : (p : ℕ) (vs : List Value)
        → heap.to_watch p ≡ gave vs
        → rank_of rank (shown_result vs) ≤ rank p)
      (bounded : (p : ℕ) → rank p ≤ bound) (watched : (p : ℕ) → heap.to_watch p ≢ hangs)
      (named : (p : ℕ) → heap.to_string p ≢ hangs) where
    show_table :
        (inside : Bool → Value → Display H → Run (Display H × Node)) (max_depth : ℕ) (type : Text)
        (t : ℕ) (d : Display H)
        → ((k : ℕ)
            → max_depth ≡ suc (suc k)
            → (key : Bool) (v : Value) (d : Display H) → Ends (inside key v d))
        → Ends (get_table_as_text heap l inside (max_depth - 1) type t d)
    show_table inside max_depth type t d e =
        get_table_as_text-Ends heap l inside (max_depth - 1)
          (λ more key v d. e (max_depth - 2) (omega (arith, more)) key v d) type t d

    -- Where the metamethods come back, with user data whose `__towatch` leads to other user data at most `bound` times in a row, showing a
    -- value comes to an end, however the tables refer to each other: the tables are followed no
    -- deeper than asked for. Fuel for `bound + 2` values at each depth, and those of the
    -- value itself, is enough.
    pub get_value_as_text-Ends :
        (fuel max_depth : ℕ) (override : Option Text) (as_key : Bool) (v : Value) (d : Display H)
        → rank_of rank v + budget (bound + 2) max_depth < fuel
        → Ends (get_value_as_text heap l fuel max_depth override as_key v d)
    unfolding get_value_as_text show_value Ends
    get_value_as_text-Ends zero max_depth override as_key v d h = absurd (omega arith)
    get_value_as_text-Ends (suc fuel) max_depth override as_key (user_data p) d h =
        show_user_data-Ends (λ type w. get_value_as_text heap l fuel max_depth (some type) as_key w)
          as_key p d
          (λ vs e type.
            get_value_as_text-Ends fuel max_depth (some type) as_key (shown_result vs) d
              (omega (arith, ranked p vs e)))
          (watched p) (named p) (heap.to_watch p) refl
    get_value_as_text-Ends (suc fuel) max_depth override as_key (table t) d h =
        show_table (λ key w. get_value_as_text heap l fuel (max_depth - 1 - 1) none key w) max_depth
          _ t d
          (λ k e key w d. get_value_as_text-Ends fuel (max_depth - 1 - 1) none key w d (
            let same : max_depth - 1 - 1 ≡ k = omega (arith, e) in
            let room : budget (bound + 2) (suc (suc k)) < suc fuel =
              subst (λ m. budget (bound + 2) m < suc fuel) e (omega (arith, h)) in
            rw same (omega (arith, room, rank_of-le rank bound bounded w))))
    get_value_as_text-Ends (suc fuel) max_depth override as_key nil d h = inl (_, refl)
    get_value_as_text-Ends (suc fuel) max_depth override as_key thread d h = inl (_, refl)
    get_value_as_text-Ends (suc fuel) max_depth override as_key (boolean b) d h = inl (_, refl)
    get_value_as_text-Ends (suc fuel) max_depth override as_key (number n) d h = inl (_, refl)
    get_value_as_text-Ends (suc fuel) max_depth override as_key (string n) d h = inl (_, refl)
    get_value_as_text-Ends (suc fuel) max_depth override as_key (Value.function s n) d h =
        inl (_, refl)
