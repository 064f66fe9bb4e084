-- ===== src/Backend/Evaluation/Scope.antt =====
-- Variables of a frame by their names, where a later one hides an earlier one of its name.
use vecoda.Base.{
  ◌≡◌, refl, Bool, true, false, not, ◌&&◌, List, [], ◌∷◌, Option, none, some, Text, text_eq,
  text_eq-eq, text_eq_refl, if◌then◌else◌, is_some, Bool-cases, Option-cases, inl, inr, arith, ap,
  All,
}
use vecoda.Backend.Evaluation.{get_is_internal_variable}

-- The last variable of a name, among those whose names count.
unfoldable pub visible : {V : Type 0} → (Text → Bool) → Text → List (Text × V) → Option V
visible shown n [] = none
visible shown n ((m, v) ∷ vars) = elim (visible shown n vars) [
  | some w ↦ some w
  | none ↦ if shown m && text_eq m n then some v else none
]

-- An assignment to the variables of a name.
unfoldable pub assign_var :
    {V : Type 0} → (Text → Bool) → Text → V → List (Text × V) → List (Text × V)
assign_var shown n new [] = []
assign_var shown n new ((m, v) ∷ vars) =
    (m, if shown m && text_eq m n then new else v) ∷ assign_var shown n new vars

-- No variable is hidden by a later one of its name.
unfoldable pub Unshadowed : {V : Type 0} → (Text → Bool) → List (Text × V) → Type 0
Unshadowed shown [] = Unit
Unshadowed shown ((m, v) ∷ vars) =
    ((shown m && is_some (visible shown m vars)) ≡ false) × Unshadowed shown vars

abbrev pub is_local : Text → Bool
is_local name = not (get_is_internal_variable name)

pub text_eq_sym : (xs ys : Text) → text_eq xs ys ≡ text_eq ys xs
unfolding text_eq
text_eq_sym [] [] = refl
text_eq_sym [] (y ∷ ys) = refl
text_eq_sym (x ∷ xs) [] = refl
text_eq_sym (x ∷ xs) (y ∷ ys) = ground (arith, text_eq_sym xs ys)

module _ {V : Type 0} (shown : Text → Bool) where
  pub visible-assign_var :
      (n m : Text) (new : V) (vars : List (Text × V))
      → visible shown m (assign_var shown n new vars)
        ≡ (if is_some (visible shown m vars) && text_eq m n then some new else visible shown m vars)
  unfolding visible assign_var
  visible-assign_var n m new [] = refl
  visible-assign_var n m new ((k, v) ∷ vars) = elim (Option-cases (visible shown m vars)) [
    | inl e ↦ elim (Bool-cases (shown k && text_eq k m)) [
      | inl here ↦
          let same : k ≡ m = text_eq-eq k m (ground arith) in
          let hidden : visible shown m (assign_var shown n new vars) ≡ none =
            ground (arith, visible-assign_var n m new vars) in
          let test : (shown k && text_eq k n) ≡ text_eq m n =
            ground (arith, ap (λ x. text_eq x n) same) in
          rw (hidden, e, here, test) (ground arith)
      | inr away ↦
          let hidden : visible shown m (assign_var shown n new vars) ≡ none =
            ground (arith, visible-assign_var n m new vars) in
          rw (hidden, e, away) refl
    ]
    | inr (w, e) ↦ elim (Bool-cases (text_eq m n)) [
      | inl hit ↦ rw (visible-assign_var n m new vars, e, hit) refl
      | inr miss ↦ rw (visible-assign_var n m new vars, e, miss) refl
    ]
  ]

  declared-assign_var :
      (n m : Text) (new : V) (vars : List (Text × V))
      → is_some (visible shown m (assign_var shown n new vars)) ≡ is_some (visible shown m vars)
  unfolding visible assign_var
  declared-assign_var n m new vars =
      let keeps : (b : Bool) (o : Option V)
          → is_some (if is_some o && b then some new else o) ≡ is_some o =
        λ b o. ground arith in
      rw (visible-assign_var n m new vars) (keeps (text_eq m n) (visible shown m vars))

  pub Unshadowed-assign_var :
      (n : Text) (new : V) (vars : List (Text × V))
      → Unshadowed shown vars
      → Unshadowed shown (assign_var shown n new vars)
  unfolding Unshadowed assign_var
  Unshadowed-assign_var n new [] u = tt
  Unshadowed-assign_var n new ((m, v) ∷ vars) u =
      (rw (declared-assign_var n m new vars) (u.0), Unshadowed-assign_var n new vars u.1)

  -- Every shown variable has the value that its name leads to.
  pub shows_own :
      (vars : List (Text × V))
      → Unshadowed shown vars
      → All (λ e. (shown e.0 ≡ true → visible shown e.0 vars ≡ some e.1)) vars
  unfolding Unshadowed visible
  shows_own [] u = tt
  shows_own ((m, v) ∷ vars) u = (
    λ h. ground (arith, text_eq_refl m, Option-cases (visible shown m vars)),
    deeper vars (shows_own vars u.1),
  )
    where
      deeper :
          (rest : List (Text × V))
          → All (λ e. (shown e.0 ≡ true → visible shown e.0 vars ≡ some e.1)) rest
          → All (λ e. (shown e.0 ≡ true → visible shown e.0 ((m, v) ∷ vars) ≡ some e.1)) rest
      deeper [] a = tt
      deeper (e ∷ rest) a = (λ h. rw (a.0 h) refl, deeper rest a.1)
