-- ===== src/Backend/Evaluation/WriteBack.antt =====
-- The loops that write the tables back to a frame.
use vecoda.Base.{
  ◌≡◌, sym, ◌∙◌, refl, Bool, true, false, List, [], ◌∷◌, some, Text, if◌then◌else◌, Bool-cases, inl,
  inr, sym, ap, ◌∙◌, All,
}
use vecoda.LuaDll.Tables.{LuaValues, LuaTables}
use vecoda.Backend.Evaluation.{
  opened, set_locals, set_up_values, get_is_internal_variable, has_name,
}
use vecoda.Backend.Evaluation.Scope.{visible, assign_var, is_local}
use vecoda.Backend.Evaluation.Tables.{IsFresh, Represents, opened-sealed}

module _ {V T : Type 0} ⦃value : LuaValues V⦄ ⦃lua : LuaTables V T⦄ (nil_sentinel : V)
    (fresh_sentinel : value.is_nil nil_sentinel ≡ false) where
  -- `SetLocals` and `SetUpValues`.
  abbrev pub set_back : (Text → Bool) → T → List (Text × V) → List (Text × V)
  set_back shown t [] = []
  set_back shown t ((name, v) ∷ vars) =
      (name, if shown name then opened nil_sentinel (lua.rawget t (value.string name)) else v)
      ∷ set_back shown t vars

  pub set_locals-set_back :
      (t : T) (vars : List (Text × V)) → set_locals nil_sentinel t vars ≡ set_back is_local t vars
  unfolding set_locals
  set_locals-set_back t [] = refl
  set_locals-set_back t ((m, v) ∷ vars) = elim (Bool-cases (get_is_internal_variable m)) [
    | inl e ↦ rw (e, set_locals-set_back t vars) refl
    | inr e ↦ rw (e, set_locals-set_back t vars) refl
  ]

  pub set_up_values-set_back :
      (t : T) (vars : List (Text × V))
      → set_up_values nil_sentinel t vars ≡ set_back has_name t vars
  unfolding set_up_values
  set_up_values-set_back t [] = refl
  set_up_values-set_back t ((m, v) ∷ vars) = rw (set_up_values-set_back t vars) refl

  -- Only the names, and the values of variables that are not shown, count.
  pub set_back-assign_var :
      (shown : Text → Bool) (t : T) (n : Text) (new : V) (vars : List (Text × V))
      → set_back shown t (assign_var shown n new vars) ≡ set_back shown t vars
  unfolding assign_var
  set_back-assign_var shown t n new [] = refl
  set_back-assign_var shown t n new ((m, v) ∷ vars) = elim (Bool-cases (shown m)) [
    | inl e ↦ rw (e, set_back-assign_var shown t n new vars) refl
    | inr e ↦ rw (e, set_back-assign_var shown t n new vars) refl
  ]

  pub set_back_same :
      (shown : Text → Bool) (t : T) (whole : List (Text × V))
      → Represents nil_sentinel fresh_sentinel shown t whole
      → (vars : List (Text × V))
      → All (λ e. (shown e.0 ≡ true → visible shown e.0 whole ≡ some e.1)) vars
      → All (λ e. IsFresh nil_sentinel fresh_sentinel e.1) vars
      → set_back shown t vars ≡ vars
  set_back_same shown t whole r [] own fresh = refl
  set_back_same shown t whole r ((m, v) ∷ vars) own fresh = elim (Bool-cases (shown m)) [
    | inl e ↦
        rw (e, r m, own.0 e, set_back_same shown t whole r vars own.1 fresh.1)
          (ap (λ w. (m, w) ∷ vars) (opened-sealed nil_sentinel fresh_sentinel v fresh.0))
    | inr e ↦ rw (e, set_back_same shown t whole r vars own.1 fresh.1) refl
  ]

  pub set_locals-assign_var :
      (t : T) (n : Text) (new : V) (vars : List (Text × V))
      → set_locals nil_sentinel t (assign_var is_local n new vars) ≡ set_locals nil_sentinel t vars
  set_locals-assign_var t n new vars =
      set_locals-set_back t (assign_var is_local n new vars)
      ∙ set_back-assign_var is_local t n new vars
      ∙ sym (set_locals-set_back t vars)

  pub set_up_values-assign_var :
      (t : T) (n : Text) (new : V) (vars : List (Text × V))
      → set_up_values nil_sentinel t (assign_var has_name n new vars)
        ≡ set_up_values nil_sentinel t vars
  set_up_values-assign_var t n new vars =
      set_up_values-set_back t (assign_var has_name n new vars)
      ∙ set_back-assign_var has_name t n new vars
      ∙ sym (set_up_values-set_back t vars)
