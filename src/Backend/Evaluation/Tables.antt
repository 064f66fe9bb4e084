-- ===== src/Backend/Evaluation/Tables.antt =====
-- The tables of the local variables and of the up values: what they hold for the variables of a
-- frame, where nil is kept as the sentinel.
use vecoda.Base.{
  ◌≡◌, not, sym, ◌∙◌, refl, Bool, true, false, ◌&&◌, List, [], ◌∷◌, Option, none, some, Text,
  text_eq, text_eq-eq, text_eq_refl, if◌then◌else◌, is_some, Bool-cases, Option-cases, inl, inr,
  arith, sym, ap, ◌∙◌,
}
use vecoda.LuaDll.Tables.{LuaValues, LuaTables}
use vecoda.Backend.Evaluation.{
  sealed, opened, copy_local, copy_upvalue, get_is_internal_variable, has_name,
}
use vecoda.Backend.Evaluation.Scope.{visible, assign_var, is_local, visible-assign_var, text_eq_sym}

module _ {V : Type 0} ⦃value : LuaValues V⦄ (nil_sentinel : V)
    (fresh_sentinel : value.is_nil nil_sentinel ≡ false) where
  -- A value is not the sentinel, which only the evaluation knows.
  abbrev pub IsFresh : V → Type 0
  IsFresh v = value.rawequal v nil_sentinel ≡ false

  pub opened-sealed : (v : V) → IsFresh v → opened nil_sentinel (sealed nil_sentinel v) ≡ v
  opened-sealed v f = elim (Bool-cases (value.is_nil v)) [
    | inl e ↦ rw (e, value.rawequal_refl nil_sentinel) (sym (value.is_nil-eq v e))
    | inr e ↦ rw (e, f) refl
  ]

  pub sealed_there : (v : V) → value.is_nil (sealed nil_sentinel v) ≡ false
  sealed_there v = elim (Bool-cases (value.is_nil v)) [
    | inl e ↦ rw (e, fresh_sentinel) refl
    | inr e ↦ rw e e
  ]

  no_change : (o : Option V) (new : V) → (if is_some o && false then some new else o) ≡ o
  no_change o new = ground arith

  -- What a table has for a name, given the variable that is visible.
  abbrev pub entry : V → Option V → V
  entry other none = other
  entry other (some v) = sealed nil_sentinel v

module _ {V T : Type 0} ⦃value : LuaValues V⦄ ⦃lua : LuaTables V T⦄ (nil_sentinel : V)
    (fresh_sentinel : value.is_nil nil_sentinel ≡ false) where
  abbrev pub Represents : (Text → Bool) → T → List (Text × V) → Type 0
  Represents shown t vars =
      (n : Text)
      → lua.rawget t (value.string n)
        ≡ entry nil_sentinel fresh_sentinel value.nil (visible shown n vars)

  rawset-entry :
      (t : T) (m n : Text) (v : V)
      → lua.rawget (lua.rawset t (value.string m) v) (value.string n)
        ≡ (if text_eq m n then v else lua.rawget t (value.string n))
  rawset-entry t m n v = elim (Bool-cases (text_eq m n)) [
    | inl e ↦
        let same : value.string m ≡ value.string n = ap value.string (text_eq-eq m n e) in
        rw (e, sym same) (lua.rawget-rawset t (value.string m) v (lua.is_key-string m))
    | inr e ↦ rw e (
        lua.rawget-rawset_ne t (value.string m) (value.string n) v (lua.is_key-string m)
          (λ same. differ (value.string-injective m n same) e))
  ]
    where
      differ : {m n : Text} → m ≡ n → text_eq m n ≡ false → ⊥
      differ {m} {n} same e = absurd (ground (arith, text_eq_refl n, ap (λ x. text_eq x n) same))

  -- The loop of `CopyLocal` and that of `CopyUpvalue`.
  abbrev pub copy : (Text → Bool) → List (Text × V) → T → T
  copy shown [] t = t
  copy shown ((name, v) ∷ vars) t =
      copy shown vars
        (if shown name then lua.rawset t (value.string name) (sealed nil_sentinel v) else t)

  pub copy_local-copy :
      (vars : List (Text × V)) (t : T) → copy_local nil_sentinel vars t ≡ copy is_local vars t
  unfolding copy_local
  copy_local-copy [] t = refl
  copy_local-copy ((m, v) ∷ vars) t = elim (Bool-cases (get_is_internal_variable m)) [
    | inl e ↦ rw e (copy_local-copy vars t)
    | inr e ↦ rw e (copy_local-copy vars (lua.rawset t (value.string m) (sealed nil_sentinel v)))
  ]

  pub copy_upvalue-copy :
      (vars : List (Text × V)) (t : T) → copy_upvalue nil_sentinel vars t ≡ copy has_name vars t
  unfolding copy_upvalue
  copy_upvalue-copy [] t = refl
  copy_upvalue-copy ((m, v) ∷ vars) t =
      copy_upvalue-copy vars
        (if has_name m then lua.rawset t (value.string m) (sealed nil_sentinel v) else t)

  set_one :
      (shown : Text → Bool) (m n : Text) (v : V) (t : T)
      → lua.rawget
          (if shown m then lua.rawset t (value.string m) (sealed nil_sentinel v) else t)
          (value.string n)
        ≡ entry nil_sentinel fresh_sentinel
            (lua.rawget t (value.string n))
            (if shown m && text_eq m n then some v else none)
  set_one shown m n v t = elim (Bool-cases (shown m)) [
    | inl e ↦ elim (Bool-cases (text_eq m n)) [
      | inl e' ↦ rw (e, e', rawset-entry t m n (sealed nil_sentinel v), e') refl
      | inr e' ↦ rw (e, e', rawset-entry t m n (sealed nil_sentinel v), e') refl
    ]
    | inr e ↦ rw e refl
  ]

  rawget-copy :
      (shown : Text → Bool) (vars : List (Text × V)) (t : T) (n : Text)
      → lua.rawget (copy shown vars t) (value.string n)
        ≡ entry nil_sentinel fresh_sentinel (lua.rawget t (value.string n)) (visible shown n vars)
  unfolding visible
  rawget-copy shown [] t n = refl
  rawget-copy shown ((m, v) ∷ vars) t n = elim (Option-cases (visible shown n vars)) [
    | inl e ↦
        rw
          (
            rawget-copy shown vars
                (if shown m then lua.rawset t (value.string m) (sealed nil_sentinel v) else t) n,
            e,
          )
          (set_one shown m n v t)
    | inr (w, e) ↦
        rw
          (
            rawget-copy shown vars
                (if shown m then lua.rawset t (value.string m) (sealed nil_sentinel v) else t) n,
            e,
          )
          refl
  ]

  -- A declared variable is assigned in its table.
  pub rawset-Represents :
      (shown : Text → Bool) (t : T) (vars : List (Text × V)) (n : Text) (new : V)
      → is_some (visible shown n vars) ≡ true
      → Represents shown t vars
      → Represents shown
          (lua.rawset t (value.string n) (sealed nil_sentinel new))
          (assign_var shown n new vars)
  rawset-Represents shown t vars n new there r m = elim (Bool-cases (text_eq m n)) [
    | inl e ↦
        let same : is_some (visible shown m vars) ≡ true =
          ap (λ x. is_some (visible shown x vars)) (text_eq-eq m n e) ∙ there in
        rw
          (
            rawset-entry t n m (sealed nil_sentinel new),
            text_eq_sym n m,
            e,
            visible-assign_var shown n m new vars,
            same,
            e,
          )
          refl
    | inr e ↦
        rw
          (
            rawset-entry t n m (sealed nil_sentinel new),
            text_eq_sym n m,
            e,
            visible-assign_var shown n m new vars,
            e,
            no_change nil_sentinel fresh_sentinel (visible shown m vars) new,
          )
          (r m)
  ]

  -- Whether a table has a name, which is whether a variable does.
  pub declared :
      (shown : Text → Bool) (t : T) (vars : List (Text × V)) (n : Text)
      → Represents shown t vars
      → value.is_nil (lua.rawget t (value.string n)) ≡ not (is_some (visible shown n vars))
  declared shown t vars n r = elim (Option-cases (visible shown n vars)) [
    | inl e ↦ rw (r n, e) value.is_nil-nil
    | inr (v, e) ↦ rw (r n, e) (sealed_there nil_sentinel fresh_sentinel v)
  ]

module _ {V : Type 0} (T : Type 0) ⦃value : LuaValues V⦄ ⦃lua : LuaTables V T⦄ (nil_sentinel : V)
    (fresh_sentinel : value.is_nil nil_sentinel ≡ false) where
  pub copy-Represents :
      (shown : Text → Bool) (vars : List (Text × V))
      → Represents nil_sentinel fresh_sentinel shown
          (copy nil_sentinel fresh_sentinel shown vars lua.newtable)
          vars
  copy-Represents shown vars n =
      rw
        (
          rawget-copy nil_sentinel fresh_sentinel shown vars lua.newtable n,
          lua.rawget-newtable (value.string n),
        )
        refl
