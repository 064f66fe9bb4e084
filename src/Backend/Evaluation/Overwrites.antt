-- ===== src/Backend/Evaluation/Overwrites.antt =====
-- What an evaluation does to variables that it does not assign.
use vecoda.Base.{
  ◌≡◌, refl, Bool, false, List, [], ◌∷◌, none, some, Text, if◌then◌else◌, Bool-cases, Option-cases,
  inl, inr, All, arith, ap, ◌∙◌,
}
use vecoda.LuaDll.Tables.{LuaValues, LuaTables}
use vecoda.Backend.Evaluation.{
  Frame, Globals, Environment, opened, create_environment, write_back, has_name,
}
use vecoda.Backend.Evaluation.Scope.{visible, is_local}
use vecoda.Backend.Evaluation.Tables.{IsFresh, Represents, opened-sealed}
use vecoda.Backend.Evaluation.WriteBack.{set_back, set_locals-set_back, set_up_values-set_back}
use vecoda.Backend.Evaluation.Lexical.{assigns}
use vecoda.Backend.Evaluation.Refines.{Models, create_environment-Models, write_back-assigns}

-- Each shown variable with the value of the last one of its name among all of them.
unfoldable pub innermost :
    {V : Type 0} ⦃value : LuaValues V⦄
    → (Text → Bool)
    → List (Text × V)
    → List (Text × V)
    → List (Text × V)
innermost shown whole [] = []
innermost ⦃value = value⦄ shown whole ((m, v) ∷ vars) =
    (m, if shown m then elim (visible shown m whole) [ some w ↦ w | none ↦ value.nil ] else v)
    ∷ innermost shown whole vars

module _ {V : Type 0} ⦃value : LuaValues V⦄ (nil_sentinel : V)
    (fresh_sentinel : value.is_nil nil_sentinel ≡ false) where
  visible-IsFresh :
      (shown : Text → Bool) (n : Text) (vars : List (Text × V)) (w : V)
      → All (λ e. IsFresh nil_sentinel fresh_sentinel e.1) vars
      → visible shown n vars ≡ some w
      → IsFresh nil_sentinel fresh_sentinel w
  unfolding visible
  visible-IsFresh shown n [] w f e = absurd (ground arith)
  visible-IsFresh shown n ((m, v) ∷ vars) w f e = elim (Option-cases (visible shown n vars)) [
    | inl e' ↦ ground (arith, f.0)
    | inr (u, e') ↦ visible-IsFresh shown n vars w f.1 (ground arith)
  ]

  opened_nil : opened nil_sentinel value.nil ≡ value.nil
  opened_nil = elim (Bool-cases (value.rawequal value.nil nil_sentinel)) [
    | inl e ↦ rw e refl
    | inr e ↦ rw e refl
  ]

module _ {V T : Type 0} ⦃value : LuaValues V⦄ ⦃lua : LuaTables V T⦄ (nil_sentinel : V)
    (fresh_sentinel : value.is_nil nil_sentinel ≡ false) where
  set_back-innermost :
      (shown : Text → Bool) (t : T) (whole : List (Text × V))
      → Represents nil_sentinel fresh_sentinel shown t whole
      → All (λ e. IsFresh nil_sentinel fresh_sentinel e.1) whole
      → (vars : List (Text × V))
      → set_back nil_sentinel fresh_sentinel shown t vars ≡ innermost shown whole vars
  unfolding innermost
  set_back-innermost shown t whole r f [] = refl
  set_back-innermost shown t whole r f ((m, v) ∷ vars) = elim (Bool-cases (shown m)) [
    | inl e ↦ elim (Option-cases (visible shown m whole)) [
      | inl e' ↦
          rw (e, r m, e', set_back-innermost shown t whole r f vars)
            (ap (λ w. (m, w) ∷ innermost shown whole vars) (opened_nil nil_sentinel fresh_sentinel))
      | inr (w, e') ↦
          rw (e, r m, e', set_back-innermost shown t whole r f vars)
            (ap (λ u. (m, u) ∷ innermost shown whole vars)
              (opened-sealed nil_sentinel fresh_sentinel w
                (visible-IsFresh nil_sentinel fresh_sentinel shown m whole w f e')))
    ]
    | inr e ↦ rw (e, set_back-innermost shown t whole r f vars) refl
  ]

module _ {V G : Type 0} (T : Type 0) ⦃value : LuaValues V⦄ ⦃lua : LuaTables V T⦄
    ⦃global : Globals V G⦄ (nil_sentinel : V)
    (fresh_sentinel : value.is_nil nil_sentinel ≡ false) where
  -- The defect of the write-back: an evaluation that assigns nothing through its environment still
  -- gives every local variable and up value of the frame the value that the innermost one of its
  -- name had before. What the frame's variables got meanwhile, as by a closure that the expression calls, is
  -- undone, and a variable that is hidden by another one of its name is overwritten. No value is the
  -- sentinel.
  pub write_back_overwrites :
      (frame : Frame V G) (news : List (Text × V))
      → All (λ e. IsFresh nil_sentinel fresh_sentinel e.1) frame.locals
      → All (λ e. IsFresh nil_sentinel fresh_sentinel e.1) frame.up_values
      → let env : Environment T G = create_environment nil_sentinel frame in
        let after = write_back nil_sentinel env (assigns news frame) in
        (after.locals ≡ innermost is_local frame.locals frame.locals)
        × (after.up_values ≡ innermost has_name frame.up_values frame.up_values)
  unfolding write_back
  write_back_overwrites frame news fl fu =
      let env : Environment T G = create_environment nil_sentinel frame in
      let m : Models nil_sentinel fresh_sentinel env frame =
        create_environment-Models nil_sentinel fresh_sentinel frame in
      let same = write_back-assigns nil_sentinel fresh_sentinel news env frame in
      (
        ap (λ f. f.locals) same
            ∙ set_locals-set_back nil_sentinel fresh_sentinel env.local_table frame.locals
            ∙ set_back-innermost nil_sentinel fresh_sentinel is_local env.local_table frame.locals
                m.local fl frame.locals,
        ap (λ f. f.up_values) same
            ∙ set_up_values-set_back nil_sentinel fresh_sentinel env.up_value_table frame.up_values
            ∙ set_back-innermost nil_sentinel fresh_sentinel has_name env.up_value_table
                frame.up_values m.up_value fu frame.up_values,
      )
