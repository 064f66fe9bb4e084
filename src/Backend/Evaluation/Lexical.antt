-- ===== src/Backend/Evaluation/Lexical.antt =====
-- How the code of a frame itself reads and assigns variables: the reference for the chained
-- environment, without tables and sentinel.
use vecoda.Base.{
  ◌≡◌, false, Bool, List, [], ◌∷◌, none, some, Text, is_some, Bool-cases, inl, inr, arith, All,
  if◌then◌else◌,
}
use vecoda.LuaDll.Tables.{LuaValues}
use vecoda.Backend.Evaluation.{Frame, Globals, has_name}
use vecoda.Backend.Evaluation.Scope.{
  visible, assign_var, is_local, Unshadowed, Unshadowed-assign_var,
}
use vecoda.Backend.Evaluation.Tables.{IsFresh}

module _ {V G : Type 0} ⦃value : LuaValues V⦄ ⦃global : Globals V G⦄ where
  -- A name means the innermost local variable that has it, else the up value, else the global.
  unfoldable pub lookup : Frame V G → Text → V
  lookup frame n = elim (visible is_local n frame.locals) [
    | some v ↦ v
    | none ↦ elim (visible has_name n frame.up_values) [
      | some v ↦ v
      | none ↦ global.gettable frame.globals (value.string n)
    ]
  ]

  unfoldable pub assign : Text → V → Frame V G → Frame V G
  assign n new frame =
      if is_some (visible is_local n frame.locals)
      then record frame { locals = assign_var is_local n new frame.locals }
      else (if is_some (visible has_name n frame.up_values)
          then record frame { up_values = assign_var has_name n new frame.up_values }
          else record frame { globals = global.settable frame.globals (value.string n) new })

  unfoldable pub assigns : List (Text × V) → Frame V G → Frame V G
  assigns [] frame = frame
  assigns ((n, new) ∷ rest) frame = assigns rest (assign n new frame)

module _ {V : Type 0} ⦃value : LuaValues V⦄ (nil_sentinel : V)
    (fresh_sentinel : value.is_nil nil_sentinel ≡ false) where
  pub AllFresh-assign_var :
      (shown : Text → Bool) (n : Text) (new : V) (vars : List (Text × V))
      → IsFresh nil_sentinel fresh_sentinel new
      → All (λ e. IsFresh nil_sentinel fresh_sentinel e.1) vars
      → All (λ e. IsFresh nil_sentinel fresh_sentinel e.1) (assign_var shown n new vars)
  unfolding assign_var
  AllFresh-assign_var shown n new [] f a = tt
  AllFresh-assign_var shown n new ((m, v) ∷ vars) f a =
      (ground (arith, a.0, f), AllFresh-assign_var shown n new vars f a.1)

module _ {V G : Type 0} ⦃value : LuaValues V⦄ ⦃global : Globals V G⦄ (nil_sentinel : V)
    (fresh_sentinel : value.is_nil nil_sentinel ≡ false) where
  -- The variables are shown with their own values, none of which is the sentinel.
  abbrev pub IsPlain : Frame V G → Type 0
  IsPlain frame =
      Unshadowed is_local frame.locals
      × Unshadowed has_name frame.up_values
      × All (λ e. IsFresh nil_sentinel fresh_sentinel e.1) frame.locals
      × All (λ e. IsFresh nil_sentinel fresh_sentinel e.1) frame.up_values

  pub assign-IsPlain :
      (frame : Frame V G) (n : Text) (new : V)
      → IsFresh nil_sentinel fresh_sentinel new
      → IsPlain frame
      → IsPlain (assign n new frame)
  unfolding assign
  assign-IsPlain frame n new f (ul, uu, fl, fu) =
      elim (Bool-cases (is_some (visible is_local n frame.locals))) [
        | inl e ↦ rw e (
          Unshadowed-assign_var is_local n new frame.locals ul,
          uu,
          AllFresh-assign_var nil_sentinel fresh_sentinel is_local n new frame.locals f fl,
          fu,
        )
        | inr e ↦ elim (Bool-cases (is_some (visible has_name n frame.up_values))) [
          | inl e' ↦
              rw (e, e')
                (
                  ul,
                  Unshadowed-assign_var has_name n new frame.up_values uu,
                  fl,
                  AllFresh-assign_var nil_sentinel fresh_sentinel has_name n new frame.up_values f
                      fu,
                )
          | inr e' ↦ rw (e, e') (ul, uu, fl, fu)
        ]
      ]

  pub assigns-IsPlain :
      (news : List (Text × V)) (frame : Frame V G)
      → All (λ e. IsFresh nil_sentinel fresh_sentinel e.1) news
      → IsPlain frame
      → IsPlain (assigns news frame)
  unfolding assigns
  assigns-IsPlain [] frame f p = p
  assigns-IsPlain ((n, new) ∷ news) frame f p =
      assigns-IsPlain news (assign n new frame) f.1 (assign-IsPlain frame n new f.0 p)
