-- ===== src/Backend/Evaluation/Refines.antt =====
-- The chained environment does what the reference says.
use vecoda.Base.{
  ◌≡◌, refl, false, List, [], ◌∷◌, Text, is_some, Bool-cases, Option-cases, inl, inr, sym, ap, ◌∙◌,
  All,
}
use vecoda.LuaDll.Tables.{LuaValues, LuaTables}
use vecoda.Backend.Evaluation.{
  Frame, Globals, Environment, create_environment, index_chained, new_index_chained, write_back,
  has_name,
}
use vecoda.Backend.Evaluation.Scope.{visible, is_local, shows_own}
use vecoda.Backend.Evaluation.Tables.{
  IsFresh, Represents, opened-sealed, sealed_there, copy_local-copy, copy_upvalue-copy,
  rawset-Represents, copy-Represents, declared,
}
use vecoda.Backend.Evaluation.WriteBack.{
  set_locals-assign_var, set_up_values-assign_var, set_locals-set_back, set_up_values-set_back,
  set_back_same,
}
use vecoda.Backend.Evaluation.Lexical.{lookup, assign, assigns, IsPlain, assigns-IsPlain}

module _ {V T G : Type 0} ⦃value : LuaValues V⦄ ⦃lua : LuaTables V T⦄ ⦃global : Globals V G⦄
    (nil_sentinel : V) where
  -- The assignments that an evaluated statement makes, through the environment.
  unfoldable pub run_assigns : List (Text × V) → Environment T G → Environment T G
  run_assigns [] env = env
  run_assigns ((n, new) ∷ rest) env =
      run_assigns rest (new_index_chained nil_sentinel (value.string n) new env)

  module _ (fresh_sentinel : value.is_nil nil_sentinel ≡ false) where
    pub record Models (env : Environment T G) (frame : Frame V G) : Type 0 where
      pub local : Represents nil_sentinel fresh_sentinel is_local env.local_table frame.locals
      pub up_value :
          Represents nil_sentinel fresh_sentinel has_name env.up_value_table frame.up_values
      pub same : env.global_table ≡ frame.globals

    index_chained-lookup :
        (env : Environment T G) (frame : Frame V G) (n : Text)
        → Models env frame
        → IsFresh nil_sentinel fresh_sentinel (lookup frame n)
        → index_chained nil_sentinel env (value.string n) ≡ lookup frame n
    unfolding index_chained lookup
    index_chained-lookup env frame n m f = elim (Option-cases (visible is_local n frame.locals)) [
      | inl e ↦ elim (Option-cases (visible has_name n frame.up_values)) [
        | inl e' ↦
            let is : lookup frame n ≡ global.gettable frame.globals (value.string n) =
              rw (lookup, e, e') refl in
            let f' : value.rawequal (global.gettable frame.globals (value.string n)) nil_sentinel
                ≡ false =
              rw is at f in
            rw (is, m.local n, e, value.is_nil-nil, m.up_value n, e', value.is_nil-nil, m.same, f')
              refl
        | inr (v, e') ↦
            let is : lookup frame n ≡ v = rw (lookup, e, e') refl in
            rw
              (
                is,
                m.local n,
                e,
                value.is_nil-nil,
                m.up_value n,
                e',
                sealed_there nil_sentinel fresh_sentinel v,
              )
              (opened-sealed nil_sentinel fresh_sentinel v (rw is at f))
      ]
      | inr (v, e) ↦
          let is : lookup frame n ≡ v = rw (lookup, e) refl in
          rw
            (
              is,
              m.local n,
              e,
              sealed_there nil_sentinel fresh_sentinel v,
              sealed_there nil_sentinel fresh_sentinel v,
            )
            (opened-sealed nil_sentinel fresh_sentinel v (rw is at f))
    ]

    new_index_chained-Models :
        (env : Environment T G) (frame : Frame V G) (n : Text) (new : V)
        → Models env frame
        → Models (new_index_chained nil_sentinel (value.string n) new env) (assign n new frame)
    unfolding new_index_chained assign
    new_index_chained-Models env frame n new m =
        let locals =
          declared nil_sentinel fresh_sentinel is_local env.local_table frame.locals n m.local in
        let up_values =
          declared nil_sentinel fresh_sentinel has_name env.up_value_table frame.up_values n
            m.up_value in
        elim (Bool-cases (is_some (visible is_local n frame.locals))) [
          | inl e ↦
              rw (locals, e)
                (record {
                  local =
                      rawset-Represents nil_sentinel fresh_sentinel is_local env.local_table
                        frame.locals n new e m.local;
                  up_value = m.up_value;
                  same = m.same;
                })
          | inr e ↦ elim (Bool-cases (is_some (visible has_name n frame.up_values))) [
            | inl e' ↦
                rw (locals, e, up_values, e')
                  (record {
                    local = m.local;
                    up_value =
                        rawset-Represents nil_sentinel fresh_sentinel has_name env.up_value_table
                          frame.up_values n new e' m.up_value;
                    same = m.same;
                  })
            | inr e' ↦
                rw (locals, e, up_values, e')
                  (record {
                    local = m.local;
                    up_value = m.up_value;
                    same = ap (λ g. global.settable g (value.string n) new) m.same;
                  })
          ]
        ]

    pub create_environment-Models :
        (frame : Frame V G) → Models (create_environment nil_sentinel frame) frame
    unfolding create_environment
    create_environment-Models frame = record {
      local =
          rw (copy_local-copy nil_sentinel fresh_sentinel frame.locals lua.newtable)
            (copy-Represents T nil_sentinel fresh_sentinel is_local frame.locals);
      up_value =
          rw (copy_upvalue-copy nil_sentinel fresh_sentinel frame.up_values lua.newtable)
            (copy-Represents T nil_sentinel fresh_sentinel has_name frame.up_values);
      same = refl;
    }

    write_back-assign :
        (env : Environment T G) (frame : Frame V G) (n : Text) (new : V)
        → write_back nil_sentinel env (assign n new frame) ≡ write_back nil_sentinel env frame
    unfolding assign write_back
    write_back-assign env frame n new =
        elim (Bool-cases (is_some (visible is_local n frame.locals))) [
          | inl e ↦
              rw
                (
                  e,
                  set_locals-assign_var nil_sentinel fresh_sentinel env.local_table n new
                      frame.locals,
                )
                refl
          | inr e ↦ elim (Bool-cases (is_some (visible has_name n frame.up_values))) [
            | inl e' ↦
                rw
                  (
                    e,
                    e',
                    set_up_values-assign_var nil_sentinel fresh_sentinel env.up_value_table n new
                        frame.up_values,
                  )
                  refl
            | inr e' ↦ rw (e, e') refl
          ]
        ]

    write_back-Models :
        (env : Environment T G) (frame : Frame V G)
        → Models env frame
        → IsPlain nil_sentinel fresh_sentinel frame
        → write_back nil_sentinel env frame ≡ frame
    unfolding write_back
    write_back-Models env frame m (ul, uu, fl, fu) =
        let locals =
          set_back_same nil_sentinel fresh_sentinel is_local env.local_table frame.locals m.local
            frame.locals (shows_own is_local frame.locals ul) fl in
        let up_values =
          set_back_same nil_sentinel fresh_sentinel has_name env.up_value_table frame.up_values
            m.up_value frame.up_values (shows_own has_name frame.up_values uu) fu in
        rw
          (
            set_locals-set_back nil_sentinel fresh_sentinel env.local_table frame.locals,
            locals,
            set_up_values-set_back nil_sentinel fresh_sentinel env.up_value_table frame.up_values,
            up_values,
            m.same,
          )
          refl

    run_assigns-Models :
        (news : List (Text × V)) (env : Environment T G) (frame : Frame V G)
        → Models env frame
        → Models (run_assigns news env) (assigns news frame)
    unfolding run_assigns assigns
    run_assigns-Models [] env frame m = m
    run_assigns-Models ((n, new) ∷ news) env frame m =
        run_assigns-Models news (new_index_chained nil_sentinel (value.string n) new env)
          (assign n new frame) (new_index_chained-Models env frame n new m)

    pub write_back-assigns :
        (news : List (Text × V)) (env : Environment T G) (frame : Frame V G)
        → write_back nil_sentinel env (assigns news frame) ≡ write_back nil_sentinel env frame
    unfolding assigns
    write_back-assigns [] env frame = refl
    write_back-assigns ((n, new) ∷ news) env frame =
        write_back-assigns news env (assign n new frame) ∙ write_back-assign env frame n new

module _ {V G : Type 0} (T : Type 0) ⦃value : LuaValues V⦄ ⦃lua : LuaTables V T⦄
    ⦃global : Globals V G⦄ (nil_sentinel : V)
    (fresh_sentinel : value.is_nil nil_sentinel ≡ false) where
  -- The chained environment does what assignments in the frame itself would do: after any
  -- assignments made through it, a name reads news the innermost local variable, up value or global of
  -- that name after those assignments, and what is written back to the frame is the frame after
  -- them; without assignments nothing changes, a nil included. No local variable of the frame is
  -- hidden by another of its name, nor an up value; and the sentinel, which is not nil, is none of
  -- the values.
  pub evaluation_refines_assigns :
      (news : List (Text × V)) (frame : Frame V G) (n : Text)
      → IsPlain nil_sentinel fresh_sentinel frame
      → All (λ e. IsFresh nil_sentinel fresh_sentinel e.1) news
      → IsFresh nil_sentinel fresh_sentinel (lookup (assigns news frame) n)
      → let env : Environment T G =
          run_assigns nil_sentinel news (create_environment nil_sentinel frame) in
        (write_back nil_sentinel env frame ≡ assigns news frame)
        × (index_chained nil_sentinel env (value.string n) ≡ lookup (assigns news frame) n)
  evaluation_refines_assigns news frame n p fa fn =
      let start : Environment T G = create_environment nil_sentinel frame in
      let env : Environment T G = run_assigns nil_sentinel news start in
      let m =
        run_assigns-Models nil_sentinel fresh_sentinel news start frame
          (create_environment-Models nil_sentinel fresh_sentinel frame) in
      (
        sym (write_back-assigns nil_sentinel fresh_sentinel news env frame)
            ∙ write_back-Models nil_sentinel fresh_sentinel env (assigns news frame) m
                (assigns-IsPlain nil_sentinel fresh_sentinel news frame fa p),
        index_chained-lookup nil_sentinel fresh_sentinel env (assigns news frame) n m fn,
      )
