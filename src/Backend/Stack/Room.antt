-- ===== src/Backend/Stack/Room.antt =====
-- The room in the array of `GetUnifiedStack`.
use vecoda.Base.{
  ℕ, text_eq, replicate, length-replicate, false, zero, suc, ◌+◌, ◌-◌, ◌≤◌, ◌<◌, ◌≡◌, refl, true,
  List, [], ◌∷◌, ◌++◌, reverse, some, arith, ltb, Bool-cases, Option-cases, inl, inr, length,
  length-append, length-reverse,
}
use mathlib.Core.List.{reverse-reverse}
use mathlib.Core.Path.{subst}
use vecoda.LuaDll.{get_what, LuaInterface, LuaDebug}
use vecoda.Backend.{Backend}
use vecoda.Backend.Stack.{
  StackEntry, lua_pcall, is_lua_function, is_c, script_entry, walk_native, walk_script, unify,
  get_unified_stack, max_stack_size,
}
use vecoda.Backend.Stack.Bounds.{length-walk_native, length-walk_script, get_unified_stack-length}

module _ {H : Type 0} (face : LuaInterface) (s : Backend H) where
  -- One round, while there is room.
  unify_round :
      (fuel : ℕ) (native : List StackEntry) (ar : LuaDebug) (frames : List LuaDebug) (size : ℕ)
      (r : List StackEntry)
      → ltb size max_stack_size ≡ true
      → unify face s (suc fuel) native (ar ∷ frames) size ≡ some r
      → let outer = walk_native native in
        let inner = walk_script face s (max_stack_size - (size + length outer.0)) (ar ∷ frames) in
        (more : List StackEntry) × (unify face s fuel outer.1 inner.1
            (size + length outer.0 + length inner.0)
          ≡ some more)
        × (length r ≡ length outer.0 + (length inner.0 + length more))
  unfolding unify
  unify_round fuel native ar frames size r room e =
      let outer = walk_native native in
      let k = max_stack_size - (size + length outer.0) in
      let inner = walk_script face s k (ar ∷ frames) in
      elim (Option-cases
        (unify face s fuel outer.1 inner.1 (size + length outer.0 + length inner.0))) [
          | inl stuck ↦ absurd (ground arith)
          | inr (more, e') ↦
              let whole : outer.0 ++ (inner.0 ++ more) ≡ r = ground arith in
              (
                more,
                e',
                subst (λ w. length w ≡ length outer.0 + (length inner.0 + length more)) whole
                    (omega
                      (arith, length-append outer.0 (inner.0 ++ more), length-append inner.0 more)),
              )
        ]

  unify-room :
      (fuel : ℕ) (native : List StackEntry) (frames : List LuaDebug) (size over : ℕ)
      (r : List StackEntry)
      → size ≤ max_stack_size + over
      → unify face s fuel native frames size ≡ some r
      → size + length r ≤ max_stack_size + over + length native
  unfolding unify
  unify-room zero native frames size over r h e = absurd (ground arith)
  unify-room (suc fuel) native [] size over r h e = ground arith
  unify-room (suc fuel) native (ar ∷ frames) size over r h e =
      let outer = walk_native native in
      let k = max_stack_size - (size + length outer.0) in
      let inner = walk_script face s k (ar ∷ frames) in
      let next = size + length outer.0 + length inner.0 in
      elim (Bool-cases (ltb size max_stack_size)) [
        | inl room ↦
            let (more, e', total) = unify_round fuel native ar frames size r room e in
            let walked = length-walk_script face s k (ar ∷ frames) in
            omega (
              arith,
              total,
              length-walk_native native,
              walked.1,
              unify-room fuel outer.1 inner.1 next (length outer.0) more (ground (arith, walked))
                  e',
            )
        | inr full ↦ ground arith
      ]

  -- The stack that is sent has at most 100 entries and those of the native stack: without native
  -- frames, as for a state with no machine, the array of 100 entries has room for it.
  pub get_unified_stack-room :
      (native : List StackEntry) (frames : List LuaDebug)
      → (r : List StackEntry) × (get_unified_stack face s native frames ≡ some r)
        × (length r ≤ max_stack_size + length native)
  unfolding get_unified_stack
  get_unified_stack-room native frames =
      let (r, e, _) = get_unified_stack-length face s native frames in
      (
        r,
        e,
        omega (
          arith,
          length-reverse native,
          unify-room (suc (suc (length frames))) (reverse native) (reverse frames) 0 0 r
              (omega arith) e,
        ),
      )

  module _ (entry : StackEntry) (own : is_lua_function entry.name ≡ false)
      (other : text_eq entry.name lua_pcall ≡ false) (ar c : LuaDebug)
      (lua : is_c (get_what face ar) ≡ false) (native_call : is_c (get_what face c) ≡ true) where
    -- The native stack, outermost frame first: a call into Lua, and the functions that Lua calls.
    abbrev pub called : ℕ → List StackEntry
    called n = record entry { name = lua_pcall } ∷ replicate n entry

    -- The script stack, outermost frame first: Lua functions, a C function, and a Lua function.
    abbrev pub calling : ℕ → List LuaDebug
    calling k = replicate k ar ++ (c ∷ ar ∷ [])

    natives : (n : ℕ) → walk_native (replicate n entry) ≡ (replicate n entry, [])
    unfolding walk_native
    natives zero = refl
    natives (suc n) = rw (other, own, natives n)

    transition : (n : ℕ) → walk_native (called n) ≡ ([], replicate n entry)
    unfolding walk_native text_eq
    transition n = refl

    scripts :
        (room k : ℕ)
        → k < room
        → walk_script face s room (calling k) ≡ (replicate k (script_entry face s ar), ar ∷ [])
    unfolding walk_script
    scripts zero k h = absurd (omega arith)
    scripts (suc room) zero h = rw native_call
    scripts (suc room) (suc k) h = rw (lua, scripts room k (omega arith))

    second :
        (fuel n size : ℕ) (r : List StackEntry)
        → size < max_stack_size
        → unify face s (suc fuel) (replicate n entry) (ar ∷ []) size ≡ some r
        → n ≤ length r
    second fuel n size r h e =
        let (more, _, total) = unify_round fuel (replicate n entry) ar [] size r (ground arith) e in
        let outer : length (walk_native (replicate n entry)).0 ≡ n =
          rw (natives n) (length-replicate n entry) in
        omega (arith, total, outer)

    first :
        (fuel n k : ℕ) (r : List StackEntry)
        → 0 < k
        → k < max_stack_size
        → unify face s (suc (suc fuel)) (called n) (calling k) 0 ≡ some r
        → k + n ≤ length r
    first fuel n zero r low h e = absurd (omega arith)
    first fuel n (suc k) r low h e =
        let (more, e', total) =
          unify_round (suc fuel) (called n) ar (replicate k ar ++ (c ∷ ar ∷ [])) 0 r refl e in
        let walked = scripts max_stack_size (suc k) h in
        let filled = length-replicate (suc k) (script_entry face s ar) in
        let e'' = rw (transition n, walked) at e' in
        let total' = rw (transition n, walked) at total in
        omega (
          arith,
          filled,
          total',
          second fuel n (0 + 0 + length (replicate (suc k) (script_entry face s ar))) more
              (omega (arith, filled)) e'',
        )

    -- The defect of the array: the loop over native frames does not look at the room. With `k` Lua
    -- functions below a C function, which calls Lua again, and `n` native functions called from there,
    -- at least `k + n` entries are written; the walks take up to 100 frames each, so this reaches
    -- beyond the 100 that there are. There is some function below the C function, and fewer than
    -- 100; the native functions are not those of the Lua library.
    pub get_unified_stack_overruns :
        (n k : ℕ)
        → 0 < k
        → k < max_stack_size
        → (r : List StackEntry) × (get_unified_stack face s
              (reverse (called n))
              (reverse (calling k))
            ≡ some r)
          × (k + n ≤ length r)
    unfolding get_unified_stack
    get_unified_stack_overruns n k low h =
        let (r, e, _) =
          get_unified_stack-length face s (reverse (called n)) (reverse (calling k)) in
        let frames : length (reverse (calling k)) ≡ suc (suc k) = omega (
          arith,
          length-reverse (calling k),
          length-append (replicate k ar) (c ∷ ar ∷ []),
          length-replicate k ar,
        ) in
        let e' : unify face s (suc (suc (suc (suc k)))) (called n) (calling k) 0 ≡ some r =
          rw (reverse-reverse (called n), reverse-reverse (calling k), frames) at e in
        (r, e, first (suc (suc k)) n k r low h e')
