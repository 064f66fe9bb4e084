-- ===== src/Backend/Stack/Bounds.antt =====
-- How many entries `GetUnifiedStack` writes into an array of 100.
use vecoda.Base.{
  ℕ, zero, suc, ◌+◌, ◌-◌, ◌≤◌, ◌<◌, ◌≡◌, refl, true, List, [], ◌∷◌, ◌++◌, reverse, some, arith, ltb,
  Bool-cases, inl, inr, length, length-append, length-reverse, if◌then◌else◌,
}
use vecoda.LuaDll.{LuaInterface, LuaDebug}
use vecoda.Backend.{Backend}
use vecoda.Backend.Stack.{
  StackEntry, walk_native, walk_script, unify, get_unified_stack, max_stack_size,
}

pub length-walk_native :
    (es : List StackEntry) → length (walk_native es).0 + length (walk_native es).1 ≤ length es
unfolding walk_native
length-walk_native [] = omega arith
length-walk_native (e ∷ es) = ground (arith, length-walk_native es)

module _ {H : Type 0} (face : LuaInterface) (s : Backend H) where
  pub length-walk_script :
      (room : ℕ) (frames : List LuaDebug)
      → (length (walk_script face s room frames).0 + length (walk_script face s room frames).1
          ≤ length frames)
        × (length (walk_script face s room frames).0 ≤ room)
  unfolding walk_script
  length-walk_script zero frames = omega arith
  length-walk_script (suc room) [] = omega arith
  length-walk_script (suc room) (ar ∷ frames) = ground (arith, length-walk_script room frames)

  walk_script_moves :
      (room : ℕ) (ar : LuaDebug) (frames : List LuaDebug)
      → 0 < room
      → length (walk_script face s room (ar ∷ frames)).1 ≤ length frames
  unfolding walk_script
  walk_script_moves zero ar frames h = absurd (omega arith)
  walk_script_moves (suc room) ar frames h = ground (arith, length-walk_script room frames)

  -- The measure of the outer loop: the frames that are left, and one more while there is room.
  measure_falls :
      (fuel size added inner : ℕ) (ar : LuaDebug) (frames : List LuaDebug)
      → length frames + 2 < suc fuel
      → ltb size max_stack_size ≡ true
      → inner ≤ max_stack_size - (size + added)
      → let k = max_stack_size - (size + added) in
        length (walk_script face s k (ar ∷ frames)).1
          + (if ltb (size + added + inner) max_stack_size then 1 else 0)
        < fuel
  measure_falls fuel size added inner ar frames h room le =
      elim (Bool-cases (ltb (size + added) max_stack_size)) [
        | inl more ↦ ground (arith, walk_script_moves (max_stack_size - (size + added)) ar frames)
        | inr full ↦
            ground (arith, length-walk_script (max_stack_size - (size + added)) (ar ∷ frames))
      ]

  unify-length :
      (fuel : ℕ) (native : List StackEntry) (frames : List LuaDebug) (size : ℕ)
      → length frames + (if ltb size max_stack_size then 1 else 0) < fuel
      → (r : List StackEntry) × (unify face s fuel native frames size ≡ some r)
        × (length r ≤ length native + length frames)
  unfolding unify
  unify-length zero native frames size h = absurd (omega arith)
  unify-length (suc fuel) native [] size h = ([], refl, omega arith)
  unify-length (suc fuel) native (ar ∷ frames) size h =
      elim (Bool-cases (ltb size max_stack_size)) [
        | inl room ↦
            let outer = walk_native native in
            let k = max_stack_size - (size + length outer.0) in
            let inner = walk_script face s k (ar ∷ frames) in
            let inside = length-walk_script k (ar ∷ frames) in
            let more = unify-length fuel outer.1 inner.1 (size + length outer.0 + length inner.0) (
              measure_falls fuel size (length outer.0) (length inner.0) ar frames (ground arith)
                room inside.1) in
            (
              outer.0 ++ (inner.0 ++ more.0),
              rw (room, more.1),
              omega (
                arith,
                length-append outer.0 (inner.0 ++ more.0),
                length-append inner.0 more.0,
                length-walk_native native,
                inside,
                more.2,
              ),
            )
        | inr full ↦ ([], rw full refl, omega arith)
      ]

  -- The fuel suffices, so the loops end, and they write at most as many entries as there are native and script frames.
  pub get_unified_stack-length :
      (native : List StackEntry) (frames : List LuaDebug)
      → (r : List StackEntry) × (get_unified_stack face s native frames ≡ some r)
        × (length r ≤ length native + length frames)
  unfolding get_unified_stack
  get_unified_stack-length native frames =
      let (r, e, le) =
        unify-length (suc (suc (length frames))) (reverse native) (reverse frames) 0
          (omega (arith, length-reverse frames)) in
      (r, e, omega (arith, length-reverse frames, length-reverse native))
