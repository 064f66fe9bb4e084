-- ===== src/Backend/Stack/Names.antt =====
-- The names in the unified stack end within their arrays, if those that they come from do.
use vecoda.Base.{
  ℕ, zero, suc, ◌+◌, ◌-◌, ◌≡◌, refl, Bool, true, ◌&&◌, List, [], ◌∷◌, ◌++◌, some, text_eq, reverse,
  take, drop, length, ltb, arith, sym, Bool-cases, Option-cases, inl, inr,
}
use mathlib.Core.Option
use mathlib.Core.List.{reverse-cons}
use mathlib.Core.Path.{subst}
use vecoda.LuaDll.{LuaInterface, LuaDebug}
use vecoda.Backend.{Backend}
use vecoda.Backend.Stack.{
  StackEntry, script_entry, walk_native, walk_script, unify, get_unified_stack, max_stack_size,
  are_terminated, names_fit, max_entry_name_length, is_lua_function, lua_pcall,
}

and_left : (a b : Bool) → (a && b) ≡ true → a ≡ true
and_left a b h = ground arith

and_right : (a b : Bool) → (a && b) ≡ true → b ≡ true
and_right a b h = ground arith

pub none_terminated : are_terminated [] ≡ true
unfolding are_terminated
none_terminated = refl

are_terminated-append :
    (xs ys : List StackEntry)
    → are_terminated xs ≡ true
    → are_terminated ys ≡ true
    → are_terminated (xs ++ ys) ≡ true
unfolding are_terminated
are_terminated-append [] ys h k = k
are_terminated-append (x ∷ xs) ys h k = ground (arith, are_terminated-append xs ys)

are_terminated-reverse :
    (xs : List StackEntry) → are_terminated xs ≡ true → are_terminated (reverse xs) ≡ true
unfolding are_terminated
are_terminated-reverse [] h = refl
are_terminated-reverse (x ∷ xs) h =
    subst (λ ys. are_terminated ys ≡ true) (sym (reverse-cons x xs))
      (are_terminated-append (reverse xs) (x ∷ []) (are_terminated-reverse xs (ground arith))
        (ground arith))

module _ (face : LuaInterface) where
  names_fit-append :
      (xs ys : List LuaDebug)
      → names_fit face xs ≡ true
      → names_fit face ys ≡ true
      → names_fit face (xs ++ ys) ≡ true
  unfolding names_fit
  names_fit-append [] ys h k = k
  names_fit-append (x ∷ xs) ys h k = ground (arith, names_fit-append xs ys)

  names_fit-reverse :
      (xs : List LuaDebug) → names_fit face xs ≡ true → names_fit face (reverse xs) ≡ true
  unfolding names_fit
  names_fit-reverse [] h = refl
  names_fit-reverse (x ∷ xs) h =
      subst (λ ys. names_fit face ys ≡ true) (sym (reverse-cons x xs))
        (names_fit-append (reverse xs) (x ∷ []) (names_fit-reverse xs (ground arith))
          (ground arith))

  pub names_fit-take :
      (k : ℕ) (xs : List LuaDebug) → names_fit face xs ≡ true → names_fit face (take k xs) ≡ true
  unfolding names_fit
  names_fit-take zero xs h = refl
  names_fit-take (suc k) [] h = refl
  names_fit-take (suc k) (x ∷ xs) h = ground (arith, names_fit-take k xs)

  pub names_fit-drop :
      (k : ℕ) (xs : List LuaDebug) → names_fit face xs ≡ true → names_fit face (drop k xs) ≡ true
  unfolding names_fit
  names_fit-drop zero xs h = h
  names_fit-drop (suc k) [] h = refl
  names_fit-drop (suc k) (x ∷ xs) h = names_fit-drop k xs (ground arith)

walk_native-terminated :
    (es : List StackEntry)
    → are_terminated es ≡ true
    → (are_terminated (walk_native es).0 ≡ true) × (are_terminated (walk_native es).1 ≡ true)
unfolding walk_native are_terminated
walk_native-terminated [] h = (refl, refl)
walk_native-terminated (e ∷ es) h =
    let here : ltb (length e.name) max_entry_name_length ≡ true = and_left _ _ h in
    let later : are_terminated es ≡ true = and_right _ _ h in
    let (up, left) = walk_native-terminated es later in
    elim (Bool-cases (text_eq e.name lua_pcall)) [
      | inl call ↦ rw (call, walk_native) (refl, later)
      | inr other ↦ elim (Bool-cases (is_lua_function e.name)) [
        | inl lua ↦ rw (other, lua, walk_native) (up, left)
        | inr own ↦ rw (other, own, walk_native) (rw (here, up) refl, left)
      ]
    ]

module _ {H : Type 0} (face : LuaInterface) (s : Backend H) where
  walk_script-terminated :
      (room : ℕ) (frames : List LuaDebug)
      → names_fit face frames ≡ true
      → (are_terminated (walk_script face s room frames).0 ≡ true)
        × (names_fit face (walk_script face s room frames).1 ≡ true)
  unfolding walk_script script_entry are_terminated names_fit
  walk_script-terminated zero frames h = (refl, h)
  walk_script-terminated (suc room) [] h = (refl, refl)
  walk_script-terminated (suc room) (ar ∷ frames) h =
      let rest = walk_script-terminated room frames (ground arith) in
      (ground (arith, rest.0, rest.1), ground (arith, rest.0, rest.1))

  unify-terminated :
      (fuel : ℕ) (native : List StackEntry) (frames : List LuaDebug) (size : ℕ)
      (r : List StackEntry)
      → are_terminated native ≡ true
      → names_fit face frames ≡ true
      → unify face s fuel native frames size ≡ some r
      → are_terminated r ≡ true
  unfolding unify
  unify-terminated zero native frames size r h k e = absurd (Option.some-ne-none r (sym e))
  unify-terminated (suc fuel) native [] size r h k e =
      subst (λ x. are_terminated x ≡ true) (Option.some-injective [] r e) none_terminated
  unify-terminated (suc fuel) native (ar ∷ frames) size r h k e =
      let outer = walk_native native in
      let j = max_stack_size - (size + length outer.0) in
      let inner = walk_script face s j (ar ∷ frames) in
      let (o, o') = walk_native-terminated native h in
      let (i, i') = walk_script-terminated j (ar ∷ frames) k in
      let n = size + length outer.0 + length inner.0 in
      elim (Bool-cases (ltb size max_stack_size)) [
        | inr full ↦
            subst (λ x. are_terminated x ≡ true)
              (Option.some-injective [] r (ground (arith, e, full))) none_terminated
        | inl more ↦ elim (Option-cases (unify face s fuel outer.1 inner.1 n)) [
          | inl out ↦ absurd (Option.some-ne-none r (ground (arith, e, more, out)))
          | inr (rest, there) ↦
              subst (λ x. are_terminated x ≡ true)
                (Option.some-injective (outer.0 ++ (inner.0 ++ rest)) r
                  (ground (arith, e, more, there)))
                (are_terminated-append outer.0 (inner.0 ++ rest) o (
                  are_terminated-append inner.0 rest i
                    (unify-terminated fuel outer.1 inner.1 n rest o' i' there)))
        ]
      ]

  pub get_unified_stack-terminated :
      (native : List StackEntry) (frames : List LuaDebug) (r : List StackEntry)
      → are_terminated native ≡ true
      → names_fit face frames ≡ true
      → get_unified_stack face s native frames ≡ some r
      → are_terminated r ≡ true
  unfolding get_unified_stack
  get_unified_stack-terminated native frames r h k e =
      unify-terminated (suc (suc (length frames))) (reverse native) (reverse frames) 0 r
        (are_terminated-reverse native h) (names_fit-reverse face frames k) e
