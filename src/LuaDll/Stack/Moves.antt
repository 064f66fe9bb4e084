-- ===== src/LuaDll/Stack/Moves.antt =====
-- The functions that move values, after `LoadLuaFunctions`: whichever of the library's functions they
-- go by, they do the same.
use mathlib.Core.List.{append_assoc}
use mathlib.Core.Option
use mathlib.Core.Path.{subst}
use vecoda.Base.{
  ℕ, zero, suc, ◌≡◌, ◌≢◌, refl, List, [], ◌∷◌, ◌++◌, some, All, get_elem?, length, Bool-cases, inl,
  inr, arith, sym, ◌∙◌,
}
use vecoda.LuaDll.Functions.{Loaded}
use vecoda.LuaDll.Functions.Calls
use vecoda.LuaDll.Functions.Calls.{wrappers}
use vecoda.LuaDll.Stack.{
  ℤ, pos, negsuc, value_at, LuaStack, through, via, has_rotate, lua_gettop_dll, lua_pop_dll,
  lua_insert_dll, lua_remove_dll, lua_pushvalue_dll, lua_pushnil_dll, lua_pushcclosure_dll,
  lua_tocfunction_dll, lua_pcall_dll,
}

-- No function that the debugger calls is missing.
abbrev pub IsUsable : Loaded → Type 0
IsUsable l = All (λ w. Calls.callee l w ≢ Calls.null_call) wrappers

through-some {ℓ} :
    {A : Type ℓ} (c : Calls.Callee) (a : A) → c ≢ Calls.null_call → through c a ≡ some a
unfolding through
through-some (Calls.calls address) a h = refl
through-some Calls.emulated a h = refl
through-some Calls.null_call a h = absurd (h refl)

pub via-some {ℓ} :
    {A : Type ℓ} (l : Loaded) (w : Calls.Wrapper) (a : A)
    → Calls.callee l w ≢ Calls.null_call
    → via l w a ≡ some a
unfolding via
via-some l w a h = through-some (Calls.callee l w) a h

All-get {ℓ κ} :
    {A : Type ℓ} (P : A → Type κ) (xs : List A) (i : ℕ) (x : A)
    → get_elem? xs i ≡ some x
    → All P xs
    → P x
All-get P [] i x e a = absurd (ground arith)
All-get P (y ∷ ys) zero x e a = subst P (Option.some-injective y x e) a.0
All-get P (y ∷ ys) (suc i) x e a = All-get P ys i x e a.1

module _ {S V : Type 0} (lua : LuaStack S V) (l : Loaded) (u : IsUsable l) where
  open lua use {stack}

  -- By its place in the list of functions.
  pub usable :
      (i : ℕ) {w : Calls.Wrapper}
      → get_elem? wrappers i ≡ some w
      → Calls.callee l w ≢ Calls.null_call
  usable i {w} e = All-get (λ x. Calls.callee l x ≢ Calls.null_call) wrappers i w e u

  pub lua_gettop_dll-length : (s : S) → lua_gettop_dll lua l s ≡ some (length (stack s))
  unfolding lua_gettop_dll
  lua_gettop_dll-length s = via-some l Calls.lua_gettop (length (stack s)) (usable 21 refl)

  pub lua_pop_dll-stack :
      (s : S) (xs ys : List V)
      → stack s ≡ xs ++ ys
      → (t : S) × (lua_pop_dll lua l s (length ys) ≡ some t) × (stack t ≡ xs)
  unfolding lua_pop_dll
  lua_pop_dll-stack s xs ys e = (
    lua.settop s (negsuc (length ys)),
    via-some l Calls.lua_settop (lua.settop s (negsuc (length ys))) (usable 9 refl),
    lua.settop-stack s xs ys e,
  )

  -- `lua_insert_dll` moves the top to the place of the index, by `lua_rotate` or by `lua_insert`.
  pub lua_insert_dll-stack :
      (s : S) (xs ys : List V) (x : V)
      → stack s ≡ xs ++ (ys ++ x ∷ [])
      → (t : S) × (lua_insert_dll lua l s (pos (suc (length xs))) ≡ some t)
        × (stack t ≡ xs ++ x ∷ ys)
  unfolding lua_insert_dll
  lua_insert_dll-stack s xs ys x e =
      let i = pos (suc (length xs)) in
      elim (Bool-cases (has_rotate lua l)) [
        | inl rotates ↦ (
          lua.rotate s i (pos 1),
          rw (rotates, lua_insert_dll)
              (via-some l Calls.lua_insert (lua.rotate s i (pos 1)) (usable 33 refl)),
          lua.rotate_up-stack s xs ys x e,
        )
        | inr inserts ↦ (
          lua.insert s i,
          rw (inserts, lua_insert_dll)
              (via-some l Calls.lua_insert (lua.insert s i) (usable 33 refl)),
          lua.insert-stack s xs ys x e,
        )
      ]

  -- `lua_remove_dll` takes the value of the index away, by `lua_rotate` and a pop or by `lua_remove`.
  pub lua_remove_dll-stack :
      (s : S) (xs ys : List V) (x : V)
      → stack s ≡ xs ++ x ∷ ys
      → (t : S) × (lua_remove_dll lua l s (pos (suc (length xs))) ≡ some t) × (stack t ≡ xs ++ ys)
  unfolding lua_remove_dll
  lua_remove_dll-stack s xs ys x e =
      let i = pos (suc (length xs)) in
      elim (Bool-cases (has_rotate lua l)) [
        | inl rotates ↦
            let (t, popped, left) =
              lua_pop_dll-stack (lua.rotate s i (negsuc 0)) (xs ++ ys) (x ∷ [])
                (lua.rotate_down-stack s xs ys x e ∙ sym (append_assoc xs ys (x ∷ []))) in
            (t, rw (rotates, lua_remove_dll) popped, left)
        | inr removes ↦ (
          lua.remove s i,
          rw (removes, lua_remove_dll)
              (via-some l Calls.lua_remove (lua.remove s i) (usable 32 refl)),
          lua.remove-stack s xs ys x e,
        )
      ]

  pub lua_pushvalue_dll-stack :
      (s : S) (i : ℤ) (v : V)
      → value_at (stack s) i ≡ some v
      → (t : S) × (lua_pushvalue_dll lua l s i ≡ some t) × (stack t ≡ stack s ++ v ∷ [])
  unfolding lua_pushvalue_dll
  lua_pushvalue_dll-stack s i v e = (
    lua.pushvalue s i,
    via-some l Calls.lua_pushvalue (lua.pushvalue s i) (usable 15 refl),
    lua.pushvalue-stack s i v e,
  )

  pub lua_pushnil_dll-stack :
      (s : S) → (t : S) × (lua_pushnil_dll lua l s ≡ some t) × (stack t ≡ stack s ++ lua.nil ∷ [])
  unfolding lua_pushnil_dll
  lua_pushnil_dll-stack s = (
    lua.pushnil s,
    via-some l Calls.lua_pushnil (lua.pushnil s) (usable 13 refl),
    lua.pushnil-stack s,
  )

  pub lua_pushcclosure_dll-stack :
      (s : S) (f : ℕ) (xs : List V) (v : V)
      → stack s ≡ xs ++ v ∷ []
      → (t : S) × (lua_pushcclosure_dll lua l s f 1 ≡ some t)
        × (stack t ≡ xs ++ lua.closure f v ∷ [])
  unfolding lua_pushcclosure_dll
  lua_pushcclosure_dll-stack s f xs v e = (
    lua.pushcclosure s f 1,
    via-some l Calls.lua_pushcclosure (lua.pushcclosure s f 1) (usable 14 refl),
    lua.pushcclosure-stack s f xs v e,
  )

  pub lua_tocfunction_dll-some :
      (s : S) (i : ℤ) (v : V)
      → value_at (stack s) i ≡ some v
      → lua_tocfunction_dll lua l s i ≡ some (lua.function_of v)
  unfolding lua_tocfunction_dll
  lua_tocfunction_dll-some s i v e =
      rw (e, lua_tocfunction_dll)
        (via-some l Calls.lua_tocfunction (lua.function_of v) (usable 19 refl))

  pub lua_pcall_dll-some :
      (s : S) (nargs : ℕ) (nresults errfunc : ℤ)
      → lua_pcall_dll lua l s nargs nresults errfunc ≡ some (lua.pcall s nargs nresults errfunc)
  unfolding lua_pcall_dll
  lua_pcall_dll-some s nargs nresults errfunc =
      via-some l Calls.lua_pcall (lua.pcall s nargs nresults errfunc) (usable 43 refl)
