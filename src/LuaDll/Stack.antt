-- ===== src/LuaDll/Stack.antt =====
-- The stack of a Lua state, and the functions of LuaInject/LuaInject/LuaDll.cpp that move its values.
-- What the library does is the interface `LuaStack`; a call through a null pointer gives `none`.
pub mod Moves
use vecoda.Base.{
  ℕ, zero, suc, ◌≡◌, Bool, true, false, List, [], ◌∷◌, ◌++◌, reverse, Option, none, some,
  if◌then◌else◌, length, get_elem?, is_some,
}
use vecoda.Base.CString.{codes}
use vecoda.LuaDll.Functions.{Loaded}
use vecoda.LuaDll.Functions.Calls

-- An `int`; `negsuc n` is -(n + 1).
pub data ℤ : Type 0 where
  pos : ℕ → ℤ
  negsuc : ℕ → ℤ

infixl 5 ◌>>=◌
abbrev pub ◌>>=◌ {ℓ κ} : {A : Type ℓ} {B : Type κ} → Option A → (A → Option B) → Option B
none >>= f = none
some a >>= f = f a

-- The value at an index: from the bottom, which is 1, or from the top, which is -1.
unfoldable pub value_at {ℓ} : {V : Type ℓ} → List V → ℤ → Option V
value_at xs (pos zero) = none
value_at xs (pos (suc i)) = get_elem? xs i
value_at xs (negsuc n) = get_elem? (reverse xs) n

-- The library's functions, in a state of it with a stack of values, the bottom first, as its manual
-- has them. The C function of a value is `none` if the value is not one.
pub record LuaStack (S V : Type 0) : Type 0 where
  pub stack : S → List V
  pub nil : V
  pub closure : ℕ → V → V
  pub function_of : V → Option ℕ
  pub rotate : S → ℤ → ℤ → S
  pub insert : S → ℤ → S
  pub remove : S → ℤ → S
  pub settop : S → ℤ → S
  pub pushvalue : S → ℤ → S
  pub pushnil : S → S
  pub pushcclosure : S → ℕ → ℕ → S
  pub pcall : S → ℕ → ℤ → ℤ → ℕ × S
  pub rotate_up-stack :
      (s : S) (xs ys : List V) (x : V)
      → stack s ≡ xs ++ (ys ++ x ∷ [])
      → stack (rotate s (pos (suc (length xs))) (pos 1)) ≡ xs ++ x ∷ ys
  pub rotate_down-stack :
      (s : S) (xs ys : List V) (x : V)
      → stack s ≡ xs ++ x ∷ ys
      → stack (rotate s (pos (suc (length xs))) (negsuc 0)) ≡ xs ++ (ys ++ x ∷ [])
  pub insert-stack :
      (s : S) (xs ys : List V) (x : V)
      → stack s ≡ xs ++ (ys ++ x ∷ [])
      → stack (insert s (pos (suc (length xs)))) ≡ xs ++ x ∷ ys
  pub remove-stack :
      (s : S) (xs ys : List V) (x : V)
      → stack s ≡ xs ++ x ∷ ys
      → stack (remove s (pos (suc (length xs)))) ≡ xs ++ ys
  pub settop-stack :
      (s : S) (xs ys : List V) → stack s ≡ xs ++ ys → stack (settop s (negsuc (length ys))) ≡ xs
  pub pushvalue-stack :
      (s : S) (i : ℤ) (v : V)
      → value_at (stack s) i ≡ some v
      → stack (pushvalue s i) ≡ stack s ++ v ∷ []
  pub pushnil-stack : (s : S) → stack (pushnil s) ≡ stack s ++ nil ∷ []
  pub pushcclosure-stack :
      (s : S) (f : ℕ) (xs : List V) (v : V)
      → stack s ≡ xs ++ v ∷ []
      → stack (pushcclosure s f 1) ≡ xs ++ closure f v ∷ []
  -- The function and its arguments make room for the results.
  pub pcall-stack :
      (s : S) (xs args : List V) (f : V) (nresults errfunc : ℤ)
      → stack s ≡ xs ++ f ∷ args
      → (results : List V) × (stack (pcall s (length args) nresults errfunc).1 ≡ xs ++ results)

-- What a function of the layer gives, which is nothing through a null pointer.
unfoldable pub through {ℓ} : {A : Type ℓ} → Calls.Callee → A → Option A
through (Calls.calls address) a = some a
through Calls.emulated a = some a
through Calls.null_call a = none

unfoldable pub via {ℓ} : {A : Type ℓ} → Loaded → Calls.Wrapper → A → Option A
unfolding Calls.callee through
via l w a = through (Calls.callee l w) a

module _ {S V : Type 0} (lua : LuaStack S V) (l : Loaded) where
  unfoldable pub has_rotate : Bool
  has_rotate = is_some (l.functions (codes "lua_rotate"))

  unfoldable pub lua_gettop_dll : S → Option ℕ
  unfolding via
  lua_gettop_dll s = via l Calls.lua_gettop (length (lua.stack s))

  unfoldable pub lua_pop_dll : S → ℕ → Option S
  unfolding via
  lua_pop_dll s n = via l Calls.lua_settop (lua.settop s (negsuc n))

  unfoldable pub lua_insert_dll : S → ℤ → Option S
  unfolding via has_rotate
  lua_insert_dll s i =
      via l Calls.lua_insert (if has_rotate then lua.rotate s i (pos 1) else lua.insert s i)

  unfoldable pub lua_remove_dll : S → ℤ → Option S
  unfolding via has_rotate lua_pop_dll
  lua_remove_dll s i =
      if has_rotate
      then lua_pop_dll (lua.rotate s i (negsuc 0)) 1
      else via l Calls.lua_remove (lua.remove s i)

  unfoldable pub lua_pushvalue_dll : S → ℤ → Option S
  unfolding via
  lua_pushvalue_dll s i = via l Calls.lua_pushvalue (lua.pushvalue s i)

  unfoldable pub lua_pushnil_dll : S → Option S
  unfolding via
  lua_pushnil_dll s = via l Calls.lua_pushnil (lua.pushnil s)

  unfoldable pub lua_pushcclosure_dll : S → ℕ → ℕ → Option S
  unfolding via
  lua_pushcclosure_dll s f n = via l Calls.lua_pushcclosure (lua.pushcclosure s f n)

  unfoldable pub lua_tocfunction_dll : S → ℤ → Option (Option ℕ)
  unfolding via value_at
  lua_tocfunction_dll s i =
      via l Calls.lua_tocfunction
        (elim (value_at (lua.stack s) i) [ none ↦ none | some v ↦ lua.function_of v ])

  unfoldable pub lua_pcall_dll : S → ℕ → ℤ → ℤ → Option (ℕ × S)
  unfolding via
  lua_pcall_dll s nargs nresults errfunc =
      via l Calls.lua_pcall (lua.pcall s nargs nresults errfunc)
