-- ===== src/Backend/Intercepts/Transparent.antt =====
-- That a program cannot tell an intercepted call from one that is not, by what is on its stack.
use vecoda.Base.{ℕ, ◌≡◌, Bool, true, false, List, ◌∷◌, ◌++◌, some, length, ◌==◌, if◌then◌else◌}
use vecoda.Protocol
use vecoda.LuaDll.{LuaHooks}
use vecoda.LuaDll.Functions.{Symbols, Loaded, CreateHook, load_lua_functions, hooks_made}
use vecoda.LuaDll.Functions.Calls
use vecoda.LuaDll.Stack.{ℤ, negsuc, value_at, LuaStack}
use vecoda.Backend.{Backend, get_is_attached}
use vecoda.Backend.Hook.Sound.{Ready}
use vecoda.Backend.Call.{is_handler}
use vecoda.Backend.Call.Balance.{Runs}
use vecoda.Backend.Commands.Keeps.{IsSound}
use vecoda.Backend.Intercepts.Attach.{Has, Good}
use vecoda.Backend.Intercepts.Calls.{returned, raised, lua_call_intercept, lua_pcall_intercept}

-- What a program calls: a function and its arguments, on top of the stack; the value on top is not
-- the debugger's handler.
abbrev pub HasCall : {S V : Type 0} → LuaStack S V → ℕ → S → List V → V → List V → Type 0
HasCall lua static_error_handler s below f args =
    (lua.stack s ≡ below ++ f ∷ args)
    × ((top : _) × (value_at (lua.stack s) (negsuc 0) ≡ some top)
        × (is_handler static_error_handler (lua.function_of top) ≡ false))

module _ {H S V : Type 0} ⦃hooks : LuaHooks H⦄ (lua : LuaStack S V) (static_error_handler : ℕ)
    (running : Backend H → Backend H) (api k : ℕ) (stack_ok : Bool)
    (sound : (t : Backend H) → IsSound t → IsSound (running t))
    (keeps : (p : ℕ) (t : Backend H) → Ready k p t → Ready k p (running t)) where
  open lua use {stack}

  -- The backend after the call: sound, and with the state attached if it was to be.
  abbrev pub Kept : Backend H → Backend H → Type 0
  Kept b u = IsSound u × (get_is_attached b ≡ true → Has k u)

  module _ (hook : CreateHook) (symbols : Symbols) (l : Loaded)
      (found : load_lua_functions hook symbols ≡ some l) (made : hooks_made hook symbols ≡ true)
      (s : S) (below args : List V) (f : V)
      (ready : HasCall lua static_error_handler s below f args) (nresults : ℤ) (b : Backend H)
      (g : Good b) where
    -- What an intercepted `lua_call` comes to.
    abbrev pub Called : Type 0
    Called =
        (code : ℕ) × (left : S) × (results : List V) × (u : Backend H) × (lua_call_intercept lua l
            static_error_handler running api k stack_ok (length args) nresults s b
          ≡ some (if code == 0 then returned left else raised left, u))
        × (stack left ≡ below ++ results)
        × Runs lua static_error_handler below f args lua.nil nresults code results
        × Kept b u

    -- What an intercepted `lua_pcall` comes to, where the counter of the thread is `disabled`.
    abbrev pub Pcalled : ℤ → ℤ → Type 0
    Pcalled disabled errfunc =
        (code : ℕ) × (left : S) × (results : List V) × (u : Backend H) × (lua_pcall_intercept lua l
            static_error_handler running api k stack_ok disabled (length args) nresults errfunc s b
          ≡ some ((code, left), u))
        × (stack left ≡ below ++ results)
        × Kept b u
