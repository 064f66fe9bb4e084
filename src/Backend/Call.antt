-- ===== src/Backend/Call.antt =====
-- `Call` of LuaInject/LuaInject/DebugBackend.cpp, which runs a function of the program with the
-- debugger's error handler.
pub mod Balance
use vecoda.Base.{
  ℕ, zero, suc, ◌+◌, ◌-◌, ◌==◌, Bool, true, false, Option, none, some, if◌then◌else◌, leb,
}
use vecoda.LuaDll.Functions.{Loaded}
use vecoda.LuaDll.Stack.{
  ℤ, pos, negsuc, ◌>>=◌, LuaStack, lua_gettop_dll, lua_insert_dll, lua_remove_dll,
  lua_pushvalue_dll, lua_pushnil_dll, lua_pushcclosure_dll, lua_tocfunction_dll, lua_pcall_dll,
}

unfoldable pub is_zero : ℤ → Bool
is_zero (pos zero) = true
is_zero (pos (suc n)) = false
is_zero (negsuc n) = false

-- Whether a C function is `StaticErrorHandler`, at its address.
unfoldable pub is_handler : ℕ → Option ℕ → Bool
is_handler static_error_handler none = false
is_handler static_error_handler (some f) = f == static_error_handler

module _ {S V : Type 0} (lua : LuaStack S V) (l : Loaded) (static_error_handler : ℕ) where
  -- The test whether the handler is what is called, or the error function.
  unfoldable pub is_ours : S → ℤ → Option Bool
  unfolding lua_tocfunction_dll is_zero is_handler
  is_ours s errorfunc = lua_tocfunction_dll lua l s (negsuc 0) >>= λ f.
      if is_handler static_error_handler f
      then some true
      else (if is_zero errorfunc
          then some false
          else lua_tocfunction_dll lua l s errorfunc >>= λ g.
              some (is_handler static_error_handler g))

  -- The call with the handler below the function, with the error function as its up value.
  unfoldable pub call_handled : S → ℕ → ℤ → ℤ → Option (ℕ × S)
  unfolding is_zero lua_pushnil_dll lua_pushvalue_dll lua_pushcclosure_dll lua_gettop_dll
      lua_insert_dll lua_pcall_dll lua_remove_dll
  call_handled s nargs nresults errorfunc =
      (if is_zero errorfunc then lua_pushnil_dll lua l s else lua_pushvalue_dll lua l s errorfunc)
      >>= λ pushed. lua_pushcclosure_dll lua l pushed static_error_handler 1 >>= λ closed.
          lua_gettop_dll lua l closed >>= λ top.
          lua_insert_dll lua l closed (pos (top - (nargs + 1))) >>= λ ready.
          lua_pcall_dll lua l ready nargs nresults (pos (top - (nargs + 1))) >>= λ ran.
          lua_remove_dll lua l ran.1 (pos (top - (nargs + 1))) >>= λ left. some (ran.0, left)

  unfoldable pub call : S → ℕ → ℤ → ℤ → Option (ℕ × S)
  unfolding is_ours call_handled lua_gettop_dll lua_pcall_dll
  call s nargs nresults errorfunc = is_ours s errorfunc >>= λ ours.
      if ours
      then lua_pcall_dll lua l s nargs nresults errorfunc
      else (lua_gettop_dll lua l s >>= λ top.
          if leb (nargs + 1) top
          then call_handled s nargs nresults errorfunc
          else lua_pcall_dll lua l s nargs nresults errorfunc)
