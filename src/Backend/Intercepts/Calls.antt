-- ===== src/Backend/Intercepts/Calls.antt =====
-- The functions of LuaInject/LuaInject/LuaDll.cpp that run in place of `lua_call` and `lua_pcall`, and
-- the counter by which a thread of the debugger turns the interception off for itself. `running` is
-- what the backend does while the function runs.
use vecoda.Base.{ℕ, zero, suc, ◌+◌, ◌==◌, Bool, true, false, Option, some, if◌then◌else◌, ltb, Text}
use vecoda.Base.CString.{codes}
use vecoda.Protocol
use vecoda.LuaDll.{LuaHooks}
use vecoda.LuaDll.Functions.{Loaded}
use vecoda.LuaDll.Functions.Calls
use vecoda.LuaDll.Stack.{ℤ, pos, negsuc, ◌>>=◌, LuaStack, via, lua_gettop_dll, lua_pcall_dll}
use vecoda.Backend.{Backend}
use vecoda.Backend.Vms.{attach_state}
use vecoda.Backend.Hook.Callback.{message}
use vecoda.Backend.Call.{call}

-- `EnableIntercepts`, on the counter that the thread keeps.
unfoldable pub enable_intercepts : Bool → ℤ → ℤ
enable_intercepts true (pos zero) = negsuc 0
enable_intercepts true (pos (suc n)) = pos n
enable_intercepts true (negsuc n) = negsuc (suc n)
enable_intercepts false (pos n) = pos (suc n)
enable_intercepts false (negsuc zero) = pos 0
enable_intercepts false (negsuc (suc n)) = negsuc n

unfoldable pub get_are_intercepts_enabled : ℤ → Bool
get_are_intercepts_enabled (pos zero) = true
get_are_intercepts_enabled (pos (suc n)) = false
get_are_intercepts_enabled (negsuc n) = true

-- A call of Lua comes back, or raises the error on top of the stack.
pub data Outcome (S : Type 0) : Type 0 where
  returned raised : S → Outcome S

abbrev pub call_warning : Text
call_warning = codes "Warning 1005: lua_call called with too few arguments on the stack"

abbrev pub pcall_warning : Text
pcall_warning = codes "Warning 1005: lua_pcall called with too few arguments on the stack"

module _ {H S V : Type 0} ⦃hooks : LuaHooks H⦄ (lua : LuaStack S V) (loaded : Loaded)
    (static_error_handler : ℕ) (running : Backend H → Backend H) (api l : ℕ) (stack_ok : Bool) where
  -- The state is attached, and the front end warned if the function or arguments are missing.
  unfoldable pub attach_call : Text → ℕ → S → Backend H → Option (Backend H)
  unfolding attach_state message lua_gettop_dll
  attach_call warning nargs s b = lua_gettop_dll lua loaded s >>= λ top.
      let t = (attach_state api l stack_ok b).0 in
      some (if ltb top (nargs + 1) then message warning Protocol.message_warning t else t)

  -- `lua_call_intercept`, and `lua_callk_intercept`, which leaves its continuation out.
  unfoldable pub lua_call_intercept : ℕ → ℤ → S → Backend H → Option (Outcome S × Backend H)
  unfolding attach_call call via
  lua_call_intercept nargs nresults s b = attach_call call_warning nargs s b >>= λ t.
      call lua loaded static_error_handler s nargs nresults (pos 0) >>= λ ran.
      if ran.0 == 0
      then some (returned ran.1, running t)
      else via loaded Calls.lua_error (raised ran.1, running t)

  -- `lua_pcall_intercept`, with the thread's counter.
  unfoldable pub lua_pcall_intercept : ℤ → ℕ → ℤ → ℤ → S → Backend H → Option ((ℕ × S) × Backend H)
  unfolding attach_call call lua_pcall_dll get_are_intercepts_enabled
  lua_pcall_intercept disabled nargs nresults errfunc s b =
      attach_call pcall_warning nargs s b >>= λ t.
      (if get_are_intercepts_enabled disabled
        then call lua loaded static_error_handler s nargs nresults errfunc
        else lua_pcall_dll lua loaded s nargs nresults errfunc)
      >>= λ ran. some (ran, running t)
