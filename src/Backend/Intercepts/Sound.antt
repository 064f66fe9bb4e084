-- ===== src/Backend/Intercepts/Sound.antt =====
-- What the functions that run in place of the Lua library's own keep.
use vecoda.Base.{ℕ, ◌≡◌, Bool, true, List, Option, some, if◌then◌else◌}
use mathlib.Core.Option
use vecoda.Protocol
use vecoda.Protocol.{load_exception}
use vecoda.LuaDll.{LuaHooks, LuaInterface, LuaDebug}
use vecoda.LuaDll.Functions.{Functions}
use vecoda.Backend.{Backend, get_is_attached}
use vecoda.Backend.Stack.{StackEntry, fits}
use vecoda.Backend.Hook.Callback.{message}
use vecoda.Backend.Hook.Sound.{Ready}
use vecoda.Backend.Commands.Keeps.{IsSound}
use vecoda.Backend.Intercepts.{jit_warning, Intercept, intercept, attaches}
use vecoda.Backend.Intercepts.Attach.{Has, Good}

module _ {H : Type 0} ⦃lua : LuaHooks H⦄ (meanwhile : Backend H → Backend H)
    (waits : (l p : ℕ) (t : Backend H) → Ready l p t → Ready l p (meanwhile t))
    (face : LuaInterface) (native : List StackEntry) (frames : List LuaDebug)
    (room : fits face native frames ≡ true) where
  module _ (inside : Backend H → Backend H) (keeps : (t : Backend H) → Good t → Good (inside t))
      (stays : (t : Backend H) → get_is_attached t ≡ true → get_is_attached (inside t) ≡ true)
      (api : ℕ) (stack_ok : Bool) (functions : Functions) where
    abbrev run : Intercept → Backend H → Option (Backend H)
    run = intercept meanwhile inside face native frames api stack_ok functions

    abbrev attached_by : Intercept → Option ℕ
    attached_by = attaches meanwhile inside face native frames api stack_ok functions

    -- The backend is left sound, and the state that is attached, if one is, has its machine.
    abbrev pub Serves : Option ℕ → Backend H → Option (Backend H) → Type 0
    Serves attached s r =
        (t : Backend H) × (r ≡ some t)
        × IsSound t
        × ((l : ℕ) → attached ≡ some l → get_is_attached s ≡ true → Has l t)

    -- The warning about a compiler that was turned off, if it is due.
    abbrev told : Bool → Backend H → Backend H
    told due t = if due then message jit_warning Protocol.message_warning t else t
