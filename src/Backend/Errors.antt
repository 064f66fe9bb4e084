-- ===== src/Backend/Errors.antt =====
-- `PostLoadScript`, `SendExceptionEvent` and `ErrorHandler` of DebugBackend.cpp: what the backend
-- does with a script that has been loaded and with an error. What other threads do during a wait is
-- the argument `meanwhile`; the clearing of the table cache and the call of the program's own error
-- function, which are Lua's, are left out. The result `none` is undefined behaviour, a write past the
-- end of the array of the stack.
use vecoda.Base.{
  ℕ, Bool, false, List, [], ◌∷◌, Option, none, some, ◌==◌, if◌then◌else◌, Text, is_some,
}
use mathlib.Core.Option
use vecoda.Base.CString.{codes}
use vecoda.Protocol
use vecoda.Protocol.{BreakReason, exception, load_exception}
use vecoda.LuaDll.{LuaInterface, LuaDebug}
use vecoda.Backend.{uint32, uint, string, Field, Backend, write, get_vm, get_is_attached}
use vecoda.Backend.Scripts.{register_script}
use vecoda.Backend.Stack.{StackEntry, send_break_event}
use vecoda.Backend.Hook.Callback.{message, wait_for_continue}
use vecoda.Backend.Commands.{get_is_exception_ignored}

abbrev pub load_error_event : ℕ → Text → List Field
load_error_event l text = uint32 Protocol.event_load_error ∷ uint l ∷ string text ∷ []

abbrev pub exception_event : ℕ → Text → List Field
exception_event l text = uint32 Protocol.event_exception ∷ uint l ∷ string text ∷ []

-- The message of an error, which may be no string.
abbrev pub error_text : Option Text → Text
error_text none = codes "No error message available"
error_text (some text) = text

module _ {H : Type 0} (meanwhile : Backend H → Backend H) (face : LuaInterface) (l : ℕ)
    (native : List StackEntry) (frames : List LuaDebug) where
  -- `SendExceptionEvent`.
  unfoldable pub send_exception_event : Text → Backend H → Backend H
  send_exception_event text s = write s (exception_event l text)

  -- A break with the top of the stack, then the wait on the machine, if there is one.
  unfoldable pub break_and_wait : BreakReason → Backend H → Option (Backend H)
  unfolding send_break_event wait_for_continue get_vm
  break_and_wait reason s =
      Option.bind (send_break_event face l native reason 1 frames s)
        λ t. some (elim (get_vm t l) [ none ↦ t | some p ↦ wait_for_continue meanwhile p t ])

  -- The part of `PostLoadScript` for a script that did not load.
  unfoldable pub report_load_error : ℕ → Text → Backend H → Option (Backend H)
  unfolding break_and_wait
  report_load_error result text s =
      let broken = break_and_wait load_exception (write s (load_error_event l text)) in
      if result == 0 then some s else broken

  -- `PostLoadScript`: `result` is what the load gave, and `text` its error message.
  unfoldable pub post_load_script :
      ℕ → Text → Option Text → Option Text → Backend H → Option (Backend H × ℕ)
  unfolding report_load_error register_script get_is_attached
  post_load_script result text source name s =
      let (t, new) = register_script l source name false s in
      let loaded =
        Option.map
          (λ u. ((if is_some new then record (meanwhile u) { load_event = false } else u), result))
          (report_load_error result text t) in
      if get_is_attached s then loaded else some (s, result)

  -- The part of `ErrorHandler` that tells the front end; `held` says whether the break lock was got.
  unfoldable pub error_handler : Bool → Option Text → Backend H → Option (Backend H)
  unfolding get_is_exception_ignored send_exception_event break_and_wait message
  error_handler held text s =
      let broken = break_and_wait exception (send_exception_event (error_text text) s) in
      if get_is_exception_ignored (error_text text) s
      then some s
      else (if held then broken else some (message (error_text text) Protocol.message_error s))
