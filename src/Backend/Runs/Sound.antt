-- ===== src/Backend/Runs/Sound.antt =====
-- What every run of the backend keeps.
use vecoda.Base.{Bool, Option, Text}
use vecoda.LuaDll.{LuaHooks}
use vecoda.Backend.{Backend}
use vecoda.Backend.Commands.{Command}
use vecoda.Backend.Commands.Keeps.{IsSound}
use vecoda.Backend.Commands.Carried.{on_request-IsSound}
use vecoda.Backend.Hook.CallbackSound.{is_clear, hook_callback-Yields}
use vecoda.Backend.Hook.Sound.{Yields-some}
use vecoda.Backend.Runs.{Step, attaches, detaches, registers, commands, calls, Runs, stays, goes}
use vecoda.Backend.Runs.Parts.{attach_state-IsSound, detach_state-IsSound, register_script-IsSound}

module _ {H : Type 0} ⦃lua : LuaHooks H⦄ (answer : Command → Option (Bool × Text)) where
  mutual
    Step_keeps : (s t : Backend H) → Step answer s t → IsSound s → IsSound t
    Step_keeps s t (attaches api l ok _ empty) v = attach_state-IsSound api l ok s v empty
    Step_keeps s t (detaches l _) v = detach_state-IsSound l s v
    Step_keeps s t (registers l source name missing _) v =
        register_script-IsSound l source name missing s v
    Step_keeps s t (commands r _ _ admitted e) v = on_request-IsSound answer r s t v admitted e
    Step_keeps s t (calls face api l ok view meanwhile _ _ runs keeps unknown e) v =
        (Yields-some (is_clear face view) _ _ t e (
          hook_callback-Yields l meanwhile
            (λ p u h at_p. (Runs_keep u (meanwhile u) (runs u h) h, keeps p u h at_p)) face api ok
            view s (is_clear face view) (λ clear. clear) v unknown)).0

    Runs_keep : (s t : Backend H) → Runs answer s t → IsSound s → IsSound t
    Runs_keep s t (stays _) v = v
    Runs_keep s u (goes _ t _ step rest) v = Runs_keep t u rest (Step_keeps s t step v)

  -- Whatever states come and go, scripts are loaded, debug events are handled and commands carried
  -- out, in any order, and with runs of the same kind while an event waits, a sound backend stays
  -- sound: the machines are in step, names lead to scripts that are there, and each machine's flag
  -- says whether some script has a breakpoint. Commands name machines and scripts that are there; no
  -- state is attached while none is there and a script has a breakpoint; an event of a new state
  -- comes while the backend is attached and Lua has room; and its machine stays while it waits.
  pub Runs-IsSound : (s t : Backend H) → Runs answer s t → IsSound s → IsSound t
  Runs-IsSound s t r v = Runs_keep s t r v
