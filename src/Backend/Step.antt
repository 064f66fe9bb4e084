-- ===== src/Backend/Step.antt =====
-- The stepping commands of DebugBackend.cpp. The argument `vm` is the machine's address, or `none`
-- for `nullptr`, through which these methods write: the result `none` is that undefined behaviour.
pub mod Resume
use vecoda.Base.{ℕ, Bool, true, false, Option, none, some}
use mathlib.Core.Option
use vecoda.LuaDll.{LuaHooks}
use vecoda.LuaDll.HookMode
use vecoda.Backend.{Mode, VirtualMachine, Backend, modify, hook}

abbrev pub set_step : ℕ → Mode → VirtualMachine → VirtualMachine
set_step count mode vm = record vm { call_count = count; mode = mode; break_event = true }

module _ {H : Type 0} ⦃lua : LuaHooks H⦄ where
  -- `f` done to the machine at `p`, whose state gets the full hook.
  unfoldable pub stepping :
      (VirtualMachine → VirtualMachine) → Option ℕ → Backend H → Option (Backend H)
  stepping f none s = none
  stepping f (some p) s = elim (s.objects p) [
    | none ↦ none
    | some vm ↦ some (hook (modify s p f) vm.l HookMode.HookMode.full)
  ]

  unfoldable pub step_into : Option ℕ → Backend H → Option (Backend H)
  unfolding stepping
  step_into vm s = stepping (set_step 0 Mode.step_into) vm s

  unfoldable pub step_over : Option ℕ → Backend H → Option (Backend H)
  unfolding stepping
  step_over vm s = stepping (set_step 0 Mode.step_over) vm s

  unfoldable pub step_out : Option ℕ → Backend H → Option (Backend H)
  unfolding stepping
  step_out vm s = stepping (set_step 1 Mode.step_out) vm s

  -- `Continue` leaves the hook as it is: the next event lowers it.
  unfoldable pub continue : Option ℕ → Backend H → Option (Backend H)
  continue none s = none
  continue (some p) s = elim (s.objects p) [
    | none ↦ none
    | some vm ↦ some (modify s p (set_step 0 Mode.continue))
  ]

  -- `Break`: no event is set, and the call count stays.
  unfoldable pub break : Option ℕ → Backend H → Option (Backend H)
  unfolding stepping
  break vm s = stepping (λ machine. record machine { mode = Mode.step_into }) vm s
