-- ===== src/Backend/Hook/Callback.antt =====
-- `HookCallback` of DebugBackend.cpp, with `BreakFromScript`, `WaitForContinue` and `Message`. The
-- clearing of the table cache, which is Lua's, is left out.
use vecoda.Base.{
  ℕ, ◌+◌, ◌-◌, Bool, true, false, not, ◌&&◌, ◌||◌, [], ◌∷◌, Option, none, some, ◌==◌, ltb, leb,
  if◌then◌else◌, Text, text_eq, length, index_eq,
}
use mathlib.Core.Option
use vecoda.Base.CString.{codes}
use vecoda.Protocol
use vecoda.Protocol.{BreakReason, break_point, step}
use vecoda.Script
use vecoda.Script.{Script}
use vecoda.LuaDll.{
  LuaHooks, LuaInterface, LuaDebug, hook_line, get_event, get_source, get_current_line,
  get_is_hook_event_ret, get_is_hook_event_call,
}
use vecoda.LuaDll.HookMode
use vecoda.LuaDll.HookMode.{is_full}
use vecoda.Backend.{
  Mode, step_over, step_into, step_out, VirtualMachine, uint32, uint, string, Backend, write,
  modify, hook, find_state,
}
use vecoda.Backend.Vms.{attach_state}
use vecoda.Backend.Scripts.{get_script_index, register_script_of}
use vecoda.Backend.Stack.{pred32, send_break_event}
use vecoda.Backend.Hook.{View, is_continue, is_step_over, script_at, update_hook_mode}

-- Whether a machine that is stepping stops at a line.
unfoldable pub steps_here : Mode → ℕ → Bool
steps_here Mode.continue count = false
steps_here step_over count = count == 0
steps_here step_into count = true
steps_here step_out count = count == 0

-- Why the hook stops at a line, if it does: a step hides a breakpoint, and the line on which the
-- last stop was counts only once.
unfoldable pub stop_reason : VirtualMachine → Bool → Bool → Option BreakReason
unfolding steps_here
stop_reason vm on_last at_breakpoint =
    if not on_last && steps_here vm.mode vm.call_count
    then some step
    else (if not on_last && at_breakpoint then some break_point else none)

-- Whether a line of Lua has a breakpoint in its script.
unfoldable pub at_breakpoint : Option Script → ℕ → Bool
unfolding Script.get_has_break_point
at_breakpoint none line = false
at_breakpoint (some script) line = Script.get_has_break_point script (pred32 line)

-- Whether the line is still that of the last stop.
abbrev pub is_last_step_line : VirtualMachine → ℕ → ℕ → Option ℕ → Bool
is_last_step_line vm depth line index =
    vm.last_step_line == line
    && (index_eq vm.last_step_script index
        && (not (vm.call_stack_depth == 0) && depth == vm.call_stack_depth))

-- The work-around for LuaJIT, which reports a line more than once and no return from a C function:
-- the stack depth tells when a step over has come back.
unfoldable pub jit_step : VirtualMachine → ℕ → ℕ → Option ℕ → VirtualMachine × Bool
jit_step vm depth line index =
    let on_last = is_last_step_line vm depth line index in
    if vm.lua_jit_work_around
    then (
      (if is_step_over vm.mode
            && (ltb 0 vm.call_stack_depth
                && (ltb depth vm.call_stack_depth || (depth == vm.call_stack_depth && not on_last)))
          then record vm { call_count = 0; call_stack_depth = 0 }
          else vm),
      on_last,
    )
    else (vm, false)

abbrev pub counts : Mode → Bool
counts step_over = true
counts step_out = true
counts _ = false

-- The count of calls at an event that is not a line.
unfoldable pub count_call : LuaInterface → ℕ → VirtualMachine → VirtualMachine
count_call face event vm =
    if counts vm.mode
    then (if get_is_hook_event_ret face event
        then (if ltb 0 vm.call_count then record vm { call_count = vm.call_count - 1 } else vm)
        else (if get_is_hook_event_call face event
            then record vm { call_count = vm.call_count + 1 }
            else vm))
    else vm

-- Under the work-around the place of the stop is kept.
abbrev pub keep_place : ℕ → ℕ → Option ℕ → VirtualMachine → VirtualMachine
keep_place depth line index vm =
    if vm.lua_jit_work_around
    then record vm { call_stack_depth = depth; last_step_line = line; last_step_script = index }
    else vm

-- An access through a `VirtualMachine*`.
abbrev pub with_vm {ℓ} :
    {A : Type ℓ} {H : Type 0} → Backend H → ℕ → (VirtualMachine → Option A) → Option A
with_vm s p f = elim (s.objects p) [ none ↦ none | some vm ↦ f vm ]

module _ {H : Type 0} where
  unfoldable pub message : Text → ℕ → Backend H → Backend H
  message text type s =
      write s (uint32 Protocol.event_message ∷ uint 0 ∷ uint32 type ∷ string text ∷ [])

  -- At the first line event of a machine: whether Lua is LuaJIT 2.
  unfoldable pub initialize : LuaInterface → View → ℕ → VirtualMachine → Backend H → Backend H
  unfolding message
  initialize face view p vm s =
      let jit = elim view.jit_version as (λ _. Bool) [ none ↦ false | some v ↦ leb 20000 v ] in
      if not vm.initialized && get_event face view.ar == hook_line
      then (if jit
          then message (codes "Warning 1009: Enabling LuaJIT C call return work-around")
              Protocol.message_warning
              (modify s p
                (λ machine. record machine { lua_jit_work_around = true; initialized = true }))
          else modify s p (λ machine. record machine { initialized = true }))
      else s

  -- The name that the program gives its state is sent when it changes.
  unfoldable pub poll_name : View → ℕ → ℕ → VirtualMachine → Backend H → Backend H
  poll_name view l p vm s =
      let name = elim view.vm_name as (λ _. Text) [ none ↦ [] | some n ↦ n ] in
      if text_eq name vm.name
      then s
      else write (modify s p (λ machine. record machine { name = name }))
          (uint32 Protocol.event_name_vm ∷ uint l ∷ string name ∷ [])

  -- `WaitForContinue`, after which the break event is unset.
  unfoldable pub wait_for_continue : (Backend H → Backend H) → ℕ → Backend H → Backend H
  wait_for_continue meanwhile p s = modify (meanwhile s) p (λ vm. record vm { break_event = false })

  unfoldable pub break_from_script :
      (Backend H → Backend H)
      → LuaInterface
      → ℕ
      → View
      → ℕ
      → BreakReason
      → Backend H
      → Option (Backend H)
  unfolding wait_for_continue
  break_from_script meanwhile face l view p reason s =
      Option.map (wait_for_continue meanwhile p)
        (send_break_event face l view.native reason 0 view.frames s)

  -- The script of a line event, which is registered if it is new.
  unfoldable pub index_of_line :
      (Backend H → Backend H) → LuaInterface → ℕ → LuaDebug → Backend H → Backend H × Option ℕ
  unfolding get_script_index
  index_of_line meanwhile face l ar s = elim (get_script_index s (get_source face ar)) [
    | some i ↦ (s, some i)
    | none ↦ register_script_of meanwhile face l ar s
  ]

  -- A line event, once its script is known.
  unfoldable pub stop_at_line :
      (Backend H → Backend H)
      → LuaInterface
      → ℕ
      → View
      → ℕ
      → Option ℕ
      → VirtualMachine
      → Backend H
      → Option (Backend H)
  unfolding break_from_script stop_reason at_breakpoint jit_step
  stop_at_line meanwhile face l view p index vm s =
      let line = get_current_line face view.ar in
      let depth = length view.frames in
      let (vm', on_last) = jit_step vm depth line index in
      let t = modify s p (λ _. vm') in
      elim (stop_reason vm' on_last (at_breakpoint (script_at s.scripts index) line)) [
        | none ↦ some t
        | some reason ↦
            Option.map (λ u. modify u p (keep_place depth line index))
              (break_from_script meanwhile face l view p reason t)
      ]

module _ {H : Type 0} ⦃lua : LuaHooks H⦄ (meanwhile : Backend H → Backend H)
    (face : LuaInterface) where
  -- The hook is lowered while the program runs on, and raised while it steps.
  unfoldable pub adjust_hook : ℕ → View → ℕ → VirtualMachine → Backend H → Option (Backend H)
  unfolding update_hook_mode
  adjust_hook l view p vm s =
      let raised =
        if is_full (HookMode.get_hook_mode s.hooks l) then s else hook s l HookMode.HookMode.full in
      if is_continue vm.mode
      then update_hook_mode meanwhile face l view.ar view.frames s
      else some (modify raised p (λ machine. record machine { breakpoint_in_stack = true }))

  unfoldable pub handle_event : ℕ → View → ℕ → Backend H → Option (Backend H)
  unfolding index_of_line stop_at_line count_call
  handle_event l view p s =
      let event = get_event face view.ar in
      let (t, index) = index_of_line meanwhile face l view.ar s in
      if event == hook_line
      then with_vm t p (λ vm. stop_at_line meanwhile face l view p index vm t)
      else some (modify s p (count_call face event))

  -- The callback for a machine that is there.
  unfoldable pub callback_at : ℕ → View → ℕ → Backend H → Option (Backend H)
  unfolding initialize poll_name adjust_hook handle_event
  callback_at l view p s = with_vm s p λ vm.
      let t = poll_name view l p vm (initialize face view p vm s) in
      Option.bind (adjust_hook l view p vm t) (handle_event l view p)

  -- `attach_stack_ok` is what `lua_checkstack` answers to `AttachState`.
  unfoldable pub hook_callback : ℕ → ℕ → Bool → View → Backend H → Option (Backend H)
  unfolding callback_at
  hook_callback api l attach_stack_ok view s =
      if view.stack_ok
      then elim (find_state l s.state_to_vm) [
        | some p ↦ callback_at l view p s
        | none ↦
            let (t, attached) = attach_state api l attach_stack_ok s in
            elim attached [ none ↦ none | some p ↦ callback_at l view p t ]
      ]
      else some s
