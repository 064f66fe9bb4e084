-- ===== src/Backend/Hook/Stop.antt =====
-- When a line event stops the program, on a machine without the work-around for LuaJIT.
use vecoda.Base.{
  ℕ, ◌≡◌, refl, ◌⊎◌, inl, inr, true, false, List, ◌++◌, Option, none, some, arith, Bool-cases,
  get_elem?, length, ap,
}
use mathlib.Core.Option
use vecoda.Protocol.{BreakReason, break_point, step}
use vecoda.Script
use vecoda.Script.{Script}
use vecoda.LuaDll.{LuaHooks, LuaInterface, hook_line, get_event, get_source, get_current_line}
use vecoda.Backend.{Mode, VirtualMachine, Backend, modify}
use vecoda.Backend.Scripts.{get_script_index}
use vecoda.Backend.Stack.{pred32, break_fields, StackEntry, fits}
use vecoda.Backend.Stack.Event.{send_break_event-Sends}
use vecoda.Backend.Hook.{View}
use vecoda.Backend.Hook.Callback.{
  steps_here, stop_reason, at_breakpoint, jit_step, keep_place, wait_for_continue,
  break_from_script, index_of_line, stop_at_line, handle_event, with_vm,
}

module _ {H : Type 0} ⦃lua : LuaHooks H⦄ (meanwhile : Backend H → Backend H) (face : LuaInterface)
    (l p : ℕ) (view : View) (s : Backend H) (vm : VirtualMachine) (index : ℕ) (script : Script)
    (event : get_event face view.ar ≡ hook_line)
    (known : get_script_index s (get_source face view.ar) ≡ some index)
    (there : get_elem? s.scripts index ≡ some script) (at_p : s.objects p ≡ some vm)
    (plain : vm.lua_jit_work_around ≡ false) (room : fits face view.native view.frames ≡ true) where
  abbrev pub line : ℕ
  line = get_current_line face view.ar

  -- The break event is sent, then the hook waits, and then the place is kept.
  abbrev pub Breaks : BreakReason → Option (Backend H) → Type 0
  Breaks reason r =
      (u : Backend H) × (r
        ≡ some (
            modify (wait_for_continue meanwhile p u) p
              (keep_place (length view.frames) line (some index))))
      × ((stack : List StackEntry) × (u.sent ≡ s.sent ++ break_fields l reason stack))

  at_line :
      handle_event meanwhile face l view p s
      ≡ stop_at_line meanwhile face l view p (some index) vm s
  unfolding handle_event
  at_line =
      let found : index_of_line meanwhile face l view.ar s ≡ (s, some index) =
        rw (known, index_of_line) in
      rw (event, found, at_p, with_vm) (simp found)

  no_work_around : (depth : ℕ) → jit_step vm depth line (some index) ≡ (vm, false)
  unfolding jit_step
  no_work_around depth = rw plain

  broken :
      (reason : BreakReason)
      → stop_reason vm false (Script.get_has_break_point script (pred32 line)) ≡ some reason
      → Breaks reason (handle_event meanwhile face l view p s)
  unfolding stop_at_line at_breakpoint break_from_script
  broken reason e =
      let (u, sent, stack, _, _) =
        send_break_event-Sends face l view.native reason 0 view.frames (modify s p (λ _. vm))
          room in
      (
        u,
        rw (at_line, stop_at_line, no_work_around (length view.frames), there, at_breakpoint, e)
            (simp (no_work_around (length view.frames))
              (ap (Option.map _) (ap (Option.map (wait_for_continue meanwhile p)) sent))),
        stack,
      )

  passed :
      stop_reason vm false (Script.get_has_break_point script (pred32 line)) ≡ none
      → handle_event meanwhile face l view p s ≡ some (modify s p (λ _. vm))
  unfolding stop_at_line at_breakpoint
  passed e =
      rw (at_line, stop_at_line, no_work_around (length view.frames), there, at_breakpoint, e)
        (simp (no_work_around (length view.frames)))

  -- A line with a breakpoint is never passed: whatever the machine's mode, a break event is sent,
  -- as a breakpoint or as a step, before the hook waits. The script of the line is known, and the
  -- machine is there and has no work-around for LuaJIT; the native and the script stack have room in
  -- the array of 100 entries, and their names are shorter than 256 characters.
  pub handle_event_breakpoint :
      Script.get_has_break_point script (pred32 line) ≡ true
      → (reason : BreakReason) × ((reason ≡ break_point) ⊎ (reason ≡ step))
        × Breaks reason (handle_event meanwhile face l view p s)
  unfolding stop_reason
  handle_event_breakpoint h = elim (Bool-cases (steps_here vm.mode vm.call_count)) [
    | inl e ↦ (step, inr refl, broken step (rw e))
    | inr e ↦ (break_point, inl refl, broken break_point (rw (e, h)))
  ]

  -- A machine that runs on stops at a line exactly if the line has a breakpoint; if it does not
  -- stop, nothing is sent. The conditions are the same.
  pub handle_event-continue :
      vm.mode ≡ Mode.continue
      → (Script.get_has_break_point script (pred32 line) ≡ true
          → Breaks break_point (handle_event meanwhile face l view p s))
        × (Script.get_has_break_point script (pred32 line) ≡ false
            → handle_event meanwhile face l view p s ≡ some (modify s p (λ _. vm)))
  unfolding stop_reason steps_here
  handle_event-continue m = (λ h. broken break_point (ground arith), λ h. passed (ground arith))
