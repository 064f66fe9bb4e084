-- ===== src/Backend/Hook.antt =====
-- `HookCallback`, `UpdateHookMode` and `StackHasBreakpoint` of DebugBackend.cpp: what a debug event
-- of Lua does. What Lua answers during the callback is the record `View`; what other threads do
-- while the hook waits with the critical section left is the argument `meanwhile`. The result
-- `none` is undefined behaviour: a use of a null `VirtualMachine*`, a string made of a null `char*`,
-- a write past the end of the array of the stack.
pub mod Callback
pub mod Update
pub mod Sound
pub mod UpdateSound
pub mod EventSound
pub mod CallbackSound
pub mod Stop
pub mod Count
pub mod Activations
use vecoda.Base.{
  ℕ, suc, ◌+◌, ◌-◌, Bool, true, false, not, ◌&&◌, ◌||◌, List, [], ◌∷◌, ◌++◌, Option, none, some,
  ◌==◌, ltb, leb, if◌then◌else◌, Text, text_eq, length, get_elem?, index_eq,
}
use mathlib.Core.Option
use vecoda.Protocol
use vecoda.Protocol.{BreakReason}
use vecoda.Script
use vecoda.Script.{Script}
use vecoda.LuaDll.{
  LuaHooks, LuaInterface, LuaDebug, minus_one, hook_line, get_event, get_source, get_current_line,
  get_line_defined, get_last_line_defined, get_is_hook_event_ret, get_is_hook_event_call,
}
use vecoda.LuaDll.HookMode
use vecoda.LuaDll.HookMode.{HookMode, is_full, mode_eq}
use vecoda.Backend.{VirtualMachine, uint32, uint, string, Backend, write, modify, hook, get_vm}
use vecoda.Backend
use vecoda.Backend.Vms.{attach_state}
use vecoda.Backend.Scripts.{get_script_index, register_script_of}
use vecoda.Backend.Stack.{StackEntry, pred32, send_break_event}

-- What Lua, and the debug-help library, answer during one callback: whether the stack could be
-- grown, `jit.version_num` if there is a `jit`, `decoda_name`, the event, and the two stacks.
pub record View : Type 0 where
  pub stack_ok : Bool
  pub jit_version : Option ℕ
  pub vm_name : Option Text
  pub ar : LuaDebug
  pub frames : List LuaDebug
  pub native : List StackEntry

abbrev pub is_continue : Backend.Mode → Bool
is_continue Backend.Mode.continue = true
is_continue _ = false

abbrev pub is_step_over : Backend.Mode → Bool
is_step_over Backend.Mode.step_over = true
is_step_over _ = false

-- Whether a function, by the lines between which it is defined, has a breakpoint. A main chunk
-- gives 0 for both lines.
unfoldable pub function_has_breakpoint : Option Script → ℕ → ℕ → Bool
unfolding Script.has_break_point_in_range Script.has_breakpoints_active
function_has_breakpoint none first last = false
function_has_breakpoint (some script) first last =
    Script.has_break_point_in_range script first last
    || (Script.has_breakpoints_active script && (first == 0 && last == 0))

-- The script at an index, or `NULL` for -1.
abbrev pub script_at : List Script → Option ℕ → Option Script
script_at scripts none = none
script_at scripts (some i) = get_elem? scripts i

module _ {H : Type 0} (meanwhile : Backend H → Backend H) (face : LuaInterface) (l : ℕ) where
  -- The index of the script of a function, which is registered if it is new.
  unfoldable pub index_of_function : Text → LuaDebug → Backend H → Backend H × Option ℕ
  unfolding get_script_index
  index_of_function name ar s = elim (get_script_index s (some name)) [
    | some i ↦ (s, some i)
    | none ↦
        let t = (register_script_of meanwhile face l ar s).0 in (t, get_script_index t (some name))
  ]

  -- The function of an event or of a frame: its name is kept, and it is looked up. A null name,
  -- which a string is made of, is undefined.
  unfoldable pub visit_function : ℕ → LuaDebug → Backend H → Option (Backend H × Bool)
  unfolding index_of_function function_has_breakpoint
  visit_function p ar s =
      Option.map
        (λ name.
          let named = modify s p (λ vm. record vm { last_functions = name }) in
          let (t, index) = index_of_function name ar named in
          (
            t,
            function_has_breakpoint (script_at t.scripts index) (get_line_defined face ar)
                (get_last_line_defined face ar),
          ))
        (get_source face ar)

  -- The loop of `StackHasBreakpoint`; C functions are passed over.
  unfoldable pub scan_stack : Option ℕ → List LuaDebug → Backend H → Option (Backend H × Bool)
  unfolding visit_function
  scan_stack vm [] s = some (s, false)
  scan_stack none (ar ∷ frames) s =
      let rest = scan_stack none frames s in
      if get_line_defined face ar == minus_one then rest else none
  scan_stack (some p) (ar ∷ frames) s =
      let skip = scan_stack (some p) frames s in
      let seen = Option.bind (visit_function p ar s) (λ seen.
        let rest = scan_stack (some p) frames seen.0 in
        if seen.1 then some (seen.0, true) else rest) in
      if get_line_defined face ar == minus_one then skip else seen

  unfoldable pub stack_has_breakpoint : List LuaDebug → Backend H → Option (Backend H × Bool)
  unfolding scan_stack get_vm
  stack_has_breakpoint frames s = scan_stack (get_vm s l) frames s

  -- The first part of `UpdateHookMode`: a call of a Lua function that has a breakpoint.
  unfoldable pub check_function : ℕ → LuaDebug → Backend H → Option (Backend H × HookMode)
  unfolding visit_function
  check_function p ar s =
      if get_is_hook_event_call face (get_event face ar)
        && not (get_line_defined face ar == minus_one)
      then Option.map
          (λ seen.
            if seen.1
            then (modify seen.0 p (λ vm. record vm { breakpoint_in_stack = true }), HookMode.full)
            else (seen.0, HookMode.calls_only))
          (visit_function p ar s)
      else some (s, HookMode.calls_only)

  -- The second part: a function with a breakpoint further down the stack.
  unfoldable pub check_stack :
      ℕ → List LuaDebug → Backend H × HookMode → Option (Backend H × HookMode)
  unfolding stack_has_breakpoint
  check_stack p frames (s, mode) = elim (s.objects p) [
    | none ↦ none
    | some vm ↦
        if not (is_full mode) && vm.breakpoint_in_stack
        then Option.map
            (λ seen. if seen.1 then (seen.0, HookMode.full) else (
              modify seen.0 p (λ machine. record machine { breakpoint_in_stack = false }),
              mode,
            ))
            (stack_has_breakpoint frames s)
        else some (s, mode)
  ]

-- The mode that a machine asks for, given what was found.
unfoldable pub wanted_mode : VirtualMachine → HookMode → HookMode
wanted_mode vm mode = if vm.have_active_breakpoints then mode else HookMode.calls_and_returns

module _ {H : Type 0} ⦃lua : LuaHooks H⦄ where
  -- The last part: the hook is changed if the mode is not what it should be, and to the full mode
  -- if the machine is stepping.
  unfoldable pub apply_mode : ℕ → ℕ → Backend H × HookMode → Option (Backend H)
  unfolding wanted_mode
  apply_mode l p (s, mode) = elim (s.objects p) [
    | none ↦ none
    | some vm ↦ some (
        if mode_eq (HookMode.get_hook_mode s.hooks l) (wanted_mode vm mode)
        then s
        else hook s l (if is_continue vm.mode then wanted_mode vm mode else HookMode.full))
  ]

  unfoldable pub update_hook_mode :
      (Backend H → Backend H)
      → LuaInterface
      → ℕ
      → LuaDebug
      → List LuaDebug
      → Backend H
      → Option (Backend H)
  unfolding check_function check_stack apply_mode
  update_hook_mode meanwhile face l ar frames s =
      if get_event face ar == hook_line then some s else elim (get_vm s l) [
        | none ↦ none
        | some p ↦
            Option.bind (check_function meanwhile face l p ar s)
              (λ found. Option.bind (check_stack meanwhile face l p frames found) (apply_mode l p))
      ]
