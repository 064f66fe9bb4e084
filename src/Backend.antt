-- ===== src/Backend.antt =====
-- LuaInject/LuaInject/DebugBackend.h: the state of the debugger inside the debugged process.
-- `VirtualMachine*` is an address in `objects`, so that the vector `m_vms` and the map
-- `m_stateToVm` share the objects they point to; `delete` empties the address. A `lua_State*` is a
-- number. What is written to the event channel is appended to `sent`, a field for each call.
pub mod Vms
pub mod Waits
pub mod Scripts
pub mod Breakpoints
pub mod Stack
pub mod Step
pub mod Hook
pub mod Commands
pub mod Errors
pub mod Runs
pub mod Evaluation
pub mod Values
pub mod Call
pub mod Intercepts
use vecoda.Base.{
  ℕ, ◌≡◌, refl, Bool, true, false, List, [], ◌∷◌, ◌++◌, Option, none, some, arith, ◌==◌,
  if◌then◌else◌, Text,
}
use mathlib.Core.Option
use vecoda.Script.{Script}
use vecoda.LuaDll.{LuaHooks}
use vecoda.LuaDll.HookMode.{HookMode}
use vecoda.LuaDll.HookMode

pub data Mode : Type 0 where
  continue step_over step_into step_out : Mode

-- The thread handle is left out; `last_step_script` is `none` for -1.
pub record VirtualMachine : Type 0 where
  pub l : ℕ
  pub initialized : Bool
  pub call_count : ℕ
  pub call_stack_depth : ℕ
  pub last_step_line : ℕ
  pub last_step_script : Option ℕ
  pub api : ℕ
  pub name : Text
  pub stack_top : ℕ
  pub lua_jit_work_around : Bool
  pub breakpoint_in_stack : Bool
  pub have_active_breakpoints : Bool
  pub last_functions : Text
  pub break_event : Bool
  pub mode : Mode

pub record ClassInfo : Type 0 where
  pub l : ℕ
  pub meta_table_ref : ℕ
  pub name : Text

-- One write to a channel.
pub data Field : Type 0 where
  uint32 : ℕ → Field
  uint : ℕ → Field
  string : Text → Field

abbrev pub Objects : Type 0
Objects = ℕ → Option VirtualMachine

pub record Backend (H : Type 0) : Type 0 where
  pub hooks : H
  pub scripts : List Script
  pub name_to_script : List (Text × ℕ)
  pub class_infos : List ClassInfo
  pub objects : Objects
  pub next_object : ℕ
  pub vms : List ℕ
  pub state_to_vm : List (ℕ × ℕ)
  pub ignore_exceptions : List Text
  pub load_event : Bool
  pub detach_event : Bool
  pub sent : List Field

abbrev pub put : Objects → ℕ → VirtualMachine → Objects
put objects p vm q = if p == q then some vm else objects q

-- An assignment through a pointer.
abbrev pub alter : (VirtualMachine → VirtualMachine) → ℕ → Objects → Objects
alter f p objects q = if p == q then Option.map f (objects q) else objects q

-- `delete`.
abbrev pub free : Objects → ℕ → Objects
free objects p q = if p == q then none else objects q

-- `m_stateToVm.find`.
unfoldable pub find_state : ℕ → List (ℕ × ℕ) → Option ℕ
find_state l [] = none
find_state l ((k, p) ∷ m) = if k == l then some p else find_state l m

-- A loop over `m_stateToVm` that changes each machine.
unfoldable pub for_vms : (VirtualMachine → VirtualMachine) → List (ℕ × ℕ) → Objects → Objects
for_vms f [] objects = objects
for_vms f ((k, p) ∷ m) objects = for_vms f m (alter f p objects)

module _ {H : Type 0} where
  -- `GetVm`: the machine that the map has for a state, at its address.
  unfoldable pub get_vm : Backend H → ℕ → Option ℕ
  get_vm s l = find_state l s.state_to_vm

  abbrev pub deref : Backend H → ℕ → Option VirtualMachine
  deref s p = s.objects p

  -- `GetApiForVm`; `none` is -1, for a state with no machine.
  unfoldable pub get_api_for_vm : Backend H → ℕ → Option ℕ
  unfolding get_vm
  get_api_for_vm s l = elim (get_vm s l) [
    | none ↦ none
    | some p ↦ Option.map (λ vm. vm.api) (s.objects p)
  ]

  unfoldable pub get_is_attached : Backend H → Bool
  get_is_attached s = if s.detach_event then false else true

  abbrev pub write : Backend H → List Field → Backend H
  write s fs = record s { sent = s.sent ++ fs }

  abbrev pub modify : Backend H → ℕ → (VirtualMachine → VirtualMachine) → Backend H
  modify s p f = record s { objects = alter f p s.objects }

  abbrev pub hook : ⦃lua : LuaHooks H⦄ → Backend H → ℕ → HookMode → Backend H
  hook s l mode = record s { hooks = HookMode.set_hook_mode s.hooks l mode }
