-- ===== src/Backend/Breakpoints.antt =====
-- The breakpoint commands of DebugBackend.cpp, and the flags by which each machine remembers that
-- some script has breakpoints. `none` is the undefined behaviour of an index out of range.
pub mod Flags
pub mod Machines
use vecoda.Base.{
  ℕ, Bool, true, false, ◌||◌, List, [], ◌∷◌, ◌++◌, Option, none, some, if◌then◌else◌, get_elem?,
  set, map,
}
use vecoda.LuaDll.{LuaHooks}
use vecoda.LuaDll.HookMode
use vecoda.Protocol
use vecoda.Script
use vecoda.Script.{Script}
use vecoda.Backend.{VirtualMachine, uint32, uint, Objects, Backend, for_vms, write}

-- The loop of `GetHaveActiveBreakpoints`.
unfoldable pub any_breakpoints : List Script → Bool
any_breakpoints [] = false
any_breakpoints (s ∷ ss) = if Script.has_breakpoints_active s then true else any_breakpoints ss

abbrev pub flag : Bool → VirtualMachine → VirtualMachine
flag on vm = record vm { have_active_breakpoints = on }

abbrev pub flag_and_check : Bool → VirtualMachine → VirtualMachine
flag_and_check on vm = record vm { have_active_breakpoints = on; breakpoint_in_stack = on }

abbrev pub bool_code : Bool → ℕ
bool_code false = 0
bool_code true = 1

module _ {H : Type 0} where
  unfoldable pub get_have_active_breakpoints : Backend H → Bool
  get_have_active_breakpoints s = any_breakpoints s.scripts

  -- The loop of `ActiveLuaHookInAllVms`.
  unfoldable pub hook_all : ⦃lua : LuaHooks H⦄ → List (ℕ × ℕ) → Objects → H → H
  hook_all [] objects h = h
  hook_all ((k, p) ∷ m) objects h = hook_all m objects (elim (objects p) [
    | none ↦ h
    | some vm ↦ HookMode.set_hook_mode h vm.l HookMode.HookMode.full
  ])

  unfoldable pub active_lua_hook_in_all_vms : ⦃lua : LuaHooks H⦄ → Backend H → Backend H
  unfolding hook_all
  active_lua_hook_in_all_vms s = record s { hooks = hook_all s.state_to_vm s.objects s.hooks }

  unfoldable pub set_have_active_breakpoints : ⦃lua : LuaHooks H⦄ → Bool → Backend H → Backend H
  unfolding active_lua_hook_in_all_vms
  set_have_active_breakpoints on s =
      let t = record s { objects = for_vms (flag_and_check on) s.state_to_vm s.objects } in
      if on then active_lua_hook_in_all_vms t else t

  unfoldable pub breakpoints_active_for_script : ⦃lua : LuaHooks H⦄ → ℕ → Backend H → Backend H
  unfolding set_have_active_breakpoints
  breakpoints_active_for_script index s = set_have_active_breakpoints true s

  -- The flags once the script has been toggled: set, or cleared with the last breakpoint.
  unfoldable pub after_toggle : ⦃lua : LuaHooks H⦄ → Bool → ℕ → Backend H → Backend H
  unfolding breakpoints_active_for_script get_have_active_breakpoints
  after_toggle true index s = breakpoints_active_for_script index s
  after_toggle false index s =
      if get_have_active_breakpoints s
      then s
      else record s { objects = for_vms (flag false) s.state_to_vm s.objects }

  -- The toggled script put back, the flags, and the event to the front end.
  unfoldable pub toggled : ⦃lua : LuaHooks H⦄ → ℕ → ℕ → ℕ → Script × Bool → Backend H → Backend H
  unfolding after_toggle
  toggled l index line (script, now) s =
      write (after_toggle now index (record s { scripts = set s.scripts index script })) (
        uint32 Protocol.event_set_breakpoint
        ∷ uint l
        ∷ uint32 index
        ∷ uint32 line
        ∷ uint32 (bool_code now)
        ∷ [])

  unfoldable pub toggle_breakpoint : ⦃lua : LuaHooks H⦄ → ℕ → ℕ → ℕ → Backend H → Option (Backend H)
  unfolding toggled
  toggle_breakpoint l index line s = elim (get_elem? s.scripts index) [
    | none ↦ none
    | some script ↦ some (toggled l index line (Script.toggle_breakpoint script line) s)
  ]

  unfoldable pub delete_all_breakpoints : ⦃lua : LuaHooks H⦄ → Backend H → Backend H
  unfolding set_have_active_breakpoints
  delete_all_breakpoints s =
      set_have_active_breakpoints false
        (record s { scripts = map Script.clear_breakpoints s.scripts })
