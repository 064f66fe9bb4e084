-- ===== src/Tests.antt =====
-- A small program with two Lua states, its debugger, and the theorems at it.
mod Events
mod Sockets
mod Sequences
mod Stacks
mod Values
mod Expressions
mod Trees
mod Calls
mod Intercepts
mod Modules
use vecoda.Base.{
  ℕ, ◌+◌, ◌≡◌, refl, ◌≢◌, ◌↔◌, Bool, true, false, not, List, [], ◌∷◌, ◌++◌, Option, none, some,
  ◌==◌, ==_refl, if◌then◌else◌, arith, Distinct, All, Text, length, get_elem?, replicate, map, ◌⊎◌,
  inl, inr, ap, sym, ◌≤◌, ◌<◌,
}
use mathlib.Core.Path.{subst}
use vecoda.Base.CString.{codes}
use vecoda.Protocol.{BreakReason, break_point, step}
use vecoda.Script
use vecoda.Script.{
  Script, CodeState, toggle_breakpoint, get_has_break_point, has_break_point_in_range,
}
use vecoda.Script.Toggle.{get_has_break_point-toggle_breakpoint}
use vecoda.Script.Range.{has_break_point_in_range_iff}
use vecoda.LuaDll.{LuaHooks, LuaInterface, LuaDebug, Activation, hook_line, hook_call, hook_ret}
use vecoda.LuaDll.HookMode
use vecoda.Backend
use vecoda.Backend.{
  Mode, VirtualMachine, Objects, Backend, get_vm, find_state, Field, uint32, uint, string,
}
use vecoda.Backend.Vms.{new_vm, attach_state, detach_state}
use vecoda.Backend.Vms.Linked.{IsLinked, attach_state-IsLinked}
use vecoda.Backend.Vms.Detach.{detach_state-IsLinked}
use vecoda.Backend.Scripts.{
  register_script, new_script, get_script_index, script_key, get_file_title,
}
use vecoda.Backend.Scripts.Index.{
  IsIndexed, Registers, register_script-Registers, register_script_keeps, register_script_twice,
}
use vecoda.Backend.Scripts.Title.{IsTitle, get_file_title-IsTitle}
use vecoda.Base.{find_text}
use vecoda.Backend.Breakpoints.{delete_all_breakpoints, get_have_active_breakpoints}
use vecoda.Backend.Breakpoints
use vecoda.Backend.Breakpoints.Machines.{At}
use vecoda.Backend.Breakpoints.Flags.{
  Says, IsFlagged, toggle_breakpoint-IsFlagged, delete_all_breakpoints-IsFlagged,
}
use vecoda.Backend.Commands.{
  Command, Request, on_state, ignore_exception, detach, command_thread_proc,
}
use vecoda.Backend.Commands.Keeps.{IsSound, Admits}
use vecoda.Backend.Runs.{Step, Runs, stays, goes, detaches, registers, attaches, commands}
use vecoda.Backend.Runs.Sound.{Runs-IsSound}
use vecoda.Backend.Commands.{on_request, on_command}
use vecoda.Backend.Commands.Loop.{command_thread_proc-IsSound}
use vecoda.Backend.Step.Resume
use vecoda.Backend.Step.Resume.{resume, Resumed, resume-Resumed}

pub not_same : (l k : ℕ) → l ≢ k → (l == k) ≡ false
not_same l k n = ground arith

-- The masks by state.
instance abbrev pub masks : LuaHooks (ℕ → ℕ)
masks = record {
  sethook = λ h l m k. if l == k then m else h k;
  gethookmask = λ h l. h l;
  gethookmask-sethook = λ h l m small. rw (==_refl l);
  gethookmask-sethook_ne = λ h l k m other. rw (not_same l k other);
}

abbrev no_hooks : ℕ → ℕ
no_hooks l = 0

abbrev pub same : Backend (ℕ → ℕ) → Backend (ℕ → ℕ)
same s = s

abbrev pub script : Script
script = record {
  name = codes "game.lua";
  source = codes "move()";
  title = codes "game.lua";
  breakpoints = 2 ∷ 5 ∷ [];
  valid_lines = [];
  state = CodeState.normal;
}

abbrev pub objects : Objects
objects q =
    if q == 1 then some (new_vm 0 10 true) else (if q == 2 then some (new_vm 0 20 true) else none)

abbrev pub demo : Backend (ℕ → ℕ)
demo = record {
  hooks = λ l. 7;
  scripts = script ∷ [];
  name_to_script = (codes "@game.lua", 0) ∷ [];
  class_infos = [];
  objects = objects;
  next_object = 3;
  vms = 1 ∷ 2 ∷ [];
  state_to_vm = (10, 1) ∷ (20, 2) ∷ [];
  ignore_exceptions = [];
  load_event = false;
  detach_event = false;
  sent = [];
}

pub demo-IsLinked : IsLinked demo
demo-IsLinked = record {
  paired = refl;
  distinct = (refl, (refl, tt));
  live = ((new_vm 0 10 true, refl, refl), ((new_vm 0 20 true, refl, refl), tt));
  fresh = (omega arith, (omega arith, tt));
}

get_has_break_point-toggle_breakpoint_example :
    let (t, now) = toggle_breakpoint script 5 in
    (now ≡ not (get_has_break_point script 5))
    × (get_has_break_point t 2 ≡ (if 5 == 2 then now else get_has_break_point script 2))
    × Distinct t.breakpoints
get_has_break_point-toggle_breakpoint_example =
    get_has_break_point-toggle_breakpoint script 5 2 (refl, (refl, tt))

detach_state-IsLinked_example :
    let t = detach_state 10 demo in
    IsLinked t × (get_vm t 10 ≡ none) × ((k : ℕ) → k ≢ 10 → get_vm t k ≡ get_vm demo k)
detach_state-IsLinked_example = detach_state-IsLinked 10 demo demo-IsLinked

abbrev pub other : Option Text
other = some (codes "@lib/b.lua")

pub demo-IsIndexed : IsIndexed demo
demo-IsIndexed = (omega arith, tt)

register_script-Registers_example :
    Registers 10 none other true demo (register_script 10 none other true demo)
register_script-Registers_example = register_script-Registers 10 none other true demo demo-IsIndexed

pub demo-IsFlagged : IsFlagged demo
unfolding IsFlagged get_have_active_breakpoints Script.has_breakpoints_active
    Breakpoints.any_breakpoints
demo-IsFlagged = ((new_vm 0 10 true, refl, refl), ((new_vm 0 20 true, refl, refl), tt))

toggle_breakpoint-IsFlagged_example :
    (t : Backend (ℕ → ℕ)) × (Breakpoints.toggle_breakpoint 10 0 5 demo ≡ some t)
    × IsFlagged t
    × (get_elem? t.scripts 0 ≡ some (toggle_breakpoint script 5).0)
    × ((j : ℕ) → 0 ≢ j → get_elem? t.scripts j ≡ get_elem? demo.scripts j)
toggle_breakpoint-IsFlagged_example =
    toggle_breakpoint-IsFlagged 10 0 5 demo script demo-IsLinked demo-IsFlagged refl
