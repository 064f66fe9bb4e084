-- ===== src/Backend/Commands.antt =====
-- `CommandThreadProc` and `WaitForAttach` of DebugBackend.cpp: the loop over the commands of the
-- front end, as they come from the channel (Reads has how). What `Evaluate` and `ExpandTable`
-- answer, whether they succeed and with which text, is the argument `answer`, `none` where they do
-- not come back. The result `none` is that, or undefined behaviour: a use of a null machine or of a
-- script that is not there.
pub mod Reads
pub mod Keeps
pub mod Sound
pub mod Carried
pub mod Loop
pub mod Machines
use vecoda.Base.{
  ℕ, ◌≡◌, Bool, true, false, List, [], ◌∷◌, Option, none, some, ◌==◌, if◌then◌else◌, Text, text_eq,
  ◌++◌, length,
}
use mathlib.Core.Option
use vecoda.LuaDll.{LuaHooks}
use vecoda.LuaDll.HookMode
use vecoda.Protocol
use vecoda.Script.{Script}
use vecoda.Backend.{
  uint32, uint, string, Field, Objects, Backend, write, alter, free, get_vm, get_api_for_vm,
}
use vecoda.Backend.Scripts.{state_code}
use vecoda.Backend.Breakpoints
use vecoda.Backend.Breakpoints.{bool_code}
use vecoda.Backend.Step

-- The commands that name a state.
pub data Command : Type 0 where
  continue step_over step_into step_out delete_all_breakpoints break load_done : Command
  toggle_breakpoint : ℕ → ℕ → Command
  evaluate : ℕ → Text → ℕ → Command
  expand_table : ℕ → ℕ → ℕ → ℕ → Command

pub data Request : Type 0 where
  detach : Bool → Request
  ignore_exception : Text → Request
  on_state : ℕ → Command → Request

-- Whether a text is in the set.
unfoldable pub has_text : Text → List Text → Bool
unfolding text_eq
has_text t [] = false
has_text t (u ∷ us) = if text_eq u t then true else has_text t us

-- The answer to a command, or failure and no text for a state with no machine.
abbrev pub answered : Option ℕ → Option (Bool × Text) → Option (Bool × Text)
answered none answer = some (false, [])
answered (some api) answer = answer

-- Whether the loop goes on after a request, other than by the end of the channel.
abbrev pub goes_on : Request → Bool
goes_on (detach continue_running) = continue_running
goes_on _ = true

-- `continueRunning` after a request.
abbrev keeps_running : Request → Bool → Bool
keeps_running (detach continue_running) before = continue_running
keeps_running _ before = before

-- `ResetEvent` of every machine of the vector.
unfoldable pub reset_events : List ℕ → Objects → Objects
reset_events [] objects = objects
reset_events (p ∷ ps) objects =
    reset_events ps (alter (λ vm. record vm { break_event = false }) p objects)

-- `delete` of every machine of the vector.
unfoldable pub free_all : List ℕ → Objects → Objects
free_all [] objects = objects
free_all (p ∷ ps) objects = free_all ps (free objects p)

-- What a front end that attaches anew is told of the machines and of the scripts.
unfoldable pub vm_fields : List ℕ → Objects → List Field
vm_fields [] objects = []
vm_fields (p ∷ ps) objects =
    elim (objects p) [ none ↦ [] | some vm ↦ uint vm.l ∷ [] ] ++ vm_fields ps objects

unfoldable pub script_fields : List Script → List Field
script_fields [] = []
script_fields (s ∷ ss) =
    string s.name ∷ string s.source ∷ uint32 (state_code s.state) ∷ script_fields ss

module _ {H : Type 0} where
  -- The loop over the machines at a detach.
  unfoldable pub unhook_all : ⦃lua : LuaHooks H⦄ → List ℕ → Objects → H → H
  unhook_all [] objects h = h
  unhook_all (p ∷ ps) objects h = unhook_all ps objects (elim (objects p) [
    | none ↦ h
    | some vm ↦ HookMode.set_hook_mode h vm.l HookMode.HookMode.none
  ])

  -- `IgnoreException`: the insertion into a set.
  unfoldable pub ignore_message : Text → Backend H → Backend H
  unfolding has_text
  ignore_message t s =
      if has_text t s.ignore_exceptions
      then s
      else record s { ignore_exceptions = t ∷ s.ignore_exceptions }

  unfoldable pub get_is_exception_ignored : Text → Backend H → Bool
  unfolding has_text
  get_is_exception_ignored t s = has_text t s.ignore_exceptions

  -- `WaitForAttach`, up to the start of the next command thread.
  unfoldable pub wait_for_attach : ⦃lua : LuaHooks H⦄ → Backend H → Backend H
  unfolding reset_events Breakpoints.active_lua_hook_in_all_vms
  wait_for_attach s = record (Breakpoints.active_lua_hook_in_all_vms s) {
    objects = reset_events s.vms s.objects;
    detach_event = false;
    load_event = false;
  }

  -- The clean-up once the loop is left.
  unfoldable pub clean_up : ⦃lua : LuaHooks H⦄ → Bool → Backend H → Backend H
  unfolding wait_for_attach free_all
  clean_up true s = wait_for_attach (Breakpoints.delete_all_breakpoints s)
  clean_up false s = record s {
    class_infos = [];
    scripts = [];
    name_to_script = [];
    objects = free_all s.vms s.objects;
    vms = [];
    state_to_vm = [];
  }

  -- What it then writes to the front end, for pointers of `size` bytes.
  unfoldable pub attach_fields : ℕ → Backend H → List Field
  unfolding vm_fields script_fields
  attach_fields size s =
      uint32 size
      ∷ uint32 (length s.vms)
      ∷ (vm_fields s.vms s.objects ++ (uint32 (length s.scripts) ∷ script_fields s.scripts))

module _ {H : Type 0} ⦃lua : LuaHooks H⦄ (answer : Command → Option (Bool × Text)) where
  -- The `switch` over the commands that name a state.
  unfoldable pub on_command : ℕ → Command → Backend H → Option (Backend H)
  unfolding get_vm get_api_for_vm
  on_command l continue s = Step.continue (get_vm s l) s
  on_command l step_over s = Step.step_over (get_vm s l) s
  on_command l step_into s = Step.step_into (get_vm s l) s
  on_command l step_out s = Step.step_out (get_vm s l) s
  on_command l delete_all_breakpoints s = some (Breakpoints.delete_all_breakpoints s)
  on_command l break s = Step.break (get_vm s l) s
  on_command l load_done s = some (record s { load_event = true })
  on_command l (toggle_breakpoint index line) s = Breakpoints.toggle_breakpoint l index line s
  on_command l (evaluate request expression level) s =
      Option.map
        (λ (ok, result). write s (
          uint32 Protocol.event_evaluate_ret
          ∷ uint l
          ∷ uint32 request
          ∷ uint32 level
          ∷ uint32 (bool_code ok)
          ∷ string result
          ∷ []))
        (answered (get_api_for_vm s l) (answer (evaluate request expression level)))
  on_command l (expand_table request scope level reference) s =
      Option.map
        (λ (ok, result). write s (
          uint32 Protocol.event_expand_table_ret
          ∷ uint l
          ∷ uint32 request
          ∷ uint32 level
          ∷ uint32 (bool_code ok)
          ∷ string result
          ∷ uint32 reference
          ∷ []))
        (answered (get_api_for_vm s l) (answer (expand_table request scope level reference)))

  unfoldable pub on_request : Request → Backend H → Option (Backend H)
  unfolding on_command ignore_message unhook_all
  on_request (detach continue_running) s =
      some (record s { hooks = unhook_all s.vms s.objects s.hooks; detach_event = true })
  on_request (ignore_exception t) s = some (ignore_message t s)
  on_request (on_state l command) s = on_command l command s

  -- The loop, over the requests up to the end of the channel; with the state, `continueRunning`.
  unfoldable pub command_loop : List Request → Bool → Backend H → Option (Backend H × Bool)
  unfolding on_request
  command_loop [] running s = some (s, running)
  command_loop (r ∷ rs) running s = Option.bind (on_request r s) λ t.
      let rest = command_loop rs (keeps_running r running) t in
      if goes_on r then rest else some (t, false)

  unfoldable pub command_thread_proc : List Request → Backend H → Option (Backend H)
  unfolding command_loop clean_up
  command_thread_proc requests s =
      Option.map (λ r. clean_up r.1 r.0) (command_loop requests false s)
