-- ===== src/Backend/Runs.antt =====
-- Runs of the backend of DebugBackend.cpp: Lua states that come and go, scripts that are loaded,
-- debug events of Lua, and commands of the front end, one at a time, as the critical section orders
-- them. While a debug event waits, with the critical section left, another run takes place.
pub mod Parts
pub mod Sound
use vecoda.Base.{ℕ, ◌≡◌, Bool, true, false, List, [], Option, none, some, Text}
use vecoda.LuaDll.{LuaHooks, LuaInterface}
use vecoda.Backend.{Backend, get_vm, get_is_attached}
use vecoda.Backend.Vms.{attach_state, detach_state}
use vecoda.Backend.Scripts.{register_script}
use vecoda.Backend.Breakpoints.{get_have_active_breakpoints}
use vecoda.Backend.Hook.{View}
use vecoda.Backend.Hook.Callback.{hook_callback}
use vecoda.Backend.Commands.{Command, Request, on_request}
use vecoda.Backend.Commands.Keeps.{Admits, IsSound}

module _ {H : Type 0} ⦃lua : LuaHooks H⦄ (answer : Command → Option (Bool × Text)) where
  -- A new state may be attached: another one is there, or no script has a breakpoint.
  abbrev pub NotForgotten : Backend H → Type 0
  NotForgotten s = s.state_to_vm ≡ [] → get_have_active_breakpoints s ≡ false

  mutual
    -- One step. A state is attached while another one is there, or while no script has a breakpoint;
    -- a command has the machine and the script that it names. A debug event of a state without a machine
    -- comes while the backend is attached and Lua has room; during its waits the machine stays.
    pub data Step : Backend H → Backend H → Type 0 where
      attaches :
          (api l : ℕ) (stack_ok : Bool) (s : Backend H)
          → NotForgotten s
          → Step s (attach_state api l stack_ok s).0
      detaches : (l : ℕ) (s : Backend H) → Step s (detach_state l s)
      registers :
          (l : ℕ) (source name : Option Text) (missing : Bool) (s : Backend H)
          → Step s (register_script l source name missing s).0
      commands :
          (r : Request) (s t : Backend H) → Admits s r → on_request answer r s ≡ some t → Step s t
      calls :
          (face : LuaInterface) (api l : ℕ) (stack_ok : Bool) (view : View)
          (meanwhile : Backend H → Backend H) (s t : Backend H)
          → ((u : Backend H) → IsSound u → Runs u (meanwhile u))
          → ((p : ℕ) (u : Backend H)
              → IsSound u
              → get_vm u l ≡ some p
              → get_vm (meanwhile u) l ≡ some p)
          → (get_vm s l ≡ none → (get_is_attached s ≡ true) × (stack_ok ≡ true) × NotForgotten s)
          → hook_callback meanwhile face api l stack_ok view s ≡ some t
          → Step s t

    pub data Runs : Backend H → Backend H → Type 0 where
      stays : (s : Backend H) → Runs s s
      goes : (s t u : Backend H) → Step s t → Runs t u → Runs s u
