-- ===== src/Tests/Sequences.antt =====
-- The theorems on commands and runs, at the program of the parent module.
use vecoda.Base.{
  ℕ, Option, text_eq, ◌≡◌, refl, Bool, true, false, List, [], ◌∷◌, none, some, arith, All, Text,
}
use vecoda.Base.CString.{codes}
use vecoda.Backend.{Backend, get_vm, get_is_attached, find_state}
use vecoda.Backend.Vms.{attach_state, detach_state}
use vecoda.Backend.Scripts.{register_script, script_key, get_file_title}
use vecoda.Backend.Commands.{
  Command, Request, on_state, ignore_exception, detach, command_thread_proc,
}
use vecoda.Backend.Commands.Keeps.{IsSound, Admits, IsAnswered}
use vecoda.Backend.Runs.{Step, Runs, stays, goes, detaches, registers, attaches, commands, calls}
use vecoda.Backend.Hook.Callback.{hook_callback}
use vecoda.Backend.Hook.CallbackSound.{is_clear, hook_callback-IsSound}
use vecoda.LuaDll.{layout, get_line_defined, get_source, get_name, get_what}
use vecoda.Backend.Stack.{are_terminated, names_fit}
use vecoda.Backend.Breakpoints.{get_have_active_breakpoints}
use vecoda.Tests.Events.{lua54, view}
use vecoda.Backend.Runs.Sound.{Runs-IsSound}
use vecoda.Backend.Commands.{on_request, on_command}
use vecoda.Backend.Commands.Machines.{on_request-detach}
use vecoda.LuaDll.HookMode
use vecoda.Backend.Commands.Loop.{command_thread_proc-IsSound}
use vecoda.Tests.{masks, demo, demo-IsLinked, demo-IsIndexed, demo-IsFlagged, other}

demo-IsSound : IsSound demo
demo-IsSound = record { linked = demo-IsLinked; indexed = demo-IsIndexed; flagged = demo-IsFlagged }

-- Lua answers nothing.
abbrev no_answer : Command → Option (Bool × Text)
no_answer command = some (false, [])

abbrev requests : List Request
requests =
    on_state 20 Command.step_into
    ∷ on_state 10 (Command.toggle_breakpoint 0 5)
    ∷ ignore_exception (codes "stop")
    ∷ detach true
    ∷ []

requests-Admits : All (Admits demo) requests
unfolding get_vm find_state
requests-Admits = ((2, refl), (omega arith, (tt, (tt, tt))))

requests-IsAnswered : All (IsAnswered no_answer) requests
requests-IsAnswered = (tt, (tt, (tt, (tt, tt))))

command_thread_proc-IsSound_example :
    (t : Backend (ℕ → ℕ)) × (command_thread_proc no_answer requests demo ≡ some t) × IsSound t
command_thread_proc-IsSound_example =
    command_thread_proc-IsSound no_answer requests demo demo-IsSound requests-Admits
      requests-IsAnswered

-- While an event waits, the front end says that it has loaded the script.
abbrev done : Backend (ℕ → ℕ) → Backend (ℕ → ℕ)
done u = record u { load_event = true }

done_run : (u : Backend (ℕ → ℕ)) → Runs no_answer u (done u)
unfolding on_request on_command
done_run u =
    goes u (done u) (done u) (commands (on_state 10 Command.load_done) u (done u) tt refl)
      (stays (done u))

done_keeps :
    (p : ℕ) (u : Backend (ℕ → ℕ))
    → IsSound u
    → get_vm u 30 ≡ some p
    → IsSound (done u) × (get_vm (done u) 30 ≡ some p)
unfolding get_vm
done_keeps p u v e = (Runs-IsSound no_answer u (done u) (done_run u) v, e)

-- A third state is opened and loads a script, and comes to a line of another one.
abbrev opened : Backend (ℕ → ℕ)
opened = (attach_state 0 30 true demo).0

abbrev loaded : Backend (ℕ → ℕ)
loaded = (register_script 30 none other true opened).0

opened_loads : Runs no_answer opened loaded
opened_loads = goes opened loaded loaded (registers 30 none other true opened) (stays loaded)

opening : Step no_answer demo opened
opening = attaches 0 30 true demo (λ e. absurd (ground arith))

loaded-IsSound : IsSound loaded
loaded-IsSound = Runs-IsSound no_answer opened loaded opened_loads (
    Runs-IsSound no_answer demo opened (goes demo opened opened opening (stays opened))
      demo-IsSound)

loaded_knows : get_vm loaded 30 ≡ some 3
unfolding get_vm find_state register_script attach_state text_eq script_key get_file_title
loaded_knows = refl

view_clear : is_clear lua54 view ≡ true
unfolding get_line_defined layout get_source are_terminated names_fit get_name get_what
view_clear = refl

abbrev stop : Option (Backend (ℕ → ℕ))
stop = hook_callback done lua54 0 30 true view loaded

stopped :
    (t : Backend (ℕ → ℕ)) × (stop ≡ some t)
    × IsSound t
    × (view.stack_ok ≡ true → (p : ℕ) × (get_vm t 30 ≡ some p))
stopped =
    hook_callback-IsSound 30 done done_keeps lua54 0 true view loaded view_clear loaded-IsSound
      (λ e. absurd (ground (arith, loaded_knows)))

-- Then the first state is closed.
abbrev closed : Backend (ℕ → ℕ)
closed = detach_state 10 stopped.0

line_event : Step no_answer loaded stopped.0
unfolding get_vm
line_event =
    calls lua54 0 30 true view done loaded stopped.0 (λ u v. done_run u) (λ p u v e. e)
      (λ e. absurd (ground (arith, loaded_knows))) stopped.1

demo_run : Runs no_answer demo closed
demo_run = goes demo opened closed opening (
    goes opened loaded closed (registers 30 none other true opened) (
      goes loaded stopped.0 closed line_event
        (goes stopped.0 closed closed (detaches 10 stopped.0) (stays closed))))

Runs-IsSound_example : IsSound closed
Runs-IsSound_example = Runs-IsSound no_answer demo closed demo_run demo-IsSound

unknown :
    get_vm demo 30 ≡ none
    → (get_is_attached demo ≡ true)
      × (true ≡ true)
      × (demo.state_to_vm ≡ [] → get_have_active_breakpoints demo ≡ false)
unfolding get_is_attached
unknown e = (refl, refl, λ h. absurd (ground arith))

hook_callback-IsSound_example :
    (t : Backend (ℕ → ℕ)) × (hook_callback done lua54 0 30 true view demo ≡ some t)
    × IsSound t
    × (view.stack_ok ≡ true → (p : ℕ) × (get_vm t 30 ≡ some p))
hook_callback-IsSound_example =
    hook_callback-IsSound 30 done done_keeps lua54 0 true view demo view_clear demo-IsSound unknown

on_request-detach_example :
    (t : Backend (ℕ → ℕ)) × (on_request no_answer (detach true) demo ≡ some t)
    × ((k p : ℕ)
        → get_vm demo k ≡ some p
        → HookMode.get_hook_mode t.hooks k ≡ HookMode.HookMode.none)
    × (get_is_attached t ≡ false)
    × ((api l : ℕ) (ok : Bool) → attach_state api l ok t ≡ (t, none))
on_request-detach_example = on_request-detach no_answer true demo demo-IsLinked
