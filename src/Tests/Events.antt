-- ===== src/Tests/Events.antt =====
-- The theorems on debug events, stacks and channels, at the program of the parent module.
use vecoda.Base.{
  ℕ, ◌+◌, ◌≡◌, refl, ◌↔◌, true, false, List, [], ◌∷◌, ◌++◌, Option, none, some, ◌==◌, if◌then◌else◌,
  arith, Text, find_text, text_eq, length, replicate, ◌⊎◌, ap, sym, ◌≤◌,
}
use mathlib.Core.Path.{subst}
use vecoda.Base.CString.{codes}
use vecoda.Protocol.{BreakReason, break_point, step}
use vecoda.Script
use vecoda.LuaDll.{
  LuaInterface, LuaDebug, Activation, hook_line, hook_call, hook_ret, minus_one, get_event,
  get_source, get_current_line, layout, get_name, get_what,
}
use vecoda.Backend
use vecoda.Backend.{VirtualMachine, Backend, Field, uint32, uint, string, modify}
use vecoda.Backend.Vms.{new_vm}
use vecoda.Backend.Scripts.{get_script_index}
use vecoda.Backend.Stack.{StackEntry, pred32, fits, are_terminated, names_fit, function_name}
use vecoda.Backend.Hook.{View, function_has_breakpoint}
use vecoda.Backend.Hook.Callback.{handle_event}
use vecoda.Backend.Hook.Count.{
  Body, events, passes, IsPlain, step_over-passes-call, step_over_misses_tail_call,
}
use vecoda.Backend.Hook.Update.{function_has_breakpoint_iff}
use vecoda.Backend.Hook.Stop.{Breaks, handle_event_breakpoint, handle_event-continue}
use vecoda.Wire.{Transport, write_fields, read_fields, a_uint32, a_uint, a_string}
use vecoda.Backend.Commands.{Command, Request, on_state}
use vecoda.Backend.Commands.Reads.{request, read_request, fields_of, read_request-write_fields}
use vecoda.Wire.RoundTrip.{read_fields-write_fields}
use vecoda.Tests.{masks, same, script, demo}

-- Lua 5.4, whose tail calls have the event 4.
abbrev pub lua54 : LuaInterface
lua54 = record { version = 540; hook_tail_call = 4; hook_tail_ret = minus_one }

abbrev pub on_line : ℕ → Activation
on_line n = record {
  event = hook_line;
  name = none;
  what = some (codes "main");
  source = some (codes "@game.lua");
  currentline = n;
  linedefined = 0;
  lastlinedefined = 0;
  nups = 1;
}

abbrev pub debug : ℕ → LuaDebug
debug n = record { ld51 = on_line n; ld52 = on_line n; ld54 = on_line n; ld55 = on_line n }

abbrev pub native : List StackEntry
native = record { name = codes "main"; script_index = minus_one; line = 0 } ∷ []

-- Line 6 of the script, counted from 1, has a breakpoint.
abbrev pub view : View
view = record {
  stack_ok = true;
  jit_version = none;
  vm_name = none;
  ar = debug 6;
  frames = debug 6 ∷ [];
  native = native;
}

abbrev machine : VirtualMachine
machine = new_vm 0 10 true

pub lua54-IsPlain : IsPlain lua54
lua54-IsPlain = (omega arith, omega arith, omega arith, omega arith)

is_line : get_event lua54 view.ar ≡ hook_line
unfolding get_event layout
is_line = refl

is_known : get_script_index demo (get_source lua54 view.ar) ≡ some 0
unfolding get_script_index get_source layout find_text text_eq
is_known = refl

is_set : Script.get_has_break_point script (pred32 (get_current_line lua54 view.ar)) ≡ true
unfolding Script.get_has_break_point Script.has_line get_current_line layout
is_set = refl

pub has_room : fits lua54 view.native view.frames ≡ true
unfolding are_terminated names_fit get_name get_what layout function_name
has_room = refl

handle_event_breakpoint_example :
    (reason : BreakReason) × ((reason ≡ break_point) ⊎ (reason ≡ step))
    × Breaks same lua54 10 1 view demo machine 0 script is_line is_known refl refl refl has_room
        reason
        (handle_event same lua54 10 view 1 demo)
handle_event_breakpoint_example =
    handle_event_breakpoint same lua54 10 1 view demo machine 0 script is_line is_known refl refl
      refl has_room is_set

handle_event-continue_example :
    (Script.get_has_break_point script (pred32 (get_current_line lua54 view.ar)) ≡ true
      → Breaks same lua54 10 1 view demo machine 0 script is_line is_known refl refl refl has_room
          break_point
          (handle_event same lua54 10 view 1 demo))
    × (Script.get_has_break_point script (pred32 (get_current_line lua54 view.ar)) ≡ false
        → handle_event same lua54 10 view 1 demo ≡ some (modify demo 1 (λ _. machine)))
handle_event-continue_example =
    handle_event-continue same lua54 10 1 view demo machine 0 script is_line is_known refl refl refl
      has_room refl

-- Two lines and a call between them.
abbrev body : Body
body = Body.line (Body.call (Body.line Body.end) (Body.line Body.end))

abbrev pub over : VirtualMachine
over = record machine { mode = Backend.Mode.step_over }

step_over-passes-call_example :
    (passes lua54 (events (Body.call body Body.end)) over ≡ some over)
    × (passes lua54 (events (Body.call body (Body.line Body.end)) ++ []) over ≡ none)
step_over-passes-call_example = step_over-passes-call lua54 lua54-IsPlain body [] over refl refl

step_over_misses_tail_call_example :
    passes lua54 (hook_call ∷ (replicate 1 4 ++ (hook_ret ∷ hook_line ∷ []))) over
    ≡ some (record over { call_count = 1 })
step_over_misses_tail_call_example =
    step_over_misses_tail_call lua54 lua54-IsPlain (omega arith) 0 over refl refl

function_has_breakpoint_iff_example : (function_has_breakpoint (some script) 5 9 ≡ true) ↔ (
    (line : ℕ) × (5 + 1 ≤ line)
    × (line ≤ 9)
    × (Script.get_has_break_point script (pred32 line) ≡ true))
function_has_breakpoint_iff_example =
    function_has_breakpoint_iff script 5 9 (omega arith) (omega arith)

-- A queue of buffers.
abbrev take_first : List Text → ℕ → List Text × Option Text
take_first [] n = ([], none)
take_first (m ∷ ms) n = if length m == n then (ms, some m) else (m ∷ ms, none)

length_again : (m : Text) → (length m == length m) ≡ true
length_again m = ground arith

abbrev queue : Transport (List Text)
queue = record {
  write = λ c m. (c ++ m ∷ [], true);
  read = take_first;
  Carries = λ c ms. c ≡ ms;
  write-Carries = λ c m ms e. (refl, ap (λ d. d ++ m ∷ []) e);
  read-Carries = λ c m ms e.
      subst (λ d. ((take_first d (length m)).1 ≡ some m) × ((take_first d (length m)).0 ≡ ms))
        (sym e) (rw (length_again m) (refl, refl));
}

-- A warning: its event, its state, its kind and its text.
abbrev warning : List Field
warning = uint32 6 ∷ uint 0 ∷ uint32 1 ∷ string (codes "Warning") ∷ []

read_fields-write_fields_example :
    (read_fields queue 8
      (write_fields queue 8 [] warning)
      (a_uint32 ∷ a_uint ∷ a_uint32 ∷ a_string ∷ [])).1
    ≡ some warning
read_fields-write_fields_example =
    read_fields-write_fields queue 8 [] warning
      (omega arith, (omega arith, (omega arith, ((omega arith, refl), tt)))) refl

-- The front end asks for the value of a variable.
abbrev question : Request
question = on_state 10 (Command.evaluate 7 (codes "health") 0)

read_request-write_fields_example :
    (read_request queue 8 (write_fields queue 8 [] (fields_of question))).1
    ≡ some (request question)
read_request-write_fields_example =
    read_request-write_fields queue 8 question []
      (omega arith, (omega arith, (omega arith, ((omega arith, refl), (omega arith, tt))))) refl
