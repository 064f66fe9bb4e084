-- ===== src/Tests/Stacks.antt =====
-- The theorems on the stack: the activations of a step, and the entries that are sent.
use vecoda.Base.{
  ◌+◌, ◌≡◌, ◌≤◌, false, true, refl, List, [], ◌∷◌, some, arith, map, length, reverse, text_eq,
}
use vecoda.Base.CString.{codes}
use vecoda.LuaDll.{LuaDebug, minus_one, get_what}
use vecoda.Backend.Hook.Activations.{
  Event, event_code, follow, stack_of, Agrees, passes_refines_follow,
}
use vecoda.Backend.Hook.Count.{passes}
use vecoda.Backend.Stack.{
  StackEntry, get_unified_stack, max_stack_size, is_lua_function, is_c, lua_pcall,
}
use vecoda.Backend.Stack.Room.{called, calling, get_unified_stack-room, get_unified_stack_overruns}
use vecoda.Tests.{demo}
use vecoda.Tests.Events.{lua54, lua54-IsPlain, over, on_line, debug, native}

-- A call with a line, the return, the return of the function itself, and a line of its caller.
abbrev thread : List Event
thread = Event.call ∷ Event.line ∷ Event.ret ∷ Event.ret ∷ Event.line ∷ []

passes_refines_follow_example :
    Agrees over (follow thread (stack_of 0 2)) (passes lua54 (map (event_code lua54) thread) over)
passes_refines_follow_example = passes_refines_follow lua54 lua54-IsPlain over thread 2 refl

get_unified_stack-room_example :
    (r : List StackEntry) × (get_unified_stack lua54 demo native (debug 6 ∷ debug 2 ∷ []) ≡ some r)
    × (length r ≤ max_stack_size + length native)
get_unified_stack-room_example = get_unified_stack-room lua54 demo native (debug 6 ∷ debug 2 ∷ [])

-- A C function of the program.
abbrev in_c : LuaDebug
in_c =
    let c = record (on_line minus_one) { what = some (codes "C") } in
    record { ld51 = c; ld52 = c; ld54 = c; ld55 = c }

abbrev callback : StackEntry
callback = record { name = codes "on_click"; script_index = minus_one; line = 0 }

is_lua : is_c (get_what lua54 (debug 6)) ≡ false
unfolding is_c get_what text_eq
is_lua = refl

is_in_c : is_c (get_what lua54 in_c) ≡ true
unfolding is_c get_what text_eq
is_in_c = refl

own : is_lua_function callback.name ≡ false
unfolding is_lua_function
own = refl

other : text_eq callback.name lua_pcall ≡ false
unfolding text_eq
other = refl

get_unified_stack_overruns_example :
    (r : List StackEntry) × (get_unified_stack lua54 demo
        (reverse (called lua54 demo callback own other (debug 6) in_c is_lua is_in_c 60))
        (reverse (calling lua54 demo callback own other (debug 6) in_c is_lua is_in_c 60))
      ≡ some r)
    × (60 + 60 ≤ length r)
get_unified_stack_overruns_example =
    get_unified_stack_overruns lua54 demo callback own other (debug 6) in_c is_lua is_in_c 60 60
      (omega arith) (omega arith)
