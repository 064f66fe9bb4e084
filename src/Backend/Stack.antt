-- ===== src/Backend/Stack.antt =====
-- `GetUnifiedStack` and `SendBreakEvent` of DebugBackend.cpp: the call stack that the front end is
-- shown at a stop. The native stack, which the debug-help library walks, and the frames that
-- `lua_getstack` and `lua_getinfo` give, level 0 first, are arguments.
pub mod Bounds
pub mod Event
pub mod Names
pub mod Room
use vecoda.Base.{
  leb, ℕ, zero, suc, ◌+◌, ◌-◌, ◌%◌, Bool, true, false, ◌&&◌, ◌||◌, List, [], ◌∷◌, ◌++◌, reverse,
  Option, none, some, ◌==◌, ltb, if◌then◌else◌, Text, text_eq, length, take, drop,
}
use mathlib.Core.Option
use vecoda.Base.CString.{starts_with}
use vecoda.Protocol
use vecoda.Protocol.{BreakReason, reason_code}
use vecoda.LuaDll.{
  LuaInterface, LuaDebug, minus_one, get_name, get_what, get_source, get_current_line,
}
use vecoda.Backend.{uint32, uint, string, Field, Backend, write, modify, get_vm}
use vecoda.Backend.Scripts.{get_script_index}

-- The module and the address, which are not sent, are left out.
pub record StackEntry : Type 0 where
  pub name : Text
  pub script_index : ℕ
  pub line : ℕ

abbrev pub max_stack_size : ℕ
max_stack_size = 100

abbrev pub max_entry_name_length : ℕ
max_entry_name_length = 256

-- `x - 1` on 32 bits.
abbrev pub pred32 : ℕ → ℕ
pred32 x = (x + 0xffff_ffff) % 0x1_0000_0000

-- An index as an `unsigned int`; -1 for none.
abbrev pub index_code : Option ℕ → ℕ
index_code none = minus_one
index_code (some i) = i

abbrev pub lua_pcall : Text
lua_pcall = b'l' ∷ b'u' ∷ b'a' ∷ b'_' ∷ b'p' ∷ b'c' ∷ b'a' ∷ b'l' ∷ b'l' ∷ []

-- A function of the Lua library: `luaD_`, `luaV_` or `lua_`.
unfoldable pub is_lua_function : Text → Bool
unfolding starts_with
is_lua_function name =
    starts_with (b'l' ∷ b'u' ∷ b'a' ∷ b'D' ∷ b'_' ∷ []) name
    || (starts_with (b'l' ∷ b'u' ∷ b'a' ∷ b'V' ∷ b'_' ∷ []) name
        || starts_with (b'l' ∷ b'u' ∷ b'a' ∷ b'_' ∷ []) name)

-- The walk up the native stack, outermost frame first, up to a transition into Lua: the entries it
-- adds, and the frames that are left. It does not look at the room that is left.
unfoldable pub walk_native : List StackEntry → List StackEntry × List StackEntry
unfolding is_lua_function text_eq
walk_native [] = ([], [])
walk_native (e ∷ es) =
    let above = walk_native es in
    if text_eq e.name lua_pcall
    then ([], es)
    else (if is_lua_function e.name then above else (e ∷ above.0, above.1))

-- The name that is shown for a frame.
unfoldable pub function_name : Option Text → Option Text → Text
function_name none none = b'<' ∷ b'U' ∷ b'n' ∷ b'k' ∷ b'n' ∷ b'o' ∷ b'w' ∷ b'n' ∷ b'>' ∷ []
function_name none (some what) = what
function_name (some []) none = b'<' ∷ b'U' ∷ b'n' ∷ b'k' ∷ b'n' ∷ b'o' ∷ b'w' ∷ b'n' ∷ b'>' ∷ []
function_name (some []) (some what) = what
function_name (some (c ∷ cs)) what = c ∷ cs

unfoldable pub is_c : Option Text → Bool
unfolding text_eq
is_c none = false
is_c (some what) = text_eq what (b'C' ∷ [])

module _ {H : Type 0} (face : LuaInterface) (s : Backend H) where
  unfoldable pub script_entry : LuaDebug → StackEntry
  unfolding function_name
  script_entry ar = record {
    name = take max_entry_name_length (function_name (get_name face ar) (get_what face ar));
    script_index = index_code (get_script_index s (get_source face ar));
    line = pred32 (get_current_line face ar);
  }

  -- The walk up the script stack, up to a transition into C or while there is room.
  unfoldable pub walk_script : ℕ → List LuaDebug → List StackEntry × List LuaDebug
  unfolding is_c
  walk_script zero frames = ([], frames)
  walk_script (suc room) [] = ([], [])
  walk_script (suc room) (ar ∷ frames) =
      let above = walk_script room frames in
      if is_c (get_what face ar) then ([], frames) else (script_entry ar ∷ above.0, above.1)

  -- The outer loop, from the number of entries written; `none` is that the fuel ran out.
  unfoldable pub unify : ℕ → List StackEntry → List LuaDebug → ℕ → Option (List StackEntry)
  unify zero native frames size = none
  unify (suc fuel) native [] size = some []
  unify (suc fuel) native (ar ∷ frames) size =
      let (outer, native') = walk_native native in
      let (inner, frames') = walk_script (max_stack_size - (size + length outer)) (ar ∷ frames) in
      let rest = unify fuel native' frames' (size + length outer + length inner) in
      if ltb size max_stack_size
      then Option.map (λ more. outer ++ (inner ++ more)) rest
      else some []

  unfoldable pub get_unified_stack : List StackEntry → List LuaDebug → Option (List StackEntry)
  unfolding unify
  get_unified_stack native frames =
      unify (suc (suc (length frames))) (reverse native) (reverse frames) 0

-- The entries as they are sent, the last one first.
unfoldable pub entry_fields : List StackEntry → List Field
entry_fields [] = []
entry_fields (e ∷ es) =
    entry_fields es ++ (uint32 e.script_index ∷ uint32 e.line ∷ string e.name ∷ [])

-- The break event.
abbrev pub break_fields : ℕ → BreakReason → List StackEntry → List Field
break_fields l reason stack =
    (uint32 Protocol.event_break
      ∷ uint l
      ∷ uint32 (reason_code reason)
      ∷ uint32 (length stack)
      ∷ [])
    ++ entry_fields stack

-- Whether the names end within their arrays of 256, which `strncpy` may fill without an end.
unfoldable pub are_terminated : List StackEntry → Bool
are_terminated [] = true
are_terminated (e ∷ es) = ltb (length e.name) max_entry_name_length && are_terminated es

-- The entries in the array of 100; a write behind it is undefined, and so is a name without an end.
unfoldable pub in_array : List StackEntry → Option (List StackEntry)
unfolding are_terminated
in_array stack =
    if leb (length stack) max_stack_size && are_terminated stack then some stack else none

-- Whether the names of Lua's functions end so.
unfoldable pub names_fit : LuaInterface → List LuaDebug → Bool
unfolding function_name
names_fit face [] = true
names_fit face (ar ∷ frames) =
    ltb (length (take max_entry_name_length (function_name (get_name face ar) (get_what face ar))))
      max_entry_name_length
    && names_fit face frames

-- Whether the array has room for a stack and its names, whatever its functions are.
abbrev pub fits : LuaInterface → List StackEntry → List LuaDebug → Bool
fits face native frames =
    leb (length native + length (take max_stack_size frames)) max_stack_size
    && (are_terminated native && names_fit face frames)

module _ {H : Type 0} (face : LuaInterface) (l : ℕ) (native : List StackEntry) where
  -- With the machine, if there is one: its stack top is kept, and without it none is skipped.
  unfoldable pub send_break :
      Option ℕ → BreakReason → ℕ → List LuaDebug → Backend H → Option (Backend H)
  unfolding entry_fields in_array
  send_break none reason stack_top frames s =
      Option.map (λ stack. write s (break_fields l reason stack))
        (Option.bind (get_unified_stack face s [] (take max_stack_size frames)) in_array)
  send_break (some p) reason stack_top frames s =
      Option.map
        (λ stack.
          write (modify s p (λ vm. record vm { stack_top = stack_top }))
            (break_fields l reason stack))
        (Option.bind (get_unified_stack face s native (take max_stack_size (drop stack_top frames)))
          in_array)

  -- `none` is a stack that does not fit: see Stack/Event.
  unfoldable pub send_break_event : BreakReason → ℕ → List LuaDebug → Backend H → Option (Backend H)
  unfolding send_break
  send_break_event reason stack_top frames s = send_break (get_vm s l) reason stack_top frames s
