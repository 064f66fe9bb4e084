-- ===== src/Backend/Scripts.antt =====
-- `RegisterScript`, `GetScriptIndex` and `GetFileTitle` of DebugBackend.cpp. A script is known by
-- its index; a name leads to an index. A source is its bytes, `none` for a null pointer. What other
-- threads do while the hook waits with the critical section left is the argument `meanwhile`.
pub mod Index
pub mod Title
use vecoda.Base.{
  zero, ℕ, suc, ◌+◌, ◌<◌, Bool, true, false, ◌&&◌, List, [], ◌∷◌, ◌++◌, Option, none, some, ◌==◌,
  leb, if◌then◌else◌, Text, text_eq, find_text, insert_text, length, get_elem?, set, is_some,
}
use vecoda.Base.CString.{c_string, strrchr, starts_with, decimal}
use vecoda.Protocol
use vecoda.Script.{Script, CodeState, normal, unavailable, binary}
use vecoda.LuaDll.{LuaInterface, LuaDebug, get_source}
use vecoda.Backend.{uint32, uint, string, Field, Backend, write}

abbrev backslash : ℕ
backslash = 92

-- `max` of two pointers into the name, of which a null one is the least.
abbrev pub max_index : Option ℕ → Option ℕ → Option ℕ
max_index none b = b
max_index (some a) none = some a
max_index (some a) (some b) = if leb a b then some b else some a

-- The text from behind a place on.
abbrev pub drop_after : ℕ → Text → Text
drop_after i [] = []
drop_after zero (c ∷ cs) = cs
drop_after (suc i) (c ∷ cs) = drop_after i cs

unfoldable pub get_file_title : Text → Text
unfolding strrchr
get_file_title name = elim (max_index (strrchr 92 name) (strrchr b'/' name)) [
  | none ↦ name
  | some i ↦ drop_after i name
]

-- The loop over the scripts for one of that title with the same source.
unfoldable pub find_same : Text → Text → List Script → ℕ → Option ℕ
find_same title source [] i = none
find_same title source (s ∷ ss) i =
    if text_eq s.title title && text_eq s.source source
    then some i
    else find_same title source ss (suc i)

-- Without the leading `@` of a file name.
abbrev pub without_at : Text → Text
without_at [] = []
without_at (c ∷ cs) = if c == b'@' then cs else c ∷ cs

-- "@Untitled%d.lua"
unfoldable pub untitled : ℕ → Text
unfolding decimal
untitled n =
    (b'@' ∷ b'U' ∷ b'n' ∷ b't' ∷ b'i' ∷ b't' ∷ b'l' ∷ b'e' ∷ b'd' ∷ [])
    ++ (decimal n ++ (b'.' ∷ b'l' ∷ b'u' ∷ b'a' ∷ []))

-- The bytes of a pointer that may be null, with its size.
abbrev pub bytes_of : Option Text → Text
bytes_of none = []
bytes_of (some t) = t

-- The name under which the script is kept: that given, or the source up to its first 0.
unfoldable pub script_key : Option Text → Option Text → Text
unfolding c_string
script_key source none = c_string (bytes_of source)
script_key source (some name) = name

-- The name that the front end is told.
unfoldable pub display_name : Option Text → Option Text → ℕ → Text
unfolding starts_with untitled script_key
display_name (some bytes) none index =
    if starts_with (script_key (some bytes) none) bytes
    then untitled (index + 1)
    else without_at (script_key (some bytes) none)
display_name source name index = without_at (script_key source name)

-- A compiled chunk: a byte from 27 to 33, and `Lua`.
unfoldable pub is_binary : Text → Bool
is_binary (a ∷ b ∷ c ∷ d ∷ rest) = leb 27 a && (leb a 33 && (b == b'L' && (c == b'u' && d == b'a')))
is_binary other = false

unfoldable pub code_state : Option Text → Bool → CodeState
unfolding is_binary
code_state source missing =
    if is_binary (bytes_of source) then binary else (if missing then unavailable else normal)

abbrev pub state_code : CodeState → ℕ
state_code normal = 0
state_code unavailable = 1
state_code binary = 2

abbrev pub new_script : Option Text → Option Text → Bool → ℕ → Script
new_script source name missing index = record {
  name = display_name source name index;
  source = bytes_of source;
  title = get_file_title (script_key source name);
  breakpoints = [];
  valid_lines = [];
  state = code_state source missing;
}

-- The event that tells the front end of a script.
abbrev pub load_script_event : ℕ → Script → List Field
load_script_event l script =
    uint32 Protocol.event_load_script
    ∷ uint l
    ∷ string script.name
    ∷ string script.source
    ∷ uint32 (state_code script.state)
    ∷ []

-- The source that a `lua_Debug` gives is the code itself unless it begins with `@`.
abbrev pub inline_source : Option Text → Option Text
inline_source none = none
inline_source (some []) = some []
inline_source (some (c ∷ cs)) = if c == b'@' then none else some (c ∷ cs)

module _ {H : Type 0} where
  -- `GetScriptIndex`; `none` is -1.
  unfoldable pub get_script_index : Backend H → Option Text → Option ℕ
  unfolding find_text
  get_script_index s none = none
  get_script_index s (some name) = find_text name s.name_to_script

  -- The part of `RegisterScript` for a script that is new.
  unfoldable pub add_script :
      ℕ → Option Text → Option Text → Bool → Backend H → Backend H × Option ℕ
  unfolding insert_text
  add_script l source name missing s =
      let index = length s.scripts in
      let script = new_script source name missing index in
      (
        write
            (record s {
              scripts = s.scripts ++ script ∷ [];
              name_to_script = insert_text (script_key source name) index s.name_to_script;
            })
            (load_script_event l script),
        some index,
      )

  -- Once the name is known to be new: another name of a script that is there, or a new script.
  unfoldable pub add_or_alias :
      ℕ → Option Text → Option Text → Bool → Backend H → Option ℕ → Backend H × Option ℕ
  unfolding add_script
  add_or_alias l source name missing s (some i) =
      (record s { name_to_script = insert_text (script_key source name) i s.name_to_script }, none)
  add_or_alias l source name missing s none = add_script l source name missing s

  -- `RegisterScript`: the new state, and the index of a new script or `none` for -1.
  unfoldable pub register_script :
      ℕ → Option Text → Option Text → Bool → Backend H → Backend H × Option ℕ
  unfolding get_script_index add_or_alias find_same
  register_script l source name missing s =
      let key = script_key source name in
      if is_some (get_script_index s (some key))
      then (s, none)
      else add_or_alias l source name missing s
          (find_same (get_file_title key) (bytes_of source) s.scripts 0)

  -- The overload of `RegisterScript` for the hook. The wait for a new script takes the load event.
  unfoldable pub register_script_of :
      (Backend H → Backend H) → LuaInterface → ℕ → LuaDebug → Backend H → Backend H × Option ℕ
  unfolding register_script
  register_script_of meanwhile face l ar s =
      let name = get_source face ar in
      let source = inline_source name in
      let (t, new) = register_script l source name (if is_some source then false else true) s in
      let u = meanwhile t in
      let w = if is_some new then record u { load_event = false } else u in
      (w, get_script_index w name)
