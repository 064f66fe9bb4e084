-- ===== src/Backend/Values.antt =====
-- `GetValueAsText`, `GetTableAsText` and what they call in DebugBackend.cpp: a value of Lua as the
-- tree that the front end is sent as XML. What Lua answers about tables and user data, with what their
-- metamethods return, is the record `Heap`; `lua_checkstack` succeeds. A depth below 0 is 0, since
-- the code only asks whether it is above.
pub mod Show
pub mod Cache
pub mod Depth
pub mod References
pub mod Expand
use vecoda.Base.{
  ℕ, zero, suc, ◌+◌, ◌-◌, ◌≡◌, Bool, true, false, ◌||◌, List, [], ◌∷◌, ◌++◌, map, Option, none,
  some, ◌==◌, ltb, if◌then◌else◌, Text, mem,
}
use mathlib.Core.Option
use vecoda.Base.CString.{codes, decimal}
use vecoda.Protocol
use vecoda.Backend.{Backend, ClassInfo}
use vecoda.Backend.Stack.{pred32, index_code}
use vecoda.Backend.Scripts.{get_script_index}
use vecoda.Backend.Hook.Callback.{message}

-- A number has the text that `lua_tostring` gives; a table and a user datum are addresses; a function has
-- its source and the line of its definition.
pub data Value : Type 0 where
  nil thread : Value
  boolean : Bool → Value
  number string : Text → Value
  table user_data : ℕ → Value
  function : Option Text → ℕ → Value

-- The call of a metamethod: there is none, it ends in an error with or without a string, or it
-- returns.
pub data Called (A : Type 0) : Type 0 where
  missing : Called A
  failed : Option Text → Called A
  gave : A → Called A
  hangs : Called A

-- `entries` are the pairs that `lua_next` walks over; `to_watch` and `to_string` are the metamethods
-- of user data; `pointer` is an address as `%p` writes it; `wide_to_utf8` is `WideCharToMultiByte`, where
-- `none` is 0; `new_ref` is the key that `luaL_ref` takes in a table with these keys.
pub record Heap : Type 0 where
  pub entries : ℕ → List (Value × Value)
  pub to_watch : ℕ → Called (List Value)
  pub to_string : ℕ → Called (Option Text)
  pub metatable : ℕ → Option ℕ
  pub registry : ℕ → Option ℕ
  pub pointer : ℕ → Text
  pub wide_to_utf8 : Text → Option Text
  pub has_ref : Bool
  pub new_ref : List ℕ → ℕ
  pub new_ref-fresh : (keys : List ℕ) → mem (new_ref keys) keys ≡ false

-- The attribute of a table.
pub data Mark : Type 0 where
  unmarked empty : Mark
  reference : ℕ → Mark

mutual
  -- The elements of the XML: data and type, script and line, an error, or a table with its type.
  pub data Node : Type 0 where
    value : Text → Text → Node
    function : ℕ → ℕ → Node
    error : Text → Node
    table : Text → Elements → Mark → Node

  pub data Elements : Type 0 where
    end : Elements
    element : Node → Node → Elements → Elements

-- The end of a computation: a result, undefined behaviour, or that the fuel ran out or a
-- metamethod does not come back.
pub data Run (A : Type 0) : Type 0 where
  done : A → Run A
  undefined : Run A
  runs_on : Run A

unfoldable pub then_run : {A B : Type 0} → Run A → (A → Run B) → Run B
then_run (done a) f = f a
then_run undefined f = undefined
then_run runs_on f = runs_on

-- `LUA_NOREF`, -2 as an unsigned number.
abbrev pub no_ref : ℕ
no_ref = 4294967294

-- The backend with the two tables of the cache, from tables to references and back, and
-- `m_warnedAboutUserData`.
pub record Display (H : Type 0) : Type 0 where
  pub backend : Backend H
  pub cache : List (ℕ × ℕ)
  pub refs : List (ℕ × ℕ)
  pub warned : Bool

-- A `lua_rawget` of one of them.
unfoldable pub find_entry : ℕ → List (ℕ × ℕ) → Option ℕ
find_entry k [] = none
find_entry k ((j, v) ∷ m) = if j == k then some v else find_entry k m

unfoldable pub has_zero : Text → Bool
has_zero [] = false
has_zero (c ∷ cs) = c == 0 || has_zero cs

-- The embedded zeros as `\0`.
unfoldable pub escape_zeros : Text → Text
escape_zeros [] = []
escape_zeros (c ∷ cs) = let rest = escape_zeros cs in if c == 0 then 92 ∷ b'0' ∷ rest else c ∷ rest

-- `GetAsciiString`: the text, and whether it was a wide one.
unfoldable pub get_ascii_string : Heap → Text → Text × Bool
unfolding has_zero escape_zeros
get_ascii_string heap text =
    if has_zero text
    then elim (heap.wide_to_utf8 text) [
      | some converted ↦ (escape_zeros converted, true)
      | none ↦ (escape_zeros text, false)
    ]
    else (text, false)

abbrev quote : Text
quote = b'"' ∷ []

unfoldable pub string_node : Heap → Text → Bool → Text → Node
unfolding get_ascii_string
string_node heap type as_key text =
    let (result, wide) = get_ascii_string heap text in
    value
      (if as_key then result else (if wide then b'L' ∷ [] else []) ++ (quote ++ (result ++ quote)))
      type

abbrev bracketed : Bool → Text → Text
bracketed as_key text = if as_key then b'[' ∷ (text ++ (b']' ∷ [])) else text

-- `lua_typename`.
unfoldable pub type_name : Value → Text
type_name nil = codes "nil"
type_name thread = codes "thread"
type_name (boolean b) = codes "boolean"
type_name (number text) = codes "number"
type_name (string text) = codes "string"
type_name (table t) = codes "table"
type_name (user_data p) = codes "userdata"
type_name (function source line) = codes "function"

-- `lua_tostring`.
unfoldable pub as_string : Value → Option Text
as_string (number text) = some text
as_string (string text) = some text
as_string _ = none

-- The values that are not tables, strings, functions or user data.
unfoldable pub plain_text : Value → Text
plain_text nil = codes "nil"
plain_text thread = codes "thread"
plain_text (boolean b) = if b then codes "true" else codes "false"
plain_text (number text) = text
plain_text _ = []

-- The loop over `m_classInfos` of `GetClassNameForUserdata`, for a metatable.
unfoldable pub find_class : Heap → ℕ → List ClassInfo → ℕ → Option Text
find_class heap l [] mt = none
find_class heap l (c ∷ cs) mt =
    let later = find_class heap l cs mt in
    let hit = elim (heap.registry c.meta_table_ref) as (λ _. Bool) [
      | none ↦ false
      | some t ↦ t == mt
    ] in
    if c.l == l then (if hit then some c.name else later) else later

module _ {H : Type 0} where
  -- The loop of `GetTableAsText`; `show` is `GetValueAsText`, for a key or not.
  unfoldable pub show_entries :
      (Bool → Value → Display H → Run (Display H × Node))
      → List (Value × Value)
      → Display H
      → Run (Display H × Elements)
  unfolding then_run
  show_entries show [] d = done (d, end)
  show_entries show ((k, v) ∷ rest) d = then_run (show true k d) λ key.
      then_run (show false v key.0) λ data_.
        then_run (show_entries show rest data_.0)
          λ more. done (more.0, element key.1 data_.1 more.1)

module _ {H : Type 0} (heap : Heap) (l : ℕ) where
  -- `GetClassNameForUserdata`.
  unfoldable pub get_class_name_for_userdata : ℕ → Display H → Option Text
  unfolding find_class
  get_class_name_for_userdata p d =
      Option.bind (heap.metatable p) (find_class heap l d.backend.class_infos)

  -- `CacheTable`: a table has one reference as long as the cache is kept. Without a `luaL_ref` in the
  -- library it is `LUA_NOREF`, and the table of the references does not have it.
  unfoldable pub cache_table : ℕ → Display H → Display H × ℕ
  unfolding find_entry
  cache_table t d = elim (find_entry t d.cache) [
    | some ref ↦ (d, ref)
    | none ↦
        let ref = heap.new_ref (map (λ e. e.0) d.refs) in
        if heap.has_ref
        then (record d { cache = (t, ref) ∷ d.cache; refs = (ref, t) ∷ d.refs }, ref)
        else (record d { cache = (t, no_ref) ∷ d.cache }, no_ref)
  ]

  -- `ClearCache`.
  unfoldable pub clear_cache : Display H → Display H
  clear_cache d = record d { cache = []; refs = [] }

  unfoldable pub get_table_as_text :
      (Bool → Value → Display H → Run (Display H × Node))
      → ℕ
      → Text
      → ℕ
      → Display H
      → Run (Display H × Node)
  unfolding show_entries cache_table
  get_table_as_text show max_depth type t d =
      let mark = elim (heap.entries t) as (λ _. Mark) [ [] ↦ empty | e ∷ es ↦ unmarked ] in
      let (cached, ref) = cache_table t d in
      let shown =
        then_run (show_entries show (heap.entries t) d)
          λ all. done (all.0, table type all.1 mark) in
      if ltb 0 max_depth
      then shown
      else done (elim (heap.entries t) [
        | [] ↦ (d, table type end empty)
        | e ∷ es ↦ (cached, table type end (reference ref))
      ])
