-- ===== src/LuaDll/Functions.antt =====
-- `LoadLuaFunctions` of LuaInject/LuaInject/LuaDll.cpp: the pointers to the functions of the loaded
-- Lua library, found by their symbols. A pointer is a member of the structure `LuaInterface`, named
-- as there without `_dll_cdecl`. A null pointer is `none`; a symbol has an address that is not null.
pub mod Calls
pub mod Found
pub mod Hooked
pub mod Safe
use vecoda.Base.{
  ℕ, Bool, true, false, List, [], ◌∷◌, ◌++◌, Option, none, some, ◌==◌, ◌&&◌, if◌then◌else◌, ltb,
  leb, Text, text_eq, is_some,
}
use vecoda.Base.CString.{codes}
use mathlib.Core.Option

abbrev pub Symbols : Type 0
Symbols = Text → Option ℕ

abbrev pub Functions : Type 0
Functions = Text → Option ℕ

unfoldable pub assign : Text → Option ℕ → Functions → Functions
assign name value f k = if text_eq name k then value else f k

-- The macros of the function, and two of them in a row: a function that is looked for, and another
-- one that has to be there if it is not.
pub data Entry : Type 0 where
  required optional : Text → Entry
  or_else : Text → Text → Entry

-- `GET_FUNCTION_OPTIONAL`.
unfoldable pub get_function_optional : Symbols → Text → Functions → Functions
unfolding assign
get_function_optional symbols name f = elim (symbols name) [
  | none ↦ f
  | some address ↦ assign name (some address) f
]

-- `GET_FUNCTION`; `none` is `return false`.
unfoldable pub get_function : Symbols → Text → Functions → Option Functions
unfolding get_function_optional
get_function symbols name f =
    let g = get_function_optional symbols name f in if is_some (g name) then some g else none

unfoldable pub get_entry : Symbols → Entry → Functions → Option Functions
unfolding get_function get_function_optional
get_entry symbols (required name) f = get_function symbols name f
get_entry symbols (optional name) f = some (get_function_optional symbols name f)
get_entry symbols (or_else name other) f =
    let g = get_function_optional symbols name f in
    if is_some (g name) then some g else get_function symbols other g

unfoldable pub get_entries : Symbols → List Entry → Functions → Option Functions
unfolding get_entry
get_entries symbols [] f = some f
get_entries symbols (e ∷ es) f = Option.bind (get_entry symbols e f) (get_entries symbols es)

-- The entries in their order, for a version of Lua.
abbrev pub opening : Entry
opening = or_else (codes "lua_open") (codes "lua_newstate")

abbrev pub first_entries : List Entry
first_entries =
    required (codes "lua_newthread")
    ∷ required (codes "lua_close")
    ∷ required (codes "lua_error")
    ∷ optional (codes "lua_absindex")
    ∷ required (codes "lua_sethook")
    ∷ required (codes "lua_getinfo")
    ∷ required (codes "lua_settable")
    ∷ required (codes "lua_gettable")
    ∷ required (codes "lua_rawget")
    ∷ required (codes "lua_rawgeti")
    ∷ required (codes "lua_rawset")
    ∷ required (codes "lua_pushstring")
    ∷ required (codes "lua_pushlstring")
    ∷ required (codes "lua_type")
    ∷ required (codes "lua_typename")
    ∷ required (codes "lua_settop")
    ∷ required (codes "lua_gettop")
    ∷ required (codes "lua_getlocal")
    ∷ required (codes "lua_setlocal")
    ∷ required (codes "lua_getstack")
    ∷ required (codes "lua_pushnil")
    ∷ required (codes "lua_pushvalue")
    ∷ required (codes "lua_pushcclosure")
    ∷ required (codes "lua_pushnumber")
    ∷ required (codes "lua_pushlightuserdata")
    ∷ required (codes "lua_checkstack")
    ∷ required (codes "lua_gethookmask")
    ∷ []

abbrev pub middle_entries : List Entry
middle_entries =
    optional (codes "lua_getglobal")
    ∷ optional (codes "lua_setglobal")
    ∷ optional (codes "lua_pushinteger")
    ∷ optional (codes "lua_tointeger")
    ∷ optional (codes "lua_tointegerx")
    ∷ or_else (codes "lua_tostring") (codes "lua_tolstring")
    ∷ or_else (codes "lua_tonumberx") (codes "lua_tonumber")
    ∷ required (codes "lua_toboolean")
    ∷ required (codes "lua_tocfunction")
    ∷ required (codes "lua_touserdata")
    ∷ or_else (codes "lua_callk") (codes "lua_call")
    ∷ or_else (codes "lua_pcallk") (codes "lua_pcall")
    ∷ or_else (codes "lua_newtable") (codes "lua_createtable")
    ∷ required (codes "lua_load")
    ∷ required (codes "lua_next")
    ∷ required (codes "lua_rawequal")
    ∷ required (codes "lua_getmetatable")
    ∷ required (codes "lua_setmetatable")
    ∷ optional (codes "luaL_ref")
    ∷ optional (codes "luaL_unref")
    ∷ required (codes "luaL_newmetatable")
    ∷ required (codes "lua_getupvalue")
    ∷ required (codes "lua_setupvalue")
    ∷ optional (codes "lua_getfenv")
    ∷ optional (codes "lua_setfenv")
    ∷ []

abbrev pub last_entries : List Entry
last_entries =
    optional (codes "luaL_newstate")
    ∷ optional (codes "luaL_loadbuffer")
    ∷ optional (codes "luaL_loadfile")
    ∷ optional (codes "luaL_loadfilex")
    ∷ []

abbrev pub moving_entries : ℕ → List Entry
moving_entries version =
    if ltb 520 version
    then required (codes "lua_rotate") ∷ []
    else required (codes "lua_remove") ∷ required (codes "lua_insert") ∷ []

abbrev pub thread_entry : ℕ → Entry
thread_entry version =
    if leb 510 version then required (codes "lua_pushthread") else optional (codes "lua_pushthread")

abbrev pub user_data_entry : ℕ → Entry
user_data_entry version =
    required (if leb 540 version then codes "lua_newuserdatauv" else codes "lua_newuserdata")

unfoldable pub entries : ℕ → List Entry
entries version =
    opening
    ∷ (first_entries
        ++ (moving_entries version
            ++ (middle_entries ++ thread_entry version ∷ user_data_entry version ∷ last_entries)))

-- An assignment between members of the structure: a pointer is copied, and null is assigned to
-- the second member, which is the source unless the code names another.
pub data Move : Type 0 where
  moves : Text → Text → Text → Move

unfoldable pub move : Move → Functions → Functions
unfolding assign
move (moves source target cleared) f = assign cleared none (assign target (f source) f)

unfoldable pub move_all : List Move → Functions → Functions
unfolding move
move_all [] f = f
move_all (m ∷ ms) f = move_all ms (move m f)

-- The pointers that go to another member, by the version. For Lua 5.0 the source is `lua_load`.
abbrev pub moves_500 : List Move
moves_500 = moves (codes "lua_load") (codes "lua_open_500") (codes "lua_open") ∷ []

abbrev pub moves_510 : List Move
moves_510 = moves (codes "lua_load") (codes "lua_load_510") (codes "lua_load") ∷ []

abbrev pub moves_520 : List Move
moves_520 =
    moves (codes "lua_pushstring") (codes "lua_pushstring_520") (codes "lua_pushstring")
    ∷ moves (codes "lua_pushlstring") (codes "lua_pushlstring_520") (codes "lua_pushlstring")
    ∷ []

abbrev pub moves_530 : List Move
moves_530 =
    moves (codes "lua_rawget") (codes "lua_rawget_530") (codes "lua_rawget")
    ∷ moves (codes "lua_sethook") (codes "lua_sethook_530") (codes "lua_sethook")
    ∷ moves (codes "lua_gettable") (codes "lua_gettable_530") (codes "lua_gettable")
    ∷ moves (codes "lua_getglobal") (codes "lua_getglobal_530") (codes "lua_getglobal")
    ∷ moves (codes "lua_rawgeti") (codes "lua_rawgeti_530") (codes "lua_rawgeti")
    ∷ moves (codes "lua_tointegerx") (codes "lua_tointegerx_530") (codes "lua_tointegerx")
    ∷ moves (codes "lua_pcallk") (codes "lua_pcallk_530") (codes "lua_pcallk")
    ∷ []

unfoldable pub all_moves : ℕ → List Move
all_moves version =
    (if version == 500 then moves_500 else [])
    ++ ((if version == 510 then moves_510 else [])
        ++ ((if leb 520 version then moves_520 else [])
            ++ (if leb 530 version then moves_530 else [])))

-- The version, by the symbols that only some versions have; `none` is a module without Lua.
unfoldable pub version_of : Symbols → Option ℕ
version_of symbols =
    if is_some (symbols (codes "lua_tag"))
    then some 401
    else (if is_some (symbols (codes "lua_open"))
        then some 500
        else (if is_some (symbols (codes "lua_callk"))
            then some (
                if is_some (symbols (codes "luaL_makeseed"))
                then 550
                else (if is_some (symbols (codes "lua_newuserdatauv"))
                    then 540
                    else (if is_some (symbols (codes "lua_getctx")) then 520 else 530)))
            else (if is_some (symbols (codes "lua_gettop")) then some 510 else none)))

pub record Loaded : Type 0 where
  pub version : ℕ
  pub functions : Functions

-- `LoadLuaFunctions`, up to where the structure enters `g_interfaces`.
unfoldable pub find_lua_functions : Symbols → Option Loaded
unfolding version_of entries get_entries all_moves move_all
find_lua_functions symbols = Option.bind (version_of symbols) λ version.
    Option.map (λ f. record { version = version; functions = move_all (all_moves version) f })
      (get_entries symbols (entries version) (λ name. none))

-- `MH_CreateHook`, which is not part of this program: given the functions hooked before and a
-- function, the trampoline that leads to its old code; `none` if there is no hook, as for a function
-- that has one already.
abbrev pub CreateHook : Type 0
CreateHook = List ℕ → ℕ → Option ℕ

-- The members that are hooked, in the order of the code.
abbrev pub hooked_names : List Text
hooked_names =
    codes "lua_open"
    ∷ codes "lua_open_500"
    ∷ codes "lua_newstate"
    ∷ codes "lua_close"
    ∷ codes "lua_newthread"
    ∷ codes "lua_pcall"
    ∷ codes "lua_pcallk"
    ∷ codes "lua_pcallk_530"
    ∷ codes "lua_call"
    ∷ codes "lua_callk"
    ∷ codes "lua_load"
    ∷ codes "lua_load_510"
    ∷ codes "luaL_newmetatable"
    ∷ codes "lua_sethook"
    ∷ codes "lua_sethook_530"
    ∷ codes "luaL_loadbuffer"
    ∷ codes "luaL_loadfile"
    ∷ codes "luaL_loadfilex"
    ∷ codes "luaL_newstate"
    ∷ []

-- `HOOK_FUNCTION` for members in turn: one that is not null becomes what `HookFunction` returns, which
-- is null where there is no hook.
unfoldable pub hook_functions : CreateHook → List Text → List ℕ → Functions → Functions
unfolding assign
hook_functions hook [] hooked f = f
hook_functions hook (name ∷ names) hooked f =
    let skip = hook_functions hook names hooked f in
    elim (f name) [
      | none ↦ skip
      | some a ↦ hook_functions hook names (a ∷ hooked) (assign name (hook hooked a) f)
    ]

-- Whether each hook that these ask for is made.
unfoldable pub are_made : CreateHook → List Text → List ℕ → Functions → Bool
unfolding assign
are_made hook [] hooked f = true
are_made hook (name ∷ names) hooked f =
    let skip = are_made hook names hooked f in
    elim (f name) [
      | none ↦ skip
      | some a ↦
          is_some (hook hooked a)
          && are_made hook names (a ∷ hooked) (assign name (hook hooked a) f)
    ]

unfoldable pub hook_all : CreateHook → Loaded → Loaded
unfolding hook_functions
hook_all hook l = record l { functions = hook_functions hook hooked_names [] l.functions }

unfoldable pub load_lua_functions : CreateHook → Symbols → Option Loaded
unfolding find_lua_functions hook_all
load_lua_functions hook symbols = Option.map (hook_all hook) (find_lua_functions symbols)

-- Whether each hook that `LoadLuaFunctions` asks for is made.
unfoldable pub hooks_made : CreateHook → Symbols → Bool
unfolding find_lua_functions are_made
hooks_made hook symbols = elim (find_lua_functions symbols) [
  | none ↦ true
  | some l ↦ are_made hook hooked_names [] l.functions
]
