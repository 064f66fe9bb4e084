-- ===== src/LuaDll/Functions/Calls.antt =====
-- Which function each `…_dll` of LuaInject/LuaInject/LuaDll.cpp calls.
use vecoda.Base.{ℕ, Bool, true, false, List, [], ◌∷◌, Option, none, some, if◌then◌else◌, leb, Text}
use vecoda.Base.CString.{codes}
use vecoda.LuaDll.Functions.{Functions, Loaded}

-- The functions `lua_close_dll` and so on, without the ending.
pub data Wrapper : Type 0 where
  lua_close lua_newthread lua_error lua_getinfo lua_settable : Wrapper
  lua_rawset lua_type lua_typename lua_checkstack lua_settop : Wrapper
  lua_getlocal lua_setlocal lua_getstack lua_pushnil lua_pushcclosure : Wrapper
  lua_pushvalue lua_pushnumber lua_pushlightuserdata lua_toboolean lua_tocfunction : Wrapper
  lua_touserdata lua_gettop lua_next lua_rawequal lua_getmetatable : Wrapper
  lua_setmetatable lua_getupvalue lua_setupvalue lua_gethookmask lua_l_newmetatable : Wrapper
  lua_newuserdata lua_sethook lua_remove lua_insert lua_rawget : Wrapper
  lua_rawgeti lua_pushstring lua_pushlstring lua_tostring lua_tolstring : Wrapper
  lua_tonumber lua_loadbuffer lua_call lua_pcallk lua_pcall : Wrapper
  lua_newtable lua_newstate lua_gettable lua_absindex lua_setglobal : Wrapper
  lua_getglobal lua_pushthread lua_pushinteger lua_tointeger lua_getfenv : Wrapper
  lua_setfenv lua_l_ref lua_l_unref lua_l_loadbuffer lua_l_loadbufferx : Wrapper
  lua_l_loadfile lua_l_loadfilex lua_l_newstate : Wrapper

-- The members that are tried in their order, of which the last is called without a test unless
-- there is an emulation.
unfoldable pub choices : ℕ → Wrapper → List Text
choices version lua_gettable =
    (if leb 530 version then codes "lua_gettable_530" else codes "lua_gettable") ∷ []
choices version lua_newuserdata = codes "lua_newuserdatauv" ∷ codes "lua_newuserdata" ∷ []
choices version lua_sethook = codes "lua_sethook_530" ∷ codes "lua_sethook" ∷ []
choices version lua_remove = codes "lua_rotate" ∷ codes "lua_remove" ∷ []
choices version lua_insert = codes "lua_rotate" ∷ codes "lua_insert" ∷ []
choices version lua_rawget = codes "lua_rawget_530" ∷ codes "lua_rawget" ∷ []
choices version lua_rawgeti = codes "lua_rawgeti_530" ∷ codes "lua_rawgeti" ∷ []
choices version lua_pushstring = codes "lua_pushstring_520" ∷ codes "lua_pushstring" ∷ []
choices version lua_pushlstring = codes "lua_pushlstring_520" ∷ codes "lua_pushlstring" ∷ []
choices version lua_tostring = codes "lua_tostring" ∷ codes "lua_tolstring" ∷ []
choices version lua_tolstring = codes "lua_tolstring" ∷ codes "lua_tostring" ∷ []
choices version lua_tonumber = codes "lua_tonumberx" ∷ codes "lua_tonumber" ∷ []
choices version lua_loadbuffer = codes "lua_load" ∷ codes "lua_load_510" ∷ []
choices version lua_call = codes "lua_call" ∷ codes "lua_callk" ∷ []
choices version lua_pcallk = codes "lua_pcallk_530" ∷ codes "lua_pcallk" ∷ []
choices version lua_pcall = codes "lua_pcallk" ∷ codes "lua_pcallk_530" ∷ codes "lua_pcall" ∷ []
choices version lua_newtable = codes "lua_newtable" ∷ codes "lua_createtable" ∷ []
choices version lua_newstate = codes "lua_newstate" ∷ codes "lua_open_500" ∷ codes "lua_open" ∷ []
choices version lua_absindex = codes "lua_absindex" ∷ []
choices version lua_setglobal = codes "lua_setglobal" ∷ []
choices version lua_getglobal = codes "lua_getglobal_530" ∷ codes "lua_getglobal" ∷ []
choices version lua_pushthread = codes "lua_pushthread" ∷ []
choices version lua_pushinteger = codes "lua_pushinteger" ∷ []
choices version lua_tointeger =
    codes "lua_tointegerx" ∷ codes "lua_tointegerx_530" ∷ codes "lua_tointeger" ∷ []
choices version lua_getfenv = codes "lua_getfenv" ∷ []
choices version lua_setfenv = codes "lua_setfenv" ∷ []
choices version lua_close = codes "lua_close" ∷ []
choices version lua_newthread = codes "lua_newthread" ∷ []
choices version lua_error = codes "lua_error" ∷ []
choices version lua_getinfo = codes "lua_getinfo" ∷ []
choices version lua_settable = codes "lua_settable" ∷ []
choices version lua_rawset = codes "lua_rawset" ∷ []
choices version lua_type = codes "lua_type" ∷ []
choices version lua_typename = codes "lua_typename" ∷ []
choices version lua_checkstack = codes "lua_checkstack" ∷ []
choices version lua_settop = codes "lua_settop" ∷ []
choices version lua_getlocal = codes "lua_getlocal" ∷ []
choices version lua_setlocal = codes "lua_setlocal" ∷ []
choices version lua_getstack = codes "lua_getstack" ∷ []
choices version lua_pushnil = codes "lua_pushnil" ∷ []
choices version lua_pushcclosure = codes "lua_pushcclosure" ∷ []
choices version lua_pushvalue = codes "lua_pushvalue" ∷ []
choices version lua_pushnumber = codes "lua_pushnumber" ∷ []
choices version lua_pushlightuserdata = codes "lua_pushlightuserdata" ∷ []
choices version lua_toboolean = codes "lua_toboolean" ∷ []
choices version lua_tocfunction = codes "lua_tocfunction" ∷ []
choices version lua_touserdata = codes "lua_touserdata" ∷ []
choices version lua_gettop = codes "lua_gettop" ∷ []
choices version lua_next = codes "lua_next" ∷ []
choices version lua_rawequal = codes "lua_rawequal" ∷ []
choices version lua_getmetatable = codes "lua_getmetatable" ∷ []
choices version lua_setmetatable = codes "lua_setmetatable" ∷ []
choices version lua_getupvalue = codes "lua_getupvalue" ∷ []
choices version lua_setupvalue = codes "lua_setupvalue" ∷ []
choices version lua_gethookmask = codes "lua_gethookmask" ∷ []
choices version lua_l_newmetatable = codes "luaL_newmetatable" ∷ []
choices version lua_l_ref = codes "luaL_ref" ∷ []
choices version lua_l_unref = codes "luaL_unref" ∷ []
choices version lua_l_loadbuffer = codes "luaL_loadbuffer" ∷ []
choices version lua_l_loadbufferx = codes "luaL_loadbufferx" ∷ []
choices version lua_l_loadfile = codes "luaL_loadfile" ∷ []
choices version lua_l_loadfilex = codes "luaL_loadfilex" ∷ []
choices version lua_l_newstate = codes "luaL_newstate" ∷ []

-- Whether a function does without the library's one where that is missing.
unfoldable pub emulates : Wrapper → Bool
emulates lua_absindex = true
emulates lua_setglobal = true
emulates lua_getglobal = true
emulates lua_pushthread = true
emulates lua_pushinteger = true
emulates lua_tointeger = true
emulates lua_getfenv = true
emulates lua_setfenv = true
emulates lua_l_ref = true
emulates other = false

unfoldable pub first_of : Functions → List Text → Option ℕ
first_of f [] = none
first_of f (name ∷ names) = elim (f name) [ some address ↦ some address | none ↦ first_of f names ]

pub data Callee : Type 0 where
  calls : ℕ → Callee
  emulated null_call : Callee

unfoldable pub callee_of : Bool → Option ℕ → Callee
callee_of without (some address) = calls address
callee_of true none = emulated
callee_of false none = null_call

unfoldable pub callee : Loaded → Wrapper → Callee
unfolding choices emulates first_of callee_of
callee l w = callee_of (emulates w) (first_of l.functions (choices l.version w))

-- The functions that the debugger itself calls, but for `lua_pcallk_dll`, which is only called where
-- there is a `lua_pcallk`, and `luaL_unref_dll`.
abbrev pub wrappers : List Wrapper
wrappers =
    lua_close ∷ lua_newthread ∷ lua_error ∷ lua_getinfo ∷ lua_settable ∷ lua_rawset ∷ lua_type
    ∷ lua_typename ∷ lua_checkstack ∷ lua_settop ∷ lua_getlocal ∷ lua_setlocal ∷ lua_getstack
    ∷ lua_pushnil ∷ lua_pushcclosure ∷ lua_pushvalue ∷ lua_pushnumber ∷ lua_pushlightuserdata
    ∷ lua_toboolean ∷ lua_tocfunction ∷ lua_touserdata ∷ lua_gettop ∷ lua_next ∷ lua_rawequal
    ∷ lua_getmetatable ∷ lua_setmetatable ∷ lua_getupvalue ∷ lua_setupvalue ∷ lua_gethookmask
    ∷ lua_l_newmetatable ∷ lua_newuserdata ∷ lua_sethook ∷ lua_remove ∷ lua_insert ∷ lua_rawget
    ∷ lua_rawgeti ∷ lua_pushstring ∷ lua_pushlstring ∷ lua_tostring ∷ lua_tolstring ∷ lua_tonumber
    ∷ lua_loadbuffer ∷ lua_call ∷ lua_pcall ∷ lua_newtable ∷ lua_newstate ∷ lua_gettable
    ∷ lua_absindex ∷ lua_setglobal ∷ lua_getglobal ∷ lua_pushthread ∷ lua_pushinteger
    ∷ lua_tointeger ∷ lua_getfenv ∷ lua_setfenv ∷ lua_l_ref ∷ []
