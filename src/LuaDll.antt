-- ===== src/LuaDll.antt =====
-- LuaInject/LuaInject/LuaDll.h, LuaDll.cpp and LuaTypes.h: the layer over the Lua library that the
-- host program has loaded. That library is not part of the repository: its `lua_sethook` and
-- `lua_gethookmask` are the interface `LuaHooks`, and what it writes into a `lua_Debug` is an
-- argument. An `int` is its bit pattern, so -1 is `minus_one`.
pub mod HookMode
pub mod Functions
pub mod Stack
pub mod Tables
use vecoda.Base.{
  ℕ, ◌+◌, ◌<◌, ◌≡◌, ◌≢◌, Bool, true, false, Option, none, some, ◌||◌, ◌==◌, if◌then◌else◌, Text,
}

abbrev pub minus_one : ℕ
minus_one = 0xffff_ffff

abbrev pub hook_call : ℕ
hook_call = 0

abbrev pub hook_ret : ℕ
hook_ret = 1

abbrev pub hook_line : ℕ
hook_line = 2

-- The masks are `1 << event`.
abbrev pub mask_call : ℕ
mask_call = 1

abbrev pub mask_ret : ℕ
mask_ret = 2

abbrev pub mask_line : ℕ
mask_line = 4

-- `lua_sethook` and `lua_gethookmask`: the mask that a state was last given is the one it reports,
-- and each state, a thread, has a mask of its own.
-- A null hook, which Lua stores with the mask 0, is the mask 0 here.
pub record LuaHooks (H : Type 0) : Type 0 where
  pub sethook : H → ℕ → ℕ → H
  pub gethookmask : H → ℕ → ℕ
  pub gethookmask-sethook : (h : H) (l m : ℕ) → m < 8 → gethookmask (sethook h l m) l ≡ m
  pub gethookmask-sethook_ne :
      (h : H) (l k m : ℕ) → l ≢ k → gethookmask (sethook h l m) k ≡ gethookmask h k

-- The fields of one layout of `lua_Debug` that the backend reads; a null `char*` is `none`.
pub record Activation : Type 0 where
  pub event : ℕ
  pub name : Option Text
  pub what : Option Text
  pub source : Option Text
  pub currentline : ℕ
  pub linedefined : ℕ
  pub lastlinedefined : ℕ
  pub nups : ℕ

-- The union `lua_Debug`, read under each of its layouts.
pub record LuaDebug : Type 0 where
  pub ld51 : Activation
  pub ld52 : Activation
  pub ld54 : Activation
  pub ld55 : Activation

-- What a member of `g_interfaces` says of the loaded library.
pub record LuaInterface : Type 0 where
  pub version : ℕ
  pub hook_tail_call : ℕ
  pub hook_tail_ret : ℕ

-- The `switch` on the version by which the accessors choose the layout.
unfoldable pub layout : LuaInterface → LuaDebug → Activation
layout face ar =
    if face.version == 550
    then ar.ld55
    else (if face.version == 540
        then ar.ld54
        else (if face.version == 530 || face.version == 520 then ar.ld52 else ar.ld51))

unfoldable pub get_event : LuaInterface → LuaDebug → ℕ
get_event face ar = (layout face ar).event

unfoldable pub get_nups : LuaInterface → LuaDebug → ℕ
get_nups face ar = (layout face ar).nups

unfoldable pub get_current_line : LuaInterface → LuaDebug → ℕ
get_current_line face ar = (layout face ar).currentline

unfoldable pub get_line_defined : LuaInterface → LuaDebug → ℕ
get_line_defined face ar = (layout face ar).linedefined

unfoldable pub get_last_line_defined : LuaInterface → LuaDebug → ℕ
get_last_line_defined face ar = (layout face ar).lastlinedefined

unfoldable pub get_source : LuaInterface → LuaDebug → Option Text
get_source face ar = (layout face ar).source

unfoldable pub get_name : LuaInterface → LuaDebug → Option Text
get_name face ar = (layout face ar).name

-- The cases 520, 530 and 550 have no `return` and fall through to the layout of 5.1.
unfoldable pub get_what : LuaInterface → LuaDebug → Option Text
get_what face ar = if face.version == 540 then ar.ld54.what else ar.ld51.what

unfoldable pub get_is_hook_event_ret : LuaInterface → ℕ → Bool
get_is_hook_event_ret face event = event == hook_ret || event == face.hook_tail_ret

unfoldable pub get_is_hook_event_call : LuaInterface → ℕ → Bool
get_is_hook_event_call face event = event == hook_call || event == face.hook_tail_call
