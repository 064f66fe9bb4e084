-- ===== src/Backend/Intercepts.antt =====
-- The functions of LuaInject/LuaInject/LuaDll.cpp that run in place of the Lua library's own where
-- a state is made or closed, a script is loaded, a hook is set or a metatable is named: each calls
-- the original and tells the backend. What the original answers is an argument; `inside` is what
-- the backend does meanwhile, since the original may call others that are replaced too.
pub mod Attach
pub mod Chunks
pub mod Sound
pub mod Calls
pub mod Transparent
use vecoda.Base.{
  ℕ, ◌≡◌, ◌==◌, Bool, true, false, ◌&&◌, ◌||◌, not, List, [], ◌∷◌, ◌++◌, Option, none, some,
  if◌then◌else◌, Text,
}
use mathlib.Core.Option
use vecoda.Base.CString.{codes}
use vecoda.Protocol
use vecoda.LuaDll.{LuaHooks, LuaInterface, LuaDebug}
use vecoda.LuaDll.Functions.{Functions}
use vecoda.LuaDll.Functions.Calls.{first_of}
use vecoda.Backend.{ClassInfo, Backend}
use vecoda.Backend.Vms.{attach_state, detach_state}
use vecoda.Backend.Stack.{StackEntry}
use vecoda.Backend.Hook.Callback.{message}
use vecoda.Backend.Errors.{post_load_script}

-- The loop over the reader of `lua_load`, by what the reader answers in turn, where null is `none`;
-- there is no result as long as the reader goes on.
unfoldable pub read_chunks : List (Option Text) → Option Text
read_chunks [] = none
read_chunks (none ∷ cs) = some []
read_chunks (some [] ∷ cs) = some []
read_chunks (some (c ∷ chunk) ∷ cs) = Option.map (λ rest. (c ∷ chunk) ++ rest) (read_chunks cs)

-- A state that an original makes; `none` if it has no function, or that answers null.
unfoldable pub made_by : Functions → Text → (ℕ → Option ℕ) → Option ℕ
made_by functions name make = elim (functions name) [ none ↦ none | some f ↦ make f ]

-- What the first of some originals answers to a load: its result and its error message.
unfoldable pub loaded_by : {A : Type 0} → Functions → List Text → (ℕ → A → ℕ × Text) → A → ℕ × Text
unfolding first_of
loaded_by functions names load text = elim (first_of functions names) [
  | none ↦ (0, [])
  | some f ↦ load f text
]

-- `RegisterClassName`, with the reference that `luaL_ref` gives.
unfoldable pub register_class_name : {H : Type 0} → ℕ → Text → ℕ → Backend H → Backend H
register_class_name l name ref s = record s {
  class_infos = s.class_infos ++ (record { l = l; meta_table_ref = ref; name = name }) ∷ [];
}

abbrev pub jit_warning : Text
jit_warning = codes "Warning 1007: Just-in-time compilation of Lua code disabled to allow debugging"

-- A call of one of them, with what the library answers.
pub data Intercept : Type 0 where
  newstate newthread opens opens_500 l_newstate : (ℕ → Option ℕ) → Intercept
  close sethook : ℕ → Intercept
  newmetatable : ℕ → (ℕ → ℕ) → Text → ℕ → Intercept
  loads : ℕ → List (Option Text) → Bool → (Text → ℕ × Text) → Option Text → Bool → Intercept
  loadbuffer : ℕ → (ℕ → Text → ℕ × Text) → Text → Option Text → Intercept
  loadfile : ℕ → (ℕ → Option Text → ℕ × Text) → Option Text → Option Text → Intercept

-- Whether the reader comes to an end, and the name of a file is not null.
abbrev pub Ends : Intercept → Type 0
Ends (loads l chunks jit answer name warned) = (buffer : Text) × (read_chunks chunks ≡ some buffer)
Ends (loadfile l answer file contents) = (name : Text) × (file ≡ some name)
Ends other = Unit

module _ {H : Type 0} ⦃lua : LuaHooks H⦄ (meanwhile inside : Backend H → Backend H)
    (face : LuaInterface) (native : List StackEntry) (frames : List LuaDebug) (api : ℕ)
    (stack_ok : Bool) (functions : Functions) where
  -- A new state is attached.
  unfoldable pub attach_made : Option ℕ → Backend H → Backend H
  unfolding attach_state
  attach_made none s = s
  attach_made (some l) s = (attach_state api l stack_ok s).0

  unfoldable pub lua_newstate_intercept : (ℕ → Option ℕ) → Backend H → Backend H
  unfolding made_by attach_made
  lua_newstate_intercept make s =
      attach_made (made_by functions (codes "lua_newstate") make) (inside s)

  unfoldable pub lua_newthread_intercept : (ℕ → Option ℕ) → Backend H → Backend H
  unfolding made_by attach_made
  lua_newthread_intercept make s =
      attach_made (made_by functions (codes "lua_newthread") make) (inside s)

  unfoldable pub lua_open_intercept : (ℕ → Option ℕ) → Backend H → Backend H
  unfolding made_by attach_made
  lua_open_intercept make s = attach_made (made_by functions (codes "lua_open") make) (inside s)

  unfoldable pub lua_open_500_intercept : (ℕ → Option ℕ) → Backend H → Backend H
  unfolding made_by attach_made
  lua_open_500_intercept make s =
      attach_made (made_by functions (codes "lua_open_500") make) (inside s)

  unfoldable pub lua_l_newstate_worker : (ℕ → Option ℕ) → Backend H → Backend H
  unfolding made_by attach_made
  lua_l_newstate_worker make s =
      attach_made (made_by functions (codes "luaL_newstate") make) (inside s)

  unfoldable pub lua_close_intercept : ℕ → Backend H → Backend H
  unfolding detach_state
  lua_close_intercept l s = detach_state l (inside s)

  unfoldable pub lua_sethook_intercept : ℕ → Backend H → Backend H
  unfolding attach_state
  lua_sethook_intercept l s = (attach_state api l stack_ok s).0

  unfoldable pub lua_l_newmetatable_intercept : ℕ → (ℕ → ℕ) → Text → ℕ → Backend H → Backend H
  unfolding register_class_name
  lua_l_newmetatable_intercept l make name ref s =
      let result : ℕ = elim (functions (codes "luaL_newmetatable")) [
        | none ↦ 0
        | some f ↦ make f
      ] in
      if result == 0 then s else register_class_name l name ref s

  -- The load of a text that is read in chunks. `jit` says whether `EnableJit` had a compiler to turn
  -- off, and `warned` is `g_warnedAboutJit`; the answer has the result of the load last.
  unfoldable pub lua_load_worker :
      ℕ
      → List (Option Text)
      → Bool
      → (Text → ℕ × Text)
      → Option Text
      → Bool
      → Backend H
      → Option (Backend H × Bool × ℕ)
  unfolding read_chunks attach_state message post_load_script
  lua_load_worker l chunks jit load name warned s = Option.bind (read_chunks chunks) λ buffer.
      let t = (attach_state api l stack_ok s).0 in
      let u = if jit && not warned then message jit_warning Protocol.message_warning t else t in
      let (result, text) = load buffer in
      let loaded : Option (Backend H × ℕ) = elim buffer [
        | [] ↦ some (u, result)
        | c ∷ cs ↦
            post_load_script meanwhile face l native frames result text (some (c ∷ cs)) name u
      ] in
      Option.map (λ r. (r.0, warned || jit, r.1)) loaded

  unfoldable pub lua_l_loadbufferx_worker :
      ℕ → (ℕ → Text → ℕ × Text) → Text → Option Text → Backend H → Option (Backend H × ℕ)
  unfolding loaded_by attach_state post_load_script
  lua_l_loadbufferx_worker l load buffer name s =
      let (result, text) =
        loaded_by functions (codes "luaL_loadbufferx" ∷ codes "luaL_loadbuffer" ∷ []) load buffer in
      post_load_script meanwhile face l native frames result text (some buffer) name
        (attach_state api l stack_ok (inside s)).0

  -- `contents` is what the file holds, if it can be opened. To open one by a null name, with which the
  -- library reads its standard input, is undefined.
  unfoldable pub lua_l_loadfilex_worker :
      ℕ
      → (ℕ → Option Text → ℕ × Text)
      → Option Text
      → Option Text
      → Backend H
      → Option (Backend H × ℕ)
  unfolding loaded_by attach_state post_load_script
  lua_l_loadfilex_worker l load file contents s =
      let (result, text) =
        loaded_by functions (codes "luaL_loadfilex" ∷ codes "luaL_loadfile" ∷ []) load file in
      let t = (attach_state api l stack_ok (inside s)).0 in
      Option.bind file (λ name. elim contents [
        | none ↦ some (t, result)
        | some buffer ↦
            post_load_script meanwhile face l native frames result text (some buffer)
              (some (codes "@" ++ name)) t
      ])

  -- The backend afterwards.
  unfoldable pub intercept : Intercept → Backend H → Option (Backend H)
  unfolding lua_newstate_intercept lua_newthread_intercept lua_open_intercept lua_open_500_intercept
      lua_l_newstate_worker lua_close_intercept lua_sethook_intercept lua_l_newmetatable_intercept
      lua_load_worker lua_l_loadbufferx_worker lua_l_loadfilex_worker
  intercept (newstate make) s = some (lua_newstate_intercept make s)
  intercept (newthread make) s = some (lua_newthread_intercept make s)
  intercept (opens make) s = some (lua_open_intercept make s)
  intercept (opens_500 make) s = some (lua_open_500_intercept make s)
  intercept (l_newstate make) s = some (lua_l_newstate_worker make s)
  intercept (close l) s = some (lua_close_intercept l s)
  intercept (sethook l) s = some (lua_sethook_intercept l s)
  intercept (newmetatable l make name ref) s = some (lua_l_newmetatable_intercept l make name ref s)
  intercept (loads l chunks jit answer name warned) s =
      Option.map (λ r. r.0) (lua_load_worker l chunks jit answer name warned s)
  intercept (loadbuffer l answer buffer name) s =
      Option.map (λ r. r.0) (lua_l_loadbufferx_worker l answer buffer name s)
  intercept (loadfile l answer file contents) s =
      Option.map (λ r. r.0) (lua_l_loadfilex_worker l answer file contents s)

  -- The state that is attached.
  unfoldable pub attaches : Intercept → Option ℕ
  unfolding made_by
  attaches (newstate make) = made_by functions (codes "lua_newstate") make
  attaches (newthread make) = made_by functions (codes "lua_newthread") make
  attaches (opens make) = made_by functions (codes "lua_open") make
  attaches (opens_500 make) = made_by functions (codes "lua_open_500") make
  attaches (l_newstate make) = made_by functions (codes "luaL_newstate") make
  attaches (close l) = none
  attaches (sethook l) = some l
  attaches (newmetatable l make name ref) = none
  attaches (loads l chunks jit answer name warned) = some l
  attaches (loadbuffer l answer buffer name) = some l
  attaches (loadfile l answer file contents) = some l
