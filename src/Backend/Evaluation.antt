-- ===== src/Backend/Evaluation.antt =====
-- `CreateEnvironment`, `IndexChained`, `NewIndexChained`, `SetLocals` and `SetUpValues` of
-- DebugBackend.cpp: the variables that an expression sees at a stop, and how they are written back.
-- A frame is what `lua_getlocal` and `lua_getupvalue` give for it, index 1 first. The globals are
-- the function's environment, whose reads and writes may run code of the program: the two functions
-- of `Globals` are what Lua does there.
pub mod Scope
pub mod Tables
pub mod WriteBack
pub mod Lexical
pub mod Refines
pub mod Overwrites
pub mod Chunk
use vecoda.Base.{ℕ, Bool, true, false, ◌&&◌, not, List, [], ◌∷◌, ◌==◌, if◌then◌else◌, Text}
use vecoda.LuaDll.Tables.{LuaValues, LuaTables}

pub record Globals (V G : Type 0) : Type 0 where
  pub gettable : G → V → V
  pub settable : G → V → V → G

pub record Frame (V G : Type 0) : Type 0 where
  pub locals : List (Text × V)
  pub up_values : List (Text × V)
  pub globals : G

-- The tables of the chained environment.
pub record Environment (T G : Type 0) : Type 0 where
  pub local_table : T
  pub up_value_table : T
  pub global_table : G

-- `(*temporary)`, `(for index)` and the like.
unfoldable pub get_is_internal_variable : Text → Bool
get_is_internal_variable [] = false
get_is_internal_variable (c ∷ cs) = c == b'('

-- `name && *name`: the up values of a C function have no name.
unfoldable pub has_name : Text → Bool
has_name [] = false
has_name (c ∷ cs) = true

module _ {V : Type 0} ⦃value : LuaValues V⦄ (nil_sentinel : V) where
  -- A nil is kept as the sentinel, so that the variable counts as declared.
  abbrev pub sealed : V → V
  sealed v = if value.is_nil v then nil_sentinel else v

  abbrev pub opened : V → V
  opened v = if value.rawequal v nil_sentinel then value.nil else v

module _ {V T : Type 0} ⦃value : LuaValues V⦄ ⦃lua : LuaTables V T⦄ (nil_sentinel : V) where
  -- The loop of `CopyLocal`.
  unfoldable pub copy_local : List (Text × V) → T → T
  unfolding get_is_internal_variable
  copy_local [] t = t
  copy_local ((name, v) ∷ locals) t = copy_local locals (
      if get_is_internal_variable name
      then t
      else lua.rawset t (value.string name) (sealed nil_sentinel v))

  -- The loop of `CopyUpvalue`.
  unfoldable pub copy_upvalue : List (Text × V) → T → T
  unfolding has_name
  copy_upvalue [] t = t
  copy_upvalue ((name, v) ∷ up_values) t =
      copy_upvalue up_values
        (if has_name name then lua.rawset t (value.string name) (sealed nil_sentinel v) else t)

  -- `SetLocals`.
  unfoldable pub set_locals : T → List (Text × V) → List (Text × V)
  unfolding get_is_internal_variable
  set_locals t [] = []
  set_locals t ((name, v) ∷ locals) =
      (
        name,
        if get_is_internal_variable name
            then v
            else opened nil_sentinel (lua.rawget t (value.string name)),
      )
      ∷ set_locals t locals

  -- `SetUpValues`.
  unfoldable pub set_up_values : T → List (Text × V) → List (Text × V)
  unfolding has_name
  set_up_values t [] = []
  set_up_values t ((name, v) ∷ up_values) =
      (name, if has_name name then opened nil_sentinel (lua.rawget t (value.string name)) else v)
      ∷ set_up_values t up_values

module _ {V T G : Type 0} ⦃value : LuaValues V⦄ ⦃lua : LuaTables V T⦄ (nil_sentinel : V) where
  -- `CreateEnvironment` for a level that is there.
  unfoldable pub create_environment : Frame V G → Environment T G
  unfolding copy_local copy_upvalue
  create_environment frame = record {
    local_table = copy_local nil_sentinel frame.locals lua.newtable;
    up_value_table = copy_upvalue nil_sentinel frame.up_values lua.newtable;
    global_table = frame.globals;
  }

  -- Both, at the end of `Evaluate`; the globals are the environment's.
  unfoldable pub write_back : Environment T G → Frame V G → Frame V G
  unfolding set_locals set_up_values
  write_back env frame = record {
    locals = set_locals nil_sentinel env.local_table frame.locals;
    up_values = set_up_values nil_sentinel env.up_value_table frame.up_values;
    globals = env.global_table;
  }

module _ {V T G : Type 0} ⦃value : LuaValues V⦄ ⦃lua : LuaTables V T⦄ ⦃global : Globals V G⦄
    (nil_sentinel : V) where
  unfoldable pub index_chained : Environment T G → V → V
  index_chained env key =
      let a = lua.rawget env.local_table key in
      let b = if value.is_nil a then lua.rawget env.up_value_table key else a in
      opened nil_sentinel (if value.is_nil b then global.gettable env.global_table key else b)

  unfoldable pub new_index_chained : V → V → Environment T G → Environment T G
  new_index_chained key new env =
      if not (value.is_nil (lua.rawget env.local_table key))
      then record env { local_table = lua.rawset env.local_table key (sealed nil_sentinel new) }
      else (if not (value.is_nil (lua.rawget env.up_value_table key))
          then record env {
            up_value_table = lua.rawset env.up_value_table key (sealed nil_sentinel new);
          }
          else record env { global_table = global.settable env.global_table key new })
