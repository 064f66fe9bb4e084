-- ===== src/Backend/Values/Expand.antt =====
-- `GetSpecialNode` and `ExpandTable` of DebugBackend.cpp: what the front end is shown of a scope, or of
-- a table that it knows by its reference. A frame is what Lua has at a level, as for Evaluate. The
-- result is the child of the document, which is left without one for an unknown reference. Linking a
-- null pointer into the document is undefined behaviour.
pub mod References
pub mod Reference
use vecoda.Base.{
  ℕ, ◌+◌, Bool, true, false, not, List, [], ◌∷◌, Option, none, some, ◌==◌, if◌then◌else◌, Text,
}
use vecoda.Base.CString.{codes}
use vecoda.LuaDll.{LuaHooks}
use vecoda.LuaDll.HookMode
use vecoda.Backend.{hook}
use vecoda.Backend.Evaluation.{Frame, get_is_internal_variable, has_name}
use vecoda.Backend.Evaluation.Chunk.{level_of}
use vecoda.Backend.Values.{
  Value, table, Heap, Node, Elements, end, element, Mark, unmarked, empty, Run, done, undefined,
  runs_on, then_run, Display, find_entry,
}
use vecoda.Backend.Values.Show.{get_value_as_text}

pub data Scope : Type 0 where
  nothing local up_value global : Scope

-- The element of a variable.
abbrev pub variable : Text → Node → Elements → Elements
variable name shown rest = element (Node.value name (codes "string")) shown rest

-- `cnt == 0`.
abbrev pub scope_mark : Elements → Mark
scope_mark end = empty
scope_mark (element k v rest) = unmarked

module _ {H : Type 0} where
  -- The loop over the variables; `shown` says which names count.
  unfoldable pub show_variables :
      (Text → Bool)
      → (Value → Display H → Run (Display H × Node))
      → List (Text × Value)
      → Display H
      → Run (Display H × Elements)
  unfolding then_run
  show_variables shown show [] d = done (d, end)
  show_variables shown show ((name, v) ∷ rest) d =
      let skip = show_variables shown show rest d in
      let taken = then_run (show v d) λ data_.
        then_run (show_variables shown show rest data_.0)
          λ more. done (more.0, variable name data_.1 more.1) in
      if shown name then taken else skip

module _ {H : Type 0} (heap : Heap) (l fuel : ℕ) where
  -- The globals are the value of the function's environment.
  unfoldable pub get_special_node :
      Scope → Option (Frame Value Value) → Display H → Run (Display H × Option Node)
  unfolding show_variables get_is_internal_variable has_name
  get_special_node scope none d = done (d, none)
  get_special_node local (some frame) d =
      then_run
        (show_variables (λ name. not (get_is_internal_variable name))
          (λ v. get_value_as_text heap l fuel 1 none false v) frame.locals d)
        λ all. done (all.0, some (Node.table (codes "table") all.1 (scope_mark all.1)))
  get_special_node up_value (some frame) d =
      then_run
        (show_variables has_name (λ v. get_value_as_text heap l fuel 1 none false v) frame.up_values
          d)
        λ all. done (all.0, some (Node.table (codes "table") all.1 (scope_mark all.1)))
  get_special_node scope (some frame) d =
      then_run (get_value_as_text heap l fuel 2 none false frame.globals d)
        λ r. done (r.0, some r.1)

  -- The child of the document.
  unfoldable pub expand_node :
      Scope → ℕ → Option (Frame Value Value) → Display H → Run (Display H × Option Node)
  unfolding get_special_node find_entry
  expand_node nothing ref frame d = elim (find_entry ref d.refs) [
    | none ↦ done (d, none)
    | some t ↦
        then_run (get_value_as_text heap l fuel 2 none false (table t) d) λ r. done (r.0, some r.1)
  ]
  expand_node scope ref frame d =
      then_run (get_special_node scope frame d)
        λ r. elim r.1 [ none ↦ undefined | some node ↦ done (r.0, some node) ]

  -- `none` for `false`, without Lua.
  unfoldable pub expand_table :
      ⦃hooks : LuaHooks H⦄
      → Bool
      → ℕ
      → Scope
      → ℕ
      → (ℕ → Option (Frame Value Value))
      → Display H
      → Run (Display H × Option (Option Node))
  unfolding expand_node level_of
  expand_table lua_loaded level scope ref frames d =
      let quiet = record d { backend = hook d.backend l HookMode.HookMode.none } in
      let shown =
        then_run (expand_node scope ref (frames (level_of l level d.backend)) quiet) λ r.
          done (record r.0 { backend = hook r.0.backend l HookMode.HookMode.full }, some r.1) in
      if lua_loaded then shown else done (d, none)
