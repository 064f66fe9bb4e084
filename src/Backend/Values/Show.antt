-- ===== src/Backend/Values/Show.antt =====
-- The recursion of `GetValueAsText`, on fuel, with its part for user data.
use vecoda.Base.{
  ℕ, zero, suc, ◌-◌, Bool, true, [], ◌∷◌, ◌++◌, List, Option, none, some, if◌then◌else◌, Text,
}
use vecoda.Base.CString.{codes}
use vecoda.Protocol
use vecoda.Backend.Stack.{pred32, index_code}
use vecoda.Backend.Scripts.{get_script_index}
use vecoda.Backend.Hook.Callback.{message}
use vecoda.Backend.Values.{
  Value, nil, string, table, user_data, missing, failed, gave, hangs, Heap, Node, Run, done,
  undefined, runs_on, Display, string_node, type_name, as_string, plain_text, bracketed,
  get_class_name_for_userdata, get_table_as_text,
}

-- The name of a class, or `userdata` if there is none.
unfoldable pub class_name : Option Text → Text
class_name none = codes "userdata"
class_name (some []) = codes "userdata"
class_name (some (c ∷ cs)) = c ∷ cs

abbrev pub error_node : Option Text → Node
error_node none = Node.error (codes "Error executing __tostring")
error_node (some text) = Node.error text

-- The last of several results.
unfoldable pub last_of : Value → List Value → Value
last_of v [] = v
last_of v (w ∷ ws) = last_of w ws

module _ {H : Type 0} where
  -- The results of `__towatch`: the last one is shown, under the name that the first one gives if
  -- there are more than one. `again` is `GetValueAsText` at the same depth, with a type.
  unfoldable pub show_results :
      (Text → Value → Display H → Run (Display H × Node))
      → Text
      → List Value
      → Display H
      → Run (Display H × Node)
  unfolding last_of as_string
  show_results again class [] d = again class nil d
  show_results again class (v ∷ []) d = again class v d
  show_results again class (v ∷ w ∷ ws) d = elim (as_string v) [
    | none ↦ undefined
    | some name ↦ again name (last_of w ws) d
  ]

module _ {H : Type 0} (heap : Heap) (l : ℕ) where
  -- User data with neither metamethod: its class and its address, and a warning the first time.
  unfoldable pub show_address : Bool → Text → ℕ → Display H → Display H × Node
  unfolding message
  show_address as_key class p d = (
    if d.warned then d else record d {
      backend =
          message
            (codes "Warning 1008: No __tostring or __towatch metamethod was provided for userdata")
            Protocol.message_warning d.backend;
      warned = true;
    },
    Node.value (bracketed as_key (codes "0x" ++ heap.pointer p)) class,
  )

  unfoldable pub show_user_data :
      (Text → Value → Display H → Run (Display H × Node))
      → Bool
      → ℕ
      → Display H
      → Run (Display H × Node)
  unfolding show_address show_results class_name get_class_name_for_userdata
  show_user_data again as_key p d =
      let class = class_name (get_class_name_for_userdata heap l p d) in
      elim (heap.to_watch p) [
        | gave results ↦ show_results again class results d
        | failed text ↦ done (d, error_node text)
        | hangs ↦ runs_on
        | missing ↦ elim (heap.to_string p) [
          | gave none ↦ done (show_address as_key class p d)
          | gave (some text) ↦ done (d, Node.value text class)
          | failed text ↦ done (d, error_node text)
          | hangs ↦ runs_on
          | missing ↦ done (show_address as_key class p d)
        ]
      ]

  -- One value; `inside` shows what a table holds, and `again` what user data stands for.
  unfoldable pub show_value :
      (Bool → Value → Display H → Run (Display H × Node))
      → (Text → Value → Display H → Run (Display H × Node))
      → ℕ
      → Text
      → Bool
      → Value
      → Display H
      → Run (Display H × Node)
  unfolding get_table_as_text show_user_data string_node plain_text
  show_value inside again max_depth type as_key (table t) d =
      get_table_as_text heap l inside (max_depth - 1) type t d
  show_value inside again max_depth type as_key (user_data p) d = show_user_data again as_key p d
  show_value inside again max_depth type as_key (string text) d =
      done (d, string_node heap type as_key text)
  show_value inside again max_depth type as_key (Value.function source line) d =
      done (d, Node.function (index_code (get_script_index d.backend source)) (pred32 line))
  show_value inside again max_depth type as_key v d =
      done (d, Node.value (bracketed as_key (plain_text v)) type)

  unfoldable pub get_value_as_text :
      ℕ → ℕ → Option Text → Bool → Value → Display H → Run (Display H × Node)
  unfolding show_value type_name
  get_value_as_text zero max_depth override as_key v d = runs_on
  get_value_as_text (suc fuel) max_depth override as_key v d =
      show_value (λ key w. get_value_as_text fuel (max_depth - 1 - 1) none key w)
        (λ type w. get_value_as_text fuel max_depth (some type) as_key w) max_depth
        (elim override [ none ↦ type_name v | some type ↦ type ]) as_key v d
