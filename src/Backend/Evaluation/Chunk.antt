-- ===== src/Backend/Evaluation/Chunk.antt =====
-- `Evaluate` of DebugBackend.cpp: an expression of the front end is run in the variables of a
-- frame. What Lua does with a text and with a chunk are the arguments `load` and `pcall`; a chunk
-- may change the chained tables and, by functions that it calls, the frame's own variables. A document
-- holds the values that are written as XML. What the functions that run in place of the library's,
-- and the error handlers, do to the backend while a text is loaded and run is the argument `inside`;
-- a run that does not come back is left out. The result `none` is undefined behaviour, `strstr` of a null pointer.
pub mod Answers
use vecoda.Base.{
  ℕ, drop, ◌+◌, Bool, true, false, List, [], ◌∷◌, ◌++◌, Option, none, some, ◌==◌, ltb, length,
  if◌then◌else◌, Text,
}
use vecoda.Base.CString.{codes, starts_with}
use vecoda.LuaDll.{LuaHooks}
use vecoda.LuaDll.HookMode
use vecoda.LuaDll.Tables.{LuaValues, LuaTables}
use vecoda.Backend.{Backend, hook, get_vm}
use vecoda.Backend.Evaluation.{Frame, Environment, create_environment, write_back}

abbrev pub err_syntax : ℕ
err_syntax = 3

-- What `lua_loadbuffer` gives: a chunk, or an error with its message.
pub data Load (C : Type 0) : Type 0 where
  chunk : C → Load C
  failed : ℕ → Text → Load C

-- What `lua_pcall` gives: results, or an error, with the string that `lua_tostring` finds for it.
pub data Call (V : Type 0) : Type 0 where
  returned : List V → Call V
  raised : Option Text → Call V

pub data Document (V : Type 0) : Type 0 where
  plain : List V → Document V
  values : List V → Document V
  error : Text → Document V

-- What `Evaluate` returns: `false` with no result, or a result and whether there was no error.
pub data Answer (V : Type 0) : Type 0 where
  refused : Answer V
  answered : Document V → Bool → Answer V

unfoldable pub statement : Text → Text
statement expression = codes "return \n" ++ expression

-- What stands behind the first occurrence of a text: `strstr`, and then over it.
unfoldable pub behind : Text → Text → Option Text
unfolding starts_with
behind p [] = none
behind p (c ∷ cs) =
    let later = behind p cs in
    if starts_with p (c ∷ cs) then some (drop (length p) (c ∷ cs)) else later

unfoldable pub error_message : Text → Text
unfolding behind
error_message whole = elim (behind (codes ":2: ") whole) [ none ↦ whole | some rest ↦ rest ]

-- The document and whether there was no error.
unfoldable pub document : {V : Type 0} → Call V → Option (Document V × Bool)
unfolding error_message
document (returned results) =
    some (if ltb 1 (length results) then values results else plain results, true)
document (raised none) = none
document (raised (some whole)) = some (error (codes "Error: " ++ error_message whole), false)

-- The level in Lua's stack: some levels were skipped in the stack that the front end has.
unfoldable pub level_of : {H : Type 0} → ℕ → ℕ → Backend H → ℕ
unfolding get_vm
level_of l level s = elim (get_vm s l) [
  | none ↦ level
  | some p ↦ elim (s.objects p) [ none ↦ level | some vm ↦ level + vm.stack_top ]
]

module _ {V T G C : Type 0} ⦃value : LuaValues V⦄ ⦃lua : LuaTables V T⦄ (load : Text → Load C)
    (pcall : C → Environment T G → Frame V G → Environment T G × Frame V G × Call V)
    (nil_sentinel : V) where
  -- The text as an expression, or else as a statement.
  unfoldable pub load_expression : Text → Load C
  unfolding statement
  load_expression expression = elim (load (statement expression)) [
    | chunk c ↦ chunk c
    | failed code text ↦ if code == err_syntax then load expression else failed code text
  ]

  unfoldable pub run_expression :
      Text → Environment T G → Frame V G → Environment T G × Frame V G × Call V
  unfolding load_expression
  run_expression expression env frame = elim (load_expression expression) [
    | chunk c ↦ pcall c env frame
    | failed code text ↦ (env, frame, raised (some text))
  ]

  -- What is left of the frame, and the answer.
  unfoldable pub evaluate_in : Text → Frame V G → Option (Frame V G × Answer V)
  unfolding run_expression document
  evaluate_in expression frame =
      let (env, after, called) =
        run_expression expression (create_environment nil_sentinel frame) frame in
      elim (document called) [
        | none ↦ none
        | some (doc, ok) ↦ some (write_back nil_sentinel env after, answered doc ok)
      ]

  module _ {H : Type 0} ⦃hooks : LuaHooks H⦄ (inside : Text → Backend H → Backend H) where
    -- `frames` has the frame at each level of Lua's stack.
    unfoldable pub evaluate :
        Bool
        → ℕ
        → Text
        → ℕ
        → (ℕ → Option (Frame V G))
        → Backend H
        → Option (Backend H × (ℕ → Option (Frame V G)) × Answer V)
    unfolding evaluate_in level_of
    evaluate lua_loaded l expression level frames s =
        let at = level_of l level s in
        let t =
          hook (inside expression (hook s l HookMode.HookMode.none)) l HookMode.HookMode.full in
        if lua_loaded
        then elim (frames at) [
          | none ↦ some (s, frames, refused)
          | some frame ↦ elim (evaluate_in expression frame) [
            | none ↦ none
            | some (new, answer) ↦ some (t, (λ k. if k == at then some new else frames k), answer)
          ]
        ]
        else some (s, frames, refused)
