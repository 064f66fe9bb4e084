-- ===== src/Backend/Evaluation/Chunk/Answers.antt =====
-- What `Evaluate` answers, and what it leaves of the hook and of the frame.
use vecoda.Base.{
  ℕ, ◌≡◌, refl, Bool, true, false, List, ◌++◌, Option, none, some, if◌then◌else◌, Text, ◌⊎◌, ltb,
  length,
}
use vecoda.Base.CString.{codes}
use vecoda.LuaDll.{LuaHooks}
use vecoda.LuaDll.HookMode
use vecoda.LuaDll.Tables.{LuaValues, LuaTables}
use vecoda.Backend.{Backend, hook}
use vecoda.Backend.Evaluation.{Frame, Environment, create_environment}
use vecoda.Backend.Evaluation.Chunk.{
  Load, Call, returned, raised, Document, refused, values, plain, error, error_message,
  run_expression, level_of, evaluate,
}

-- The backend with the hook of a state off, and what a run leaves of it.
abbrev pub left_by :
    {H : Type 0} ⦃hooks : LuaHooks H⦄
    → (Text → Backend H → Backend H)
    → Text
    → ℕ
    → Backend H
    → Backend H
left_by inside expression l s = inside expression (hook s l HookMode.HookMode.none)

module _ {V T G C H : Type 0} ⦃value : LuaValues V⦄ ⦃lua : LuaTables V T⦄ ⦃hooks : LuaHooks H⦄
    (load : Text → Load C)
    (pcall : C → Environment T G → Frame V G → Environment T G × Frame V G × Call V)
    (nil_sentinel : V) (inside : Text → Backend H → Backend H) (l level : ℕ) (expression : Text)
    (frames : ℕ → Option (Frame V G)) (s : Backend H) where
  -- Without a frame at the level, or without Lua, nothing is done.
  pub evaluate-Refuses :
      frames (level_of l level s) ≡ none
      → evaluate load pcall nil_sentinel inside true l expression level frames s
        ≡ some (s, frames, refused)
  unfolding evaluate
  evaluate-Refuses e = rw e refl

  module _ (frame : Frame V G) (here : frames (level_of l level s) ≡ some frame) where
    -- The run of the text that Lua could load.
    abbrev pub ran : Environment T G × Frame V G × Call V
    ran =
        run_expression load pcall nil_sentinel expression (create_environment nil_sentinel frame)
          frame

    -- What is answered for the end of a run: its results, or its error.
    abbrev pub Says : Call V → Document V → Bool → Type 0
    Says called doc ok =
        ((results : List V) × (called ≡ returned results)
          × (ok ≡ true)
          × (doc ≡ (if ltb 1 (length results) then values results else plain results)))
        ⊎ ((whole : Text) × (called ≡ raised (some whole))
            × (ok ≡ false)
            × (doc ≡ error (codes "Error: " ++ error_message whole)))
