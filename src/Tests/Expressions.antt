-- ===== src/Tests/Expressions.antt =====
-- The theorems on evaluation, on a frame with three variables.
use vecoda.Base.{
  text_eq, if◌then◌else◌, ◌==◌, ℕ, ◌≡◌, refl, true, false, Bool, List, [], ◌∷◌, Option, none, some,
  Text,
}
use vecoda.Base.CString.{codes}
use vecoda.LuaDll.HookMode
use vecoda.Backend.{Backend}
use vecoda.Backend.Evaluation.{
  Frame, Environment, create_environment, index_chained, write_back, has_name,
  get_is_internal_variable,
}
use vecoda.Backend.Evaluation.Scope.{is_local, Unshadowed, visible, assign_var}
use vecoda.Backend.Evaluation.Lexical.{lookup, assigns, assign, IsPlain}
use vecoda.Backend.Evaluation.Refines.{run_assigns, evaluation_refines_assigns}
use vecoda.Backend.Evaluation.Overwrites.{innermost, write_back_overwrites}
use vecoda.Backend.Evaluation.Chunk.{Load, chunk, failed, Call, returned, raised, err_syntax}
use vecoda.Tests.{masks}
use vecoda.Tests.Values.{values, tables, globals}

abbrev sentinel : Text
sentinel = 2 ∷ []

-- `local x = 7; local y` in a function with the up value `z`.
abbrev frame : Frame Text (Text → Text)
frame = record {
  locals = (codes "x", 3 ∷ 7 ∷ []) ∷ (codes "y", []) ∷ (codes "(for index)", 3 ∷ 1 ∷ []) ∷ [];
  up_values = (codes "z", 3 ∷ 9 ∷ []) ∷ [];
  globals = λ k. [];
}

-- `y = 5; z = nil`.
abbrev news : List (Text × Text)
news = (codes "y", 3 ∷ 5 ∷ []) ∷ (codes "z", []) ∷ []

frame-IsPlain : IsPlain sentinel refl frame
unfolding Unshadowed visible text_eq get_is_internal_variable has_name
frame-IsPlain = ((refl, (refl, (refl, tt))), (refl, tt), (refl, (refl, (refl, tt))), (refl, tt))

evaluation_refines_assigns_example :
    let env : Environment (Text → Text) (Text → Text) =
      run_assigns sentinel news (create_environment sentinel frame) in
    (write_back sentinel env frame ≡ assigns news frame)
    × (index_chained sentinel env (1 ∷ codes "y") ≡ lookup (assigns news frame) (codes "y"))
unfolding lookup assigns assign visible assign_var text_eq get_is_internal_variable has_name
evaluation_refines_assigns_example =
    evaluation_refines_assigns (Text → Text) sentinel refl news frame (codes "y") frame-IsPlain
      (refl, (refl, tt)) refl

write_back_overwrites_example :
    let env : Environment (Text → Text) (Text → Text) = create_environment sentinel frame in
    let after = write_back sentinel env (assigns news frame) in
    (after.locals ≡ innermost is_local frame.locals frame.locals)
    × (after.up_values ≡ innermost has_name frame.up_values frame.up_values)
unfolding text_eq
write_back_overwrites_example =
    write_back_overwrites (Text → Text) sentinel refl frame news (refl, (refl, (refl, tt)))
      (refl, tt)

-- Lua loads the expression `y` and returns its value, and refuses every other text.
abbrev load : Text → Load Text
load t = if text_eq t (codes "return \ny") then chunk t else failed err_syntax (codes "[x]:2: no")

abbrev pcall :
    Text
    → Environment (Text → Text) (Text → Text)
    → Frame Text (Text → Text)
    → Environment (Text → Text) (Text → Text) × Frame Text (Text → Text) × Call Text
pcall c env f = (env, f, returned (index_chained sentinel env (1 ∷ codes "y") ∷ []))

abbrev frames : ℕ → Option (Frame Text (Text → Text))
frames k = if k == 0 then some frame else none

abbrev has_result : Call Text → Bool
has_result (returned vs) = true
has_result (raised e) = false

-- The run lets the wait for a script end.
abbrev noted : Text → Backend (ℕ → ℕ) → Backend (ℕ → ℕ)
noted text b = record b { load_event = true }
