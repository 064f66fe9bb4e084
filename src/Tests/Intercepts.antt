-- ===== src/Tests/Intercepts.antt =====
-- The theorems on the functions that run in place of the Lua library's, at the program of the parent
-- module: the state 30 loads a text in two pieces, and is new.
use vecoda.Base.{ℕ, List, [], ◌∷◌, Option, none, arith, Text}
use vecoda.Base.CString.{codes}
use vecoda.LuaDll.Functions.{Functions}
use vecoda.Backend.{Backend}
use vecoda.Backend.Intercepts.Attach.{Good}
use vecoda.Backend.Intercepts.Chunks.{in_pieces}
use vecoda.Tests.{masks, demo, demo-IsLinked, demo-IsIndexed, demo-IsFlagged}

abbrev nothing : Functions
nothing name = none

-- The load fails.
abbrev fails : Text → ℕ × Text
fails text = (3, codes "unexpected symbol")

abbrev pieces : List Text
pieces = codes "x = " ∷ codes "=" ∷ []

abbrev chunks : List (Option Text)
chunks = in_pieces pieces (none ∷ [])

pub demo-Good : Good demo
demo-Good = (
  record { linked = demo-IsLinked; indexed = demo-IsIndexed; flagged = demo-IsFlagged },
  λ e. absurd (ground (arith, e)),
)
