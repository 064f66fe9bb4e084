-- ===== src/Script.antt =====
-- LuaInject/LuaInject/DebugBackend.h and DebugBackend.cpp: a script that the backend knows, and
-- the breakpoints set in it. Lines are those of the front end, counted from 0.
pub mod Toggle
pub mod Range
use vecoda.Base.{
  ℕ, ◌≤◌, ◌<◌, Bool, true, false, not, ◌&&◌, ◌||◌, List, [], ◌∷◌, ◌++◌, ltb, leb, ◌==◌,
  if◌then◌else◌, Text, mem,
}

-- How much of the source the front end can show.
pub data CodeState : Type 0 where
  normal unavailable binary : CodeState

pub record Script : Type 0 where
  pub name : Text
  pub source : Text
  pub title : Text
  pub breakpoints : List ℕ
  pub valid_lines : List ℕ
  pub state : CodeState

-- The loop of `GetHasBreakPoint`, over the entries that are left.
unfoldable pub has_line : List ℕ → ℕ → Bool
has_line [] line = false
has_line (b ∷ bs) line = if b == line then true else has_line bs line

unfoldable pub get_has_break_point : Script → ℕ → Bool
get_has_break_point s line = has_line s.breakpoints line

-- The loop of `HasBreakPointInRange`; the range is [start, stop).
unfoldable pub has_in_range : List ℕ → ℕ → ℕ → Bool
has_in_range [] start stop = false
has_in_range (b ∷ bs) start stop =
    if leb start b && ltb b stop then true else has_in_range bs start stop

unfoldable pub has_break_point_in_range : Script → ℕ → ℕ → Bool
has_break_point_in_range s start stop = has_in_range s.breakpoints start stop

-- `breakpoints.erase(std::find(…))`: the first entry that is the line.
unfoldable pub erase_line : ℕ → List ℕ → List ℕ
erase_line line [] = []
erase_line line (b ∷ bs) = if b == line then bs else b ∷ erase_line line bs

-- The new script, and whether the breakpoint is set now.
unfoldable pub toggle_breakpoint : Script → ℕ → Script × Bool
unfolding has_line erase_line
toggle_breakpoint s line =
    if has_line s.breakpoints line
    then (record s { breakpoints = erase_line line s.breakpoints }, false)
    else (record s { breakpoints = s.breakpoints ++ line ∷ [] }, true)

unfoldable pub clear_breakpoints : Script → Script
clear_breakpoints s = record s { breakpoints = [] }

unfoldable pub has_breakpoints_active : Script → Bool
has_breakpoints_active s = elim s.breakpoints [ [] ↦ false | _ ↦ true ]
