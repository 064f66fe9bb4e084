-- ===== src/Script/Range.antt =====
-- What `Script::HasBreakPointInRange` finds.
use vecoda.Base.{
  ℕ, ◌≤◌, ◌<◌, ◌≡◌, ◌↔◌, true, List, [], ◌∷◌, arith, leb, ltb, ◌&&◌, Bool-cases, inl, inr,
}
use vecoda.Script.{Script, has_line, get_has_break_point, has_in_range, has_break_point_in_range}

module _ (start stop : ℕ) where
  find_line :
      (bs : List ℕ)
      → has_in_range bs start stop ≡ true
      → (k : ℕ) × (start ≤ k) × (k < stop) × (has_line bs k ≡ true)
  unfolding has_in_range has_line
  find_line [] h = ground arith
  find_line (b ∷ bs) h = elim (Bool-cases (leb start b && ltb b stop)) [
    | inl hit ↦ (b, ground arith, ground arith, ground arith)
    | inr miss ↦ let (k, lo, hi, e) = find_line bs (ground arith) in (k, lo, hi, ground arith)
  ]

  line_found :
      (bs : List ℕ) (k : ℕ)
      → start ≤ k
      → k < stop
      → has_line bs k ≡ true
      → has_in_range bs start stop ≡ true
  unfolding has_in_range has_line
  line_found [] k lo hi h = ground arith
  line_found (b ∷ bs) k lo hi h = ground (arith, line_found bs k)

  -- The range test succeeds exactly when some line from `start` up to, but without, `stop` has a
  -- breakpoint.
  pub has_break_point_in_range_iff :
      (s : Script)
      → (has_break_point_in_range s start stop ≡ true)
        ↔ ((k : ℕ) × (start ≤ k) × (k < stop) × (get_has_break_point s k ≡ true))
  unfolding has_break_point_in_range get_has_break_point
  has_break_point_in_range_iff s =
      (find_line s.breakpoints, λ w. line_found s.breakpoints w.0 w.1 w.2 w.3)
