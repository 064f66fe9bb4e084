-- ===== src/Script/Toggle.antt =====
-- What `Script::ToggleBreakpoint` does to the set of lines.
use vecoda.Base.{
  ℕ, ◌≡◌, refl, true, false, not, List, [], ◌∷◌, ◌++◌, arith, ◌==◌, if◌then◌else◌, Bool-cases, mem,
  Distinct, inl, inr,
}
use vecoda.Script.{Script, has_line, get_has_break_point, erase_line, toggle_breakpoint}

pub has_line-mem : (bs : List ℕ) (line : ℕ) → has_line bs line ≡ mem line bs
unfolding has_line
has_line-mem [] line = refl
has_line-mem (b ∷ bs) line = ground (arith, has_line-mem bs line)

mem-append_end :
    (k line : ℕ) (bs : List ℕ) → mem k (bs ++ line ∷ []) ≡ (if line == k then true else mem k bs)
mem-append_end k line [] = ground arith
mem-append_end k line (b ∷ bs) = ground (arith, mem-append_end k line bs)

mem-erase_line :
    (k line : ℕ) (bs : List ℕ)
    → Distinct bs
    → mem k (erase_line line bs) ≡ (if line == k then false else mem k bs)
unfolding erase_line
mem-erase_line k line [] d = ground arith
mem-erase_line k line (b ∷ bs) d = ground (arith, mem-erase_line k line bs)

Distinct-append_end :
    (line : ℕ) (bs : List ℕ) → mem line bs ≡ false → Distinct bs → Distinct (bs ++ line ∷ [])
Distinct-append_end line [] h d = ground arith
Distinct-append_end line (b ∷ bs) h d =
    ground (arith, mem-append_end b line bs, Distinct-append_end line bs)

Distinct-erase_line : (line : ℕ) (bs : List ℕ) → Distinct bs → Distinct (erase_line line bs)
unfolding erase_line
Distinct-erase_line line [] d = tt
Distinct-erase_line line (b ∷ bs) d =
    ground (arith, mem-erase_line b line bs, Distinct-erase_line line bs)

module _ (s : Script) (line k : ℕ) (d : Distinct s.breakpoints) where
  -- Toggling a line flips that breakpoint, reports its new state, leaves every other line as it
  -- was, and never lists a line twice, in a script whose lines are listed once.
  pub get_has_break_point-toggle_breakpoint :
      let (t, now) = toggle_breakpoint s line in
      (now ≡ not (get_has_break_point s line))
      × (get_has_break_point t k ≡ (if line == k then now else get_has_break_point s k))
      × Distinct t.breakpoints
  unfolding toggle_breakpoint get_has_break_point
  get_has_break_point-toggle_breakpoint = elim (Bool-cases (has_line s.breakpoints line)) [
    | inl set ↦ rw set (
      refl,
      rw (has_line-mem (erase_line line s.breakpoints) k, has_line-mem s.breakpoints k)
          (mem-erase_line k line s.breakpoints d),
      Distinct-erase_line line s.breakpoints d,
    )
    | inr clear ↦ rw clear (
      refl,
      rw (has_line-mem (s.breakpoints ++ line ∷ []) k, has_line-mem s.breakpoints k)
          (mem-append_end k line s.breakpoints),
      Distinct-append_end line s.breakpoints (ground (arith, has_line-mem s.breakpoints line)) d,
    )
  ]
