-- ===== src/Backend/Breakpoints/Flags.antt =====
-- Each machine's flag says whether some script has a breakpoint: what keeps that, and what does not.
use vecoda.Base.{
  ℕ, ◌≡◌, refl, ◌≢◌, Bool, true, false, List, [], ◌∷◌, ◌++◌, some, All, Bool-cases, inl, inr,
  get_elem?, set, arith, map, suc, zero, get_elem?-set_self, get_elem?-set_ne, get_elem?-lt, sym,
}
use mathlib.Core.Path.{subst}
use vecoda.LuaDll.{LuaHooks}
use vecoda.Script
use vecoda.Script.{Script}
use vecoda.Backend.{VirtualMachine, Objects, Backend, for_vms}
use vecoda.Backend.Vms.Linked.{Holds, IsLinked}
use vecoda.Backend.Breakpoints.{
  any_breakpoints, get_have_active_breakpoints, after_toggle, toggled, toggle_breakpoint, flag,
  flag_and_check, delete_all_breakpoints,
}
use vecoda.Backend.Breakpoints.Machines.{At, All-for_vms}

any_breakpoints-get :
    (ss : List Script) (i : ℕ) (s : Script)
    → get_elem? ss i ≡ some s
    → Script.has_breakpoints_active s ≡ true
    → any_breakpoints ss ≡ true
unfolding any_breakpoints
any_breakpoints-get [] i s e h = ground arith
any_breakpoints-get (x ∷ ss) zero s e h = ground arith
any_breakpoints-get (x ∷ ss) (suc i) s e h = ground (arith, any_breakpoints-get ss i s e h)

module _ (s : Script) (line : ℕ) where
  not_empty :
      (bs : List ℕ)
      → Script.has_breakpoints_active (record s { breakpoints = bs ++ line ∷ [] }) ≡ true
  unfolding Script.has_breakpoints_active
  not_empty [] = refl
  not_empty (b ∷ bs) = refl

  has_some :
      (bs : List ℕ)
      → Script.has_line bs line ≡ true
      → Script.has_breakpoints_active (record s { breakpoints = bs }) ≡ true
  unfolding Script.has_breakpoints_active Script.has_line
  has_some [] h = ground arith
  has_some (b ∷ bs) h = refl

  toggle_on :
      (Script.toggle_breakpoint s line).1 ≡ true
      → Script.has_breakpoints_active (Script.toggle_breakpoint s line).0 ≡ true
  unfolding Script.toggle_breakpoint Script.has_breakpoints_active
  toggle_on h = elim (Bool-cases (Script.has_line s.breakpoints line)) [
    | inl e ↦ absurd (ground arith)
    | inr e ↦ rw e (not_empty s.breakpoints)
  ]

  toggle_off : (Script.toggle_breakpoint s line).1 ≡ false → Script.has_breakpoints_active s ≡ true
  unfolding Script.toggle_breakpoint Script.has_breakpoints_active
  toggle_off h = elim (Bool-cases (Script.has_line s.breakpoints line)) [
    | inl e ↦ has_some s.breakpoints e
    | inr e ↦ absurd (ground arith)
  ]

any_cleared : (ss : List Script) → any_breakpoints (map Script.clear_breakpoints ss) ≡ false
unfolding any_breakpoints Script.clear_breakpoints Script.has_breakpoints_active
any_cleared [] = refl
any_cleared (s ∷ ss) = any_cleared ss

-- The flag is the one given.
abbrev pub Says : Bool → VirtualMachine → Type 0
Says on vm = vm.have_active_breakpoints ≡ on

abbrev Any : VirtualMachine → Type 0
Any vm = Unit {0}

live-All :
    (objects : Objects) (m : List (ℕ × ℕ)) → All (Holds objects) m → All (λ e. At Any objects e.1) m
live-All objects [] h = tt
live-All objects ((k, p) ∷ m) h = let (vm, e, o) = h.0 in ((vm, e, tt), live-All objects m h.1)

flags_as :
    (objects : Objects) (m : List (ℕ × ℕ)) (a b : Bool)
    → a ≡ b
    → All (λ e. At (Says a) objects e.1) m
    → All (λ e. At (Says b) objects e.1) m
flags_as objects m a b e h = subst (λ c. All (λ x. At (Says c) objects x.1) m) e h

-- Every machine's flag says whether some script has a breakpoint.
unfoldable pub IsFlagged : {H : Type 0} → Backend H → Type 0
IsFlagged s = All (λ e. At (Says (get_have_active_breakpoints s)) s.objects e.1) s.state_to_vm

module _ {H : Type 0} ⦃lua : LuaHooks H⦄ where
  after_toggle-IsFlagged :
      (now : Bool) (index : ℕ) (u : Backend H)
      → All (Holds u.objects) u.state_to_vm
      → (now ≡ true → get_have_active_breakpoints u ≡ true)
      → (now ≡ false → All (λ e. At (Says true) u.objects e.1) u.state_to_vm)
      → IsFlagged (after_toggle now index u)
  unfolding after_toggle get_have_active_breakpoints IsFlagged
  after_toggle-IsFlagged true index u h on off = rw (on refl) (
      All-for_vms (Says true) (flag_and_check true) Any (λ _ _. tt) (λ _ _. refl) (λ _ _. refl)
        u.state_to_vm u.objects (live-All u.objects u.state_to_vm h))
  after_toggle-IsFlagged false index u h on off = elim (Bool-cases (any_breakpoints u.scripts)) [
    | inl e ↦ rw e (flags_as u.objects u.state_to_vm _ _ (sym e) (off refl))
    | inr e ↦ rw e (
        flags_as (for_vms (flag false) u.state_to_vm u.objects) u.state_to_vm _ _ (sym e) (
          All-for_vms (Says false) (flag false) Any (λ _ _. tt) (λ _ _. refl) (λ _ _. refl)
            u.state_to_vm u.objects (live-All u.objects u.state_to_vm h)))
  ]

  pub scripts-after_toggle :
      (now : Bool) (index : ℕ) (u : Backend H) → (after_toggle now index u).scripts ≡ u.scripts
  unfolding after_toggle
  scripts-after_toggle true index u = refl
  scripts-after_toggle false index u = ground arith

  pub toggled-IsFlagged :
      (l index line : ℕ) (s : Backend H) (script : Script)
      → IsLinked s
      → IsFlagged s
      → get_elem? s.scripts index ≡ some script
      → IsFlagged (toggled l index line (Script.toggle_breakpoint script line) s)
  unfolding toggled IsFlagged get_have_active_breakpoints
  toggled-IsFlagged l index line s script v f e =
      after_toggle-IsFlagged now index (record s { scripts = set s.scripts index new }) v.live
        (λ h.
          any_breakpoints-get (set s.scripts index new) index new
            (get_elem?-set_self s.scripts index new (get_elem?-lt s.scripts index e))
            (toggle_on script line h))
        (λ h.
          flags_as s.objects s.state_to_vm _ _
            (any_breakpoints-get s.scripts index script e (toggle_off script line h)) f)
    where
      new : Script
      new = (Script.toggle_breakpoint script line).0

      now : Bool
      now = (Script.toggle_breakpoint script line).1

  -- Toggling a line of a script that is there succeeds, toggles it in that script and no other,
  -- and leaves every machine's flag saying whether some script has a breakpoint, where the flags
  -- said so before and the machines are in step.
  pub toggle_breakpoint-IsFlagged :
      (l index line : ℕ) (s : Backend H) (script : Script)
      → IsLinked s
      → IsFlagged s
      → get_elem? s.scripts index ≡ some script
      → (t : Backend H) × (toggle_breakpoint l index line s ≡ some t)
        × IsFlagged t
        × (get_elem? t.scripts index ≡ some (Script.toggle_breakpoint script line).0)
        × ((j : ℕ) → index ≢ j → get_elem? t.scripts j ≡ get_elem? s.scripts j)
  unfolding toggle_breakpoint toggled
  toggle_breakpoint-IsFlagged l index line s script v f e = (
    toggled l index line (Script.toggle_breakpoint script line) s,
    rw (e, toggle_breakpoint),
    toggled-IsFlagged l index line s script v f e,
    rw scripts-after_toggle (get_elem?-set_self s.scripts index _ (get_elem?-lt s.scripts index e)),
    λ j n. rw scripts-after_toggle (get_elem?-set_ne s.scripts index j _ n),
  )

  -- Deleting all breakpoints leaves no script with one, and every machine's flag saying so, where
  -- the machines are in step.
  pub delete_all_breakpoints-IsFlagged :
      (s : Backend H)
      → IsLinked s
      → (get_have_active_breakpoints (delete_all_breakpoints s) ≡ false)
        × IsFlagged (delete_all_breakpoints s)
  unfolding delete_all_breakpoints get_have_active_breakpoints IsFlagged
  delete_all_breakpoints-IsFlagged s v = (
    any_cleared s.scripts,
    flags_as _ s.state_to_vm false _ (sym (any_cleared s.scripts)) (
        All-for_vms (Says false) (flag_and_check false) Any (λ _ _. tt) (λ _ _. refl) (λ _ _. refl)
          s.state_to_vm s.objects (live-All s.objects s.state_to_vm v.live)),
  )
