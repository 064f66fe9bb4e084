-- ===== src/Backend/Breakpoints/Machines.antt =====
-- Loops that change every machine of the map.
use vecoda.Base.{ℕ, ◌≡◌, List, [], ◌∷◌, some, ◌==◌, All, Bool-cases, inl, inr, ==_refl}
use vecoda.Backend.{VirtualMachine, Objects, alter, for_vms}

-- The machine at an address has a property.
abbrev pub At : (VirtualMachine → Type 0) → Objects → ℕ → Type 0
At P objects p = (vm : VirtualMachine) × (objects p ≡ some vm) × P vm

module _ (P Q : VirtualMachine → Type 0) (f : VirtualMachine → VirtualMachine) where
  pub At-alter :
      ((vm : VirtualMachine) → P vm → Q (f vm))
      → ((vm : VirtualMachine) → P vm → Q vm)
      → (objects : Objects) (q p : ℕ) → At P objects p
      → At Q (alter f q objects) p
  At-alter both same objects q p (vm, e, h) = elim (Bool-cases (q == p)) [
    | inl hit ↦ (f vm, rw (hit, e), both vm h)
    | inr miss ↦ (vm, rw (miss, e), same vm h)
  ]

module _ (P : VirtualMachine → Type 0) (f : VirtualMachine → VirtualMachine) where
  pub At-for_vms :
      ((vm : VirtualMachine) → P vm → P (f vm))
      → (m : List (ℕ × ℕ)) (objects : Objects) (p : ℕ) → At P objects p
      → At P (for_vms f m objects) p
  unfolding for_vms
  At-for_vms keep [] objects p h = h
  At-for_vms keep ((k, q) ∷ m) objects p h =
      At-for_vms keep m (alter f q objects) p (At-alter P P f keep (λ vm g. g) objects q p h)

  pub At-alter-All :
      (Q : VirtualMachine → Type 0)
      → ((vm : VirtualMachine) → Q vm → Q (f vm))
      → (objects : Objects) (q : ℕ) (m : List (ℕ × ℕ)) → All (λ e. At Q objects e.1) m
      → All (λ e. At Q (alter f q objects) e.1) m
  At-alter-All Q keep objects q [] a = tt
  At-alter-All Q keep objects q ((k, p) ∷ m) a =
      (At-alter Q Q f keep (λ vm g. g) objects q p a.0, At-alter-All Q keep objects q m a.1)

  -- What `f` brings about holds of every machine of the map after the loop.
  pub All-for_vms :
      (Q : VirtualMachine → Type 0)
      → ((vm : VirtualMachine) → Q vm → Q (f vm))
      → ((vm : VirtualMachine) → Q vm → P (f vm))
      → ((vm : VirtualMachine) → P vm → P (f vm))
      → (m : List (ℕ × ℕ)) (objects : Objects) → All (λ e. At Q objects e.1) m
      → All (λ e. At P (for_vms f m objects) e.1) m
  unfolding for_vms
  All-for_vms Q live set keep [] objects a = tt
  All-for_vms Q live set keep ((k, p) ∷ m) objects a =
      let (vm, e, h) = a.0 in
      (
        At-for_vms keep m (alter f p objects) p (f vm, rw (==_refl p, e), set vm h),
        All-for_vms Q live set keep m (alter f p objects) (At-alter-All Q live objects p m a.1),
      )
