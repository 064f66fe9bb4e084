-- ===== src/Backend/Waits/Ready.antt =====
-- When a wait is over at once, and changes of the backend that leave it so.
use vecoda.Base.{ℕ, ◌≡◌, refl, List, true, some, Bool-cases, inl, inr, ◌⊎◌}
use vecoda.Backend.{VirtualMachine, Objects, Backend, get_vm, alter, for_vms}
use vecoda.Backend.Breakpoints.Machines.{At, At-alter, At-for_vms}
use vecoda.Backend.Waits.{Awaited, break_event, load_event, is_signalled, reset, wait_for_event}

abbrev pub Broken : Objects → ℕ → Type 0
Broken = At (λ vm. vm.break_event ≡ true)

-- A change of the machines that resets no break event.
abbrev pub Stays : Objects → Objects → Type 0
Stays a b = (p : ℕ) → Broken a p → Broken b p

pub alter-Stays :
    (f : VirtualMachine → VirtualMachine)
    → ((vm : VirtualMachine) → vm.break_event ≡ true → (f vm).break_event ≡ true)
    → (q : ℕ) (objects : Objects) → Stays objects (alter f q objects)
alter-Stays f same q objects p h = At-alter _ _ f same (λ vm e. e) objects q p h

pub for_vms-Stays :
    (f : VirtualMachine → VirtualMachine)
    → ((vm : VirtualMachine) → vm.break_event ≡ true → (f vm).break_event ≡ true)
    → (m : List (ℕ × ℕ)) (objects : Objects) → Stays objects (for_vms f m objects)
for_vms-Stays f same m objects p h = At-for_vms _ f same m objects p h

module _ {H : Type 0} where
  abbrev pub IsReady : Awaited → Backend H → Type 0
  IsReady (break_event p) s = Broken s.objects p ⊎ (s.detach_event ≡ true)
  IsReady load_event s = (s.load_event ≡ true) ⊎ (s.detach_event ≡ true)

  pub wait_for_event-ready :
      (e : Awaited) (s : Backend H) → IsReady e s → (t : Backend H) × (wait_for_event e s ≡ some t)
  unfolding wait_for_event is_signalled
  wait_for_event-ready (break_event p) s (inl (vm, at_p, on)) =
      let set : is_signalled (break_event p) s ≡ true = rw (is_signalled, at_p) on in
      (reset (break_event p) s, rw (set, wait_for_event) refl)
  wait_for_event-ready (break_event p) s (inr gone) =
      elim (Bool-cases (is_signalled (break_event p) s)) [
        | inl on ↦ (reset (break_event p) s, rw (on, wait_for_event) refl)
        | inr off ↦ (s, rw (off, wait_for_event, gone) refl)
      ]
  wait_for_event-ready load_event s (inl on) = (reset load_event s, rw on refl)
  wait_for_event-ready load_event s (inr gone) = elim (Bool-cases s.load_event) [
    | inl on ↦ (reset load_event s, rw on refl)
    | inr off ↦ (s, rw (off, gone) refl)
  ]

  -- The thread that waits for a machine's event is one of the machine's state.
  abbrev pub Owns : ℕ → Awaited → Backend H → Type 0
  Owns l (break_event p) s = get_vm s l ≡ some p
  Owns l load_event s = Unit

  -- No event that is set is reset.
  abbrev pub Later : Backend H → Backend H → Type 0
  Later s t =
      Stays s.objects t.objects
      × (s.load_event ≡ true → t.load_event ≡ true)
      × (s.detach_event ≡ true → t.detach_event ≡ true)

  pub IsReady-later : (e : Awaited) (s t : Backend H) → Later s t → IsReady e s → IsReady e t
  IsReady-later (break_event p) s t h (inl on) = inl (h.0 p on)
  IsReady-later (break_event p) s t h (inr gone) = inr (h.2 gone)
  IsReady-later load_event s t h (inl on) = inl (h.1 on)
  IsReady-later load_event s t h (inr gone) = inr (h.2 gone)
