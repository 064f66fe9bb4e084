-- ===== src/Backend/Vms/Detach.antt =====
-- Detaching a state leaves no pointer to its machine.
use vecoda.Base.{
  ℕ, ◌≡◌, refl, ◌≢◌, false, List, [], ◌∷◌, Option, none, some, arith, ◌==◌, Bool-cases, inl, inr,
  mem, Distinct, All, ◌<◌, ap, sym, ◌∙◌,
}
use vecoda.Backend.{Objects, Backend, free, find_state, get_vm}
use vecoda.Backend.Vms.{erase_state, is_of_state, erase_vms, detach_state}
use vecoda.Backend.Vms.Linked.{keys, addresses, Holds, IsLinked}

-- No address of a list is that of a machine of `l`.
abbrev Without : ℕ → Objects → List ℕ → Type 0
Without l objects = All (λ p. is_of_state l objects p ≡ false)

erase_vms-Without :
    (l : ℕ) (ps : List ℕ) (objects : Objects)
    → Without l objects ps
    → erase_vms l ps objects ≡ (ps, objects)
unfolding erase_vms
erase_vms-Without l [] objects w = refl
erase_vms-Without l (p ∷ []) objects w = rw w.0
erase_vms-Without l (p ∷ q ∷ ps) objects w = rw (w.0, erase_vms-Without l (q ∷ ps) objects w.1)

Without-free :
    (l p : ℕ) (ps : List ℕ) (objects : Objects)
    → Without l objects ps
    → Without l (free objects p) ps
unfolding is_of_state
Without-free l p [] objects w = tt
Without-free l p (q ∷ ps) objects w = (
  elim (Bool-cases (p == q)) [ inl e ↦ rw (e, is_of_state) | inr e ↦ rw (e, is_of_state) w.0 ],
  Without-free l p ps objects w.1,
)

Holds-Without :
    (l : ℕ) (m : List (ℕ × ℕ)) (objects : Objects)
    → All (Holds objects) m
    → mem l (keys m) ≡ false
    → Without l objects (addresses m)
unfolding is_of_state
Holds-Without l [] objects h n = tt
Holds-Without l ((k, p) ∷ m) objects h n =
    let (vm, e, o) = h.0 in (ground arith, Holds-Without l m objects h.1 (ground arith))

is_of_state-Holds :
    (l k p : ℕ) (objects : Objects) → Holds objects (k, p) → is_of_state l objects p ≡ (k == l)
unfolding is_of_state
is_of_state-Holds l k p objects (vm, e, o) = ground arith

-- What the loop leaves behind, given the address that the map had for the state.
abbrev pub freed : Option ℕ → Objects → Objects
freed none objects = objects
freed (some p) objects = free objects p

erase_vms-erase_state :
    (l : ℕ) (m : List (ℕ × ℕ)) (objects : Objects)
    → Distinct (keys m)
    → All (Holds objects) m
    → erase_vms l (addresses m) objects
      ≡ (addresses (erase_state l m), freed (find_state l m) objects)
unfolding erase_vms erase_state find_state
erase_vms-erase_state l [] objects d h = refl
erase_vms-erase_state l ((k, p) ∷ []) objects d h =
    ground (arith, is_of_state-Holds l k p objects h.0)
erase_vms-erase_state l ((k, p) ∷ (j, q) ∷ m) objects d h = elim (Bool-cases (k == l)) [
  | inl hit ↦ rw (
    is_of_state-Holds l k p objects h.0,
    hit,
    erase_vms-Without l (addresses m) (free objects p)
        (Without-free l p (addresses m) objects (Holds-Without l m objects h.1.1 (ground arith))),
  )
  | inr miss ↦ rw (
    is_of_state-Holds l k p objects h.0,
    miss,
    erase_vms-erase_state l ((j, q) ∷ m) objects d.1 h.1,
  )
]

Holds-free :
    (l p : ℕ) (m : List (ℕ × ℕ)) (objects : Objects)
    → Holds objects (l, p)
    → mem l (keys m) ≡ false
    → All (Holds objects) m
    → All (Holds (free objects p)) m
Holds-free l p [] objects (vm, e, o) n h = tt
Holds-free l p ((k, q) ∷ m) objects (vm, e, o) n h =
    let (v, e', o') = h.0 in
    let away_eq : (p == q) ≡ false = ground (arith, ap {A = ℕ} objects {x = p} {y = q}) in
    ((v, rw away_eq e', o'), Holds-free l p m objects (vm, e, o) (ground arith) h.1)

pub All-erase_state :
    (P : ℕ × ℕ → Type 0) (l : ℕ) (m : List (ℕ × ℕ)) → All P m → All P (erase_state l m)
unfolding erase_state
All-erase_state P l [] h = tt
All-erase_state P l ((k, p) ∷ m) h = elim (Bool-cases (k == l)) [
  | inl e ↦ rw e h.1
  | inr e ↦ rw e (h.0, All-erase_state P l m h.1)
]

mem-erase_state :
    (k l : ℕ) (m : List (ℕ × ℕ)) → mem k (keys m) ≡ false → mem k (keys (erase_state l m)) ≡ false
unfolding erase_state
mem-erase_state k l [] h = refl
mem-erase_state k l ((j, p) ∷ m) h = ground (arith, mem-erase_state k l m)

pub Distinct-erase_state :
    (l : ℕ) (m : List (ℕ × ℕ))
    → Distinct (keys m)
    → Distinct (keys (erase_state l m)) × (mem l (keys (erase_state l m)) ≡ false)
unfolding erase_state
Distinct-erase_state l [] d = (tt, refl)
Distinct-erase_state l ((j, p) ∷ m) d =
    ground (arith, mem-erase_state j l m, Distinct-erase_state l m)

erase_state_none : (l : ℕ) (m : List (ℕ × ℕ)) → find_state l m ≡ none → erase_state l m ≡ m
unfolding find_state erase_state
erase_state_none l [] e = refl
erase_state_none l ((k, p) ∷ m) e = ground (arith, erase_state_none l m)

find_state-erase_state :
    (k l : ℕ) (m : List (ℕ × ℕ)) → k ≢ l → find_state k (erase_state l m) ≡ find_state k m
unfolding find_state erase_state
find_state-erase_state k l [] n = refl
find_state-erase_state k l ((j, p) ∷ m) n = ground (arith, find_state-erase_state k l m)

not_found : (l : ℕ) (m : List (ℕ × ℕ)) → mem l (keys m) ≡ false → find_state l m ≡ none
unfolding find_state
not_found l [] h = refl
not_found l ((k, p) ∷ m) h = ground (arith, not_found l m)

pub found_Holds :
    (l : ℕ) (m : List (ℕ × ℕ)) (objects : Objects)
    → All (Holds objects) m
    → (q : ℕ) → find_state l m ≡ some q
    → Holds objects (l, q)
unfolding find_state
found_Holds l [] objects h q e = absurd (ground arith)
found_Holds l ((k, p) ∷ m) objects h q e = elim (Bool-cases (k == l)) [
  | inl hit ↦ let (vm, at, of) = h.0 in (vm, ground arith, ground arith)
  | inr miss ↦ found_Holds l m objects h.1 q (ground arith)
]

Holds-kept :
    (l k p : ℕ) (objects : Objects)
    → Holds objects (k, p)
    → k ≢ l
    → (found : Option ℕ) → ((q : ℕ) → found ≡ some q → Holds objects (l, q))
    → Holds (freed found objects) (k, p)
Holds-kept l k p objects h n none f = h
Holds-kept l k p objects (vm, e, o) n (some q) f =
    let (w, e', o') = f q refl in
    let away : (q == p) ≡ false = ground (arith, ap {A = ℕ} objects {x = q} {y = p}) in
    (vm, rw away e, o)

Holds-freed :
    (l : ℕ) (m : List (ℕ × ℕ)) (objects : Objects)
    → Distinct (keys m)
    → All (Holds objects) m
    → All (Holds (freed (find_state l m) objects)) (erase_state l m)
unfolding find_state erase_state
Holds-freed l [] objects d h = tt
Holds-freed l ((k, p) ∷ m) objects d h = elim (Bool-cases (k == l)) [
  | inl e ↦ rw e (Holds-free k p m objects h.0 d.0 h.1)
  | inr e ↦ rw e (
    Holds-kept l k p objects h.0 (ground arith) (find_state l m) (found_Holds l m objects h.1),
    Holds-freed l m objects d.1 h.1,
  )
]

module _ {H : Type 0} (l : ℕ) (s : Backend H) (v : IsLinked s) where
  erased :
      erase_vms l s.vms s.objects
      ≡ (addresses (erase_state l s.state_to_vm), freed (find_state l s.state_to_vm) s.objects)
  erased = rw v.paired (erase_vms-erase_state l s.state_to_vm s.objects v.distinct v.live)

  pub detach_state_parts :
      let t = detach_state l s in
      (t.vms ≡ addresses (erase_state l s.state_to_vm))
      × (t.objects ≡ freed (find_state l s.state_to_vm) s.objects)
      × (t.state_to_vm ≡ erase_state l s.state_to_vm)
      × (t.next_object ≡ s.next_object)
  unfolding detach_state
  detach_state_parts = ground (arith, erased, erase_state_none l s.state_to_vm)

  fresh_erased : All (λ (e : ℕ × ℕ). e.1 < s.next_object) (erase_state l s.state_to_vm)
  fresh_erased = All-erase_state (λ e. e.1 < s.next_object) l s.state_to_vm v.fresh

  -- Where the machines are in step, detaching a state keeps them so, removes that state's machine
  -- from the map, and leaves every other state the machine that it had.
  pub detach_state-IsLinked :
      let t = detach_state l s in
      IsLinked t × (get_vm t l ≡ none) × ((k : ℕ) → k ≢ l → get_vm t k ≡ get_vm s k)
  unfolding get_vm
  detach_state-IsLinked =
      let (vms, objects, states, next) = detach_state_parts in
      (
        record {
          paired = vms ∙ ap addresses (sym states);
          distinct = rw states (Distinct-erase_state l s.state_to_vm v.distinct).0;
          live = rw (states, objects) (Holds-freed l s.state_to_vm s.objects v.distinct v.live);
          fresh = rw (states, next) fresh_erased;
        },
        rw states (not_found l _ (Distinct-erase_state l s.state_to_vm v.distinct).1),
        λ k n. rw states (find_state-erase_state k l s.state_to_vm n),
      )
