-- ===== src/Backend/Vms/Linked.antt =====
-- The vector of machines and the map from states stay in step while states are attached.
use vecoda.Base.{
  ℕ, suc, ◌<◌, ◌≡◌, refl, ◌≢◌, Bool, true, false, List, [], ◌∷◌, ◌++◌, map, Option, none, some,
  arith, Bool-cases, inl, inr, mem, Distinct, All, All-append, ap, ◌∙◌, sym,
}
use mathlib.Core.List.{map-append}
use vecoda.LuaDll.{LuaHooks}
use vecoda.Backend.{VirtualMachine, Objects, Backend, put, find_state, get_is_attached}
use vecoda.Backend.Vms.{any_active, new_vm, add_vm, start_debugging, attach_found, attach_state}

abbrev pub keys : List (ℕ × ℕ) → List ℕ
keys m = map (λ e. e.0) m

abbrev pub addresses : List (ℕ × ℕ) → List ℕ
addresses m = map (λ e. e.1) m

-- An entry points to a machine that was made for its state.
abbrev pub Holds : Objects → ℕ × ℕ → Type 0
Holds objects e = (vm : VirtualMachine) × (objects e.1 ≡ some vm) × (vm.l ≡ e.0)

pub record IsLinked {H : Type 0} (s : Backend H) : Type 0 where
  pub paired : s.vms ≡ addresses s.state_to_vm
  pub distinct : Distinct (keys s.state_to_vm)
  pub live : All (Holds s.objects) s.state_to_vm
  pub fresh : All (λ e. e.1 < s.next_object) s.state_to_vm

pub find_state-none : (l : ℕ) (m : List (ℕ × ℕ)) → find_state l m ≡ none → mem l (keys m) ≡ false
unfolding find_state
find_state-none l [] h = refl
find_state-none l ((k, p) ∷ m) h = ground (arith, find_state-none l m)

Distinct-append_end :
    (l : ℕ) (ks : List ℕ) → mem l ks ≡ false → Distinct ks → Distinct (ks ++ l ∷ [])
Distinct-append_end l [] h d = ground arith
Distinct-append_end l (k ∷ ks) h d =
    (mem_end k ks (ground arith) d.0, Distinct-append_end l ks (ground arith) d.1)
  where
    mem_end : (k : ℕ) (ks : List ℕ) → k ≢ l → mem k ks ≡ false → mem k (ks ++ l ∷ []) ≡ false
    mem_end k [] n e = ground arith
    mem_end k (j ∷ ks) n e = ground (arith, mem_end k ks)

put_fresh :
    (p : ℕ) (vm : VirtualMachine) (objects : Objects) (m : List (ℕ × ℕ))
    → All (λ e. e.1 < p) m
    → All (Holds objects) m
    → All (Holds (put objects p vm)) m
put_fresh p vm objects [] f h = tt
put_fresh p vm objects ((k, q) ∷ m) f h =
    let (v, e, o) = h.0 in ((v, ground arith, o), put_fresh p vm objects m f.1 h.1)

fresh_mono : (p : ℕ) (m : List (ℕ × ℕ)) → All (λ e. e.1 < p) m → All (λ e. e.1 < suc p) m
fresh_mono p [] f = tt
fresh_mono p (e ∷ m) f = (omega arith, fresh_mono p m f.1)

module _ {H : Type 0} where
  add_vm-IsLinked :
      (api l : ℕ) (s : Backend H)
      → find_state l s.state_to_vm ≡ none
      → IsLinked s
      → IsLinked (add_vm api l s)
  unfolding add_vm
  add_vm-IsLinked api l s new v = record {
    paired =
        ap (λ ps. ps ++ s.next_object ∷ []) v.paired
        ∙ sym (map-append (λ e. e.1) s.state_to_vm ((l, s.next_object) ∷ []));
    distinct = rw (map-append (λ (e : ℕ × ℕ). e.0) s.state_to_vm ((l, s.next_object) ∷ [])) (
        Distinct-append_end l (keys s.state_to_vm) (find_state-none l s.state_to_vm new)
          v.distinct);
    live =
        All-append _ s.state_to_vm ((l, s.next_object) ∷ [])
          (put_fresh s.next_object _ s.objects s.state_to_vm v.fresh v.live)
          ((new_vm api l (any_active s.state_to_vm s.objects), ground arith, refl), tt);
    fresh =
        All-append _ s.state_to_vm ((l, s.next_object) ∷ [])
          (fresh_mono s.next_object s.state_to_vm v.fresh) (omega arith, tt);
  }

  module _ ⦃lua : LuaHooks H⦄ (api l : ℕ) (stack_ok : Bool) (s : Backend H) (v : IsLinked s) where
    start_debugging-IsLinked :
        (ok : Bool) (p : ℕ) (t : Backend H) → IsLinked t → IsLinked (start_debugging ok l p t).0
    unfolding start_debugging
    start_debugging-IsLinked true p t w = record {
      paired = w.paired;
      distinct = w.distinct;
      live = w.live;
      fresh = w.fresh;
    }
    start_debugging-IsLinked false p t w = w

    attach_found-IsLinked :
        (found : Option ℕ)
        → find_state l s.state_to_vm ≡ found
        → IsLinked (attach_found api l stack_ok s found).0
    unfolding attach_found
    attach_found-IsLinked (some p) e = v
    attach_found-IsLinked none e =
        start_debugging-IsLinked stack_ok s.next_object (add_vm api l s)
          (add_vm-IsLinked api l s e v)

    -- Attaching a state, in every case, keeps the vector and the map of machines in step: they
    -- hold the same addresses, each state once, each address that of a live machine made for it.
    pub attach_state-IsLinked : IsLinked (attach_state api l stack_ok s).0
    unfolding attach_state
    attach_state-IsLinked = elim (Bool-cases (get_is_attached s)) [
      | inl on ↦ rw on (attach_found-IsLinked (find_state l s.state_to_vm) refl)
      | inr off ↦ rw off v
    ]
