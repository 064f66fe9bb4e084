-- ===== src/Backend/Runs/Parts.antt =====
-- What states that come and go, and scripts that are loaded, keep.
use vecoda.Base.{
  ℕ, ◌≡◌, ◌<◌, refl, Bool, true, false, List, [], ◌∷◌, ◌++◌, Option, none, some, arith, ◌==◌, All,
  All-append, Text, Bool-cases, inl, inr, sym, mem, ap, is_some, find_text,
}
use vecoda.Script
use vecoda.Script.{Script}
use vecoda.LuaDll.{LuaHooks}
use vecoda.Backend.{VirtualMachine, Objects, Backend, find_state, get_is_attached, put}
use vecoda.Backend.Vms.{
  any_active, new_vm, add_vm, start_debugging, attach_found, attach_state, erase_state,
  detach_state,
}
use vecoda.Backend.Vms.Linked.{IsLinked, Holds, keys, attach_state-IsLinked}
use vecoda.Backend.Vms.Detach.{
  freed, found_Holds, All-erase_state, Distinct-erase_state, detach_state_parts,
  detach_state-IsLinked,
}
use vecoda.Backend.Scripts.{
  register_script, add_or_alias, add_script, find_same, script_key, get_file_title, bytes_of,
  get_script_index,
}
use vecoda.Backend.Scripts.Index.{IsIndexed, register_script-Registers}
use vecoda.Backend.Breakpoints.{any_breakpoints, get_have_active_breakpoints}
use vecoda.Backend.Breakpoints.Machines.{At}
use vecoda.Backend.Breakpoints.Flags.{Says, IsFlagged}
use vecoda.Backend.Commands.Keeps.{IsSound, relinked}

abbrev Marked : Bool → Objects → List (ℕ × ℕ) → Type 0
Marked on objects m = All (λ e. At (Says on) objects e.1) m

any_active-Marked :
    (on : Bool) (objects : Objects) (m : List (ℕ × ℕ))
    → Marked on objects m
    → (m ≡ [] → on ≡ false)
    → any_active m objects ≡ on
unfolding any_active
any_active-Marked on objects [] a empty = sym (empty refl)
any_active-Marked true objects ((k, p) ∷ m) a empty = let (vm, e, says) = a.0 in rw (e, says)
any_active-Marked false objects ((k, p) ∷ m) a empty =
    let (vm, e, says) = a.0 in rw (e, says) (any_active-Marked false objects m a.1 (λ n. refl))

Marked-put :
    (on : Bool) (p : ℕ) (vm : VirtualMachine) (objects : Objects) (m : List (ℕ × ℕ))
    → All (λ e. e.1 < p) m
    → Marked on objects m
    → Marked on (put objects p vm) m
Marked-put on p vm objects [] f a = tt
Marked-put on p vm objects ((k, q) ∷ m) f a =
    let (v, e, says) = a.0 in ((v, ground arith, says), Marked-put on p vm objects m f.1 a.1)

Marked-freed :
    (on : Bool) (l : ℕ) (objects : Objects) (found : Option ℕ) (m : List (ℕ × ℕ))
    → ((q : ℕ) → found ≡ some q → Holds objects (l, q))
    → mem l (keys m) ≡ false
    → All (Holds objects) m
    → Marked on objects m
    → Marked on (freed found objects) m
Marked-freed on l objects found [] f gone h a = tt
Marked-freed on l objects none ((k, p) ∷ m) f gone h a = a
Marked-freed on l objects (some q) ((k, p) ∷ m) f gone h a =
    let (vm, e, says) = a.0 in
    let (v, e', state) = h.0 in
    let (w, at_q, own) = f q refl in
    let away : (q == p) ≡ false = ground (arith, ap {A = ℕ} objects {x = q} {y = p}) in
    ((vm, rw away e, says), Marked-freed on l objects (some q) m f (ground arith) h.1 a.1)

any_breakpoints-append :
    (ss : List Script) (s : Script)
    → Script.has_breakpoints_active s ≡ false
    → any_breakpoints (ss ++ s ∷ []) ≡ any_breakpoints ss
unfolding any_breakpoints
any_breakpoints-append [] s h = ground arith
any_breakpoints-append (x ∷ xs) s h = ground (arith, any_breakpoints-append xs s h)

module _ {H : Type 0} where
  add_vm-IsFlagged :
      (api l : ℕ) (s : Backend H)
      → IsLinked s
      → IsFlagged s
      → (s.state_to_vm ≡ [] → get_have_active_breakpoints s ≡ false)
      → IsFlagged (add_vm api l s)
  unfolding add_vm IsFlagged get_have_active_breakpoints
  add_vm-IsFlagged api l s v a empty =
      let active = any_active s.state_to_vm s.objects in
      let p = s.next_object in
      All-append _ s.state_to_vm ((l, p) ∷ [])
        (Marked-put (get_have_active_breakpoints s) p (new_vm api l active) s.objects s.state_to_vm
          v.fresh a)
        (
          (new_vm api l active, ground arith, any_active-Marked _ s.objects s.state_to_vm a empty),
          tt,
        )

  module _ ⦃lua : LuaHooks H⦄ (api l : ℕ) (stack_ok : Bool) (s : Backend H) (v : IsSound s)
      (empty : s.state_to_vm ≡ [] → get_have_active_breakpoints s ≡ false) where
    -- What is left of `t` is what `IsIndexed` and `IsFlagged` look at.
    abbrev Fine : Backend H → Type 0
    Fine t = IsIndexed t × IsFlagged t

    start-Fine : (ok : Bool) (p : ℕ) (t : Backend H) → Fine t → Fine (start_debugging ok l p t).0
    unfolding start_debugging IsFlagged get_have_active_breakpoints
    start-Fine true p t f = f
    start-Fine false p t f = f

    add_vm-IsIndexed : IsIndexed (add_vm api l s)
    unfolding add_vm
    add_vm-IsIndexed = v.indexed

    found-Fine : (found : Option ℕ) → Fine (attach_found api l stack_ok s found).0
    unfolding attach_found
    found-Fine (some p) = (v.indexed, v.flagged)
    found-Fine none =
        start-Fine stack_ok s.next_object (add_vm api l s)
          (add_vm-IsIndexed, add_vm-IsFlagged api l s v.linked v.flagged empty)

    pub attach_state-IsSound : IsSound (attach_state api l stack_ok s).0
    unfolding attach_state
    attach_state-IsSound =
        let f : Fine (attach_state api l stack_ok s).0 = elim (Bool-cases (get_is_attached s)) [
          | inl on ↦ rw (on, attach_state) (found-Fine (find_state l s.state_to_vm))
          | inr off ↦ rw (off, attach_state) (v.indexed, v.flagged)
        ] in
        record {
          linked = attach_state-IsLinked api l stack_ok s v.linked;
          indexed = f.0;
          flagged = f.1;
        }

  detach_scripts :
      (l : ℕ) (s : Backend H)
      → ((detach_state l s).scripts ≡ s.scripts)
        × ((detach_state l s).name_to_script ≡ s.name_to_script)
  unfolding detach_state
  detach_scripts l s = ground arith

  pub detach_state-IsSound : (l : ℕ) (s : Backend H) → IsSound s → IsSound (detach_state l s)
  unfolding IsFlagged get_have_active_breakpoints
  detach_state-IsSound l s v =
      let (vms, objects, states, next) = detach_state_parts l s v.linked in
      let (scripts, names) = detach_scripts l s in
      let m = erase_state l s.state_to_vm in
      record {
        linked = (detach_state-IsLinked l s v.linked).0;
        indexed = rw (scripts, names) v.indexed;
        flagged =
            rw (scripts, states, objects)
              (Marked-freed _ l s.objects (find_state l s.state_to_vm) m
                (found_Holds l s.state_to_vm s.objects v.linked.live)
                (Distinct-erase_state l s.state_to_vm v.linked.distinct).1
                (All-erase_state (Holds s.objects) l s.state_to_vm v.linked.live)
                (All-erase_state _ l s.state_to_vm v.flagged));
      }

  module _ (l : ℕ) (source name : Option Text) (missing : Bool) (s : Backend H) where
    add_or_alias_keeps_machines :
        (same : Option ℕ)
        → let t = (add_or_alias l source name missing s same).0 in
          (t.vms ≡ s.vms)
          × (t.state_to_vm ≡ s.state_to_vm)
          × (t.next_object ≡ s.next_object)
          × (t.objects ≡ s.objects)
    unfolding add_or_alias add_script
    add_or_alias_keeps_machines none = (refl, refl, refl, refl)
    add_or_alias_keeps_machines (some i) = (refl, refl, refl, refl)

    pub register_script_keeps_machines :
        let t = (register_script l source name missing s).0 in
        (t.vms ≡ s.vms)
        × (t.state_to_vm ≡ s.state_to_vm)
        × (t.next_object ≡ s.next_object)
        × (t.objects ≡ s.objects)
    unfolding register_script get_script_index
    register_script_keeps_machines =
        elim (Bool-cases (is_some (find_text (script_key source name) s.name_to_script))) [
          | inl e ↦ rw (e, register_script) (refl, refl, refl, refl)
          | inr e ↦
              rw (e, register_script)
                (add_or_alias_keeps_machines (
                  find_same (get_file_title (script_key source name)) (bytes_of source) s.scripts
                    0))
        ]

    register_script_keeps_breakpoints :
        IsSound s
        → any_breakpoints (register_script l source name missing s).0.scripts
          ≡ any_breakpoints s.scripts
    unfolding Script.has_breakpoints_active
    register_script_keeps_breakpoints v =
        elim (register_script-Registers l source name missing s v.indexed).1.3 [
          | inl (_, same, _) ↦ rw same
          | inr (_, _, longer, _) ↦ rw longer (any_breakpoints-append s.scripts _ refl)
        ]

    pub register_script-IsSound : IsSound s → IsSound (register_script l source name missing s).0
    unfolding IsFlagged get_have_active_breakpoints
    register_script-IsSound v =
        let t = (register_script l source name missing s).0 in
        let (vms, states, next, objects) = register_script_keeps_machines in
        record {
          linked = relinked s t vms states next (λ k p h. rw objects h) v.linked;
          indexed = (register_script-Registers l source name missing s v.indexed).0;
          flagged = rw (register_script_keeps_breakpoints v, states, objects) v.flagged;
        }
