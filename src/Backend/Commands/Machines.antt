-- ===== src/Backend/Commands/Machines.antt =====
-- The commands that need the machines: a detach, and a step of a state that is not known.
use vecoda.Base.{
  Option, ℕ, ◌≡◌, ◌≢◌, ◌⊎◌, Option-cases, refl, Bool, true, false, List, [], ◌∷◌, none, some, ◌==◌,
  ==_iff, arith, Bool-cases, inl, inr, mem, Text, ap, ◌∙◌,
}
use mathlib.Core.Path.{subst}
use vecoda.LuaDll.{LuaHooks}
use vecoda.LuaDll.HookMode
use vecoda.Backend.{Objects, Backend, VirtualMachine, find_state, get_vm, get_is_attached}
use vecoda.Backend.Vms.{attach_state}
use vecoda.Backend.Vms.Linked.{IsLinked, addresses}
use vecoda.Backend.Vms.Detach.{found_Holds}
use vecoda.Backend.Commands.{Command, Request, unhook_all, on_request}

-- The commands that step or continue.
abbrev pub Steps : Command → Type 0
Steps Command.continue = Unit
Steps Command.step_over = Unit
Steps Command.step_into = Unit
Steps Command.step_out = Unit
Steps Command.break = Unit
Steps _ = ⊥

mem-addresses : (l p : ℕ) (m : List (ℕ × ℕ)) → find_state l m ≡ some p → mem p (addresses m) ≡ true
unfolding find_state
mem-addresses l p [] e = ground arith
mem-addresses l p ((k, q) ∷ m) e = ground (arith, mem-addresses l p m)

module _ {H : Type 0} ⦃lua : LuaHooks H⦄ where
  unhooked :
      (h : H) (l k : ℕ)
      → (l ≡ k) ⊎ (lua.gethookmask h k ≡ 0)
      → lua.gethookmask (HookMode.set_hook_mode h l HookMode.HookMode.none) k ≡ 0
  unfolding HookMode.set_hook_mode HookMode.hook_mask_of
  unhooked h l k off = elim (Bool-cases (l == k)) [
    | inl same ↦
        subst (λ j. lua.gethookmask (lua.sethook h l 0) j ≡ 0) ((==_iff l k).0 same)
          (lua.gethookmask-sethook h l 0 (omega arith))
    | inr other ↦
        let apart : l ≢ k = ground arith in
        lua.gethookmask-sethook_ne h l k 0 apart
        ∙ elim off [ inl same ↦ absurd (apart same) | inr zero ↦ zero ]
  ]

  unhook_all-stays :
      (ps : List ℕ) (objects : Objects) (h : H) (k : ℕ)
      → lua.gethookmask h k ≡ 0
      → lua.gethookmask (unhook_all ps objects h) k ≡ 0
  unfolding unhook_all
  unhook_all-stays [] objects h k off = off
  unhook_all-stays (p ∷ ps) objects h k off = elim (Option-cases (objects p)) [
    | inl e ↦ rw e (unhook_all-stays ps objects h k off)
    | inr (vm, e) ↦ rw e (unhook_all-stays ps objects _ k (unhooked h vm.l k (inr off)))
  ]

  unhook_all-mem :
      (ps : List ℕ) (objects : Objects) (h : H) (p : ℕ) (vm : VirtualMachine)
      → mem p ps ≡ true
      → objects p ≡ some vm
      → lua.gethookmask (unhook_all ps objects h) vm.l ≡ 0
  unfolding unhook_all
  unhook_all-mem [] objects h p vm m e = ground arith
  unhook_all-mem (q ∷ qs) objects h p vm m e = elim (Bool-cases (q == p)) [
    | inl same ↦
        let here : objects q ≡ some vm = ap objects ((==_iff q p).0 same) ∙ e in
        rw here (unhook_all-stays qs objects _ vm.l (unhooked h vm.l vm.l (inl refl)))
    | inr other ↦ unhook_all-mem qs objects _ p vm (ground arith) e
  ]

  module _ (answer : Command → Option (Bool × Text)) where
    -- A detach, where the machines are in step, is carried out: it takes the hook off every state
    -- that has a machine, and from then on no state is attached and none is taken for attached.
    pub on_request-detach :
        (go : Bool) (s : Backend H)
        → IsLinked s
        → (t : Backend H) × (on_request answer (Request.detach go) s ≡ some t)
          × ((k p : ℕ)
              → get_vm s k ≡ some p
              → HookMode.get_hook_mode t.hooks k ≡ HookMode.HookMode.none)
          × (get_is_attached t ≡ false)
          × ((api l : ℕ) (ok : Bool) → attach_state api l ok t ≡ (t, none))
    unfolding on_request get_is_attached get_vm HookMode.get_hook_mode attach_state
    on_request-detach go s v = (
      record s { hooks = unhook_all s.vms s.objects s.hooks; detach_event = true },
      refl,
      λ k p e.
          let (vm, at_p, own) = found_Holds k s.state_to_vm s.objects v.live p e in
          let listed : mem p s.vms ≡ true =
            ap (mem p) v.paired ∙ mem-addresses k p s.state_to_vm e in
          let off : lua.gethookmask (unhook_all s.vms s.objects s.hooks) k ≡ 0 =
            subst (λ j. lua.gethookmask (unhook_all s.vms s.objects s.hooks) j ≡ 0) own
              (unhook_all-mem s.vms s.objects s.hooks p vm listed at_p) in
          rw off,
      refl,
      λ api l ok. refl,
    )
