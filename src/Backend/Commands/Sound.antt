-- ===== src/Backend/Commands/Sound.antt =====
-- What the commands of the front end keep, and that they are carried out.
use vecoda.Base.{
  ℕ, ◌≡◌, ◌<◌, refl, Bool, true, false, List, Option, some, Text, get_elem?, length, length-set,
  length-map, Bool-cases, inl, inr, set, ap, ◌∙◌,
}
use vecoda.Script
use vecoda.Script.{Script}
use vecoda.LuaDll.{LuaHooks}
use vecoda.LuaDll.HookMode
use vecoda.Backend.{
  Mode, VirtualMachine, Backend, Field, write, modify, hook, get_vm, get_api_for_vm,
}
use vecoda.Backend.Breakpoints
use vecoda.Backend.Breakpoints.{
  flag, flag_and_check, after_toggle, toggled, get_have_active_breakpoints,
}
use mathlib.Core.Option
use vecoda.Backend.Vms.Detach.{found_Holds}
use vecoda.Backend.Breakpoints.Machines.{At-alter-All}
use vecoda.Backend.Breakpoints.Flags.{
  Says, IsFlagged, toggled-IsFlagged, scripts-after_toggle, delete_all_breakpoints-IsFlagged,
}
use vecoda.Backend.Step
use vecoda.Backend.Step.{set_step}
use vecoda.Backend.Commands.{
  Command, Request, on_command, on_request, detach, ignore_exception, on_state, has_text,
  ignore_message,
}
use vecoda.Backend.Commands.Keeps.{
  get_elem?-there, Keeps, relinked, alter-Keeps, for_vms-Keeps, IsSound, Admits, IsAnswered,
  answered-some,
}

module _ {H : Type 0} ⦃lua : LuaHooks H⦄ where
  -- A state that a request makes of `s`: it is sound, and has the same machines and as many scripts.
  abbrev pub Follows : Backend H → Option (Backend H) → Type 0
  Follows s r =
      (t : Backend H) × (r ≡ some t)
      × IsSound t
      × (t.state_to_vm ≡ s.state_to_vm)
      × (length t.scripts ≡ length s.scripts)

  pub modify-IsSound :
      (f : VirtualMachine → VirtualMachine)
      → ((vm : VirtualMachine) → (f vm).l ≡ vm.l)
      → ((vm : VirtualMachine) → (f vm).have_active_breakpoints ≡ vm.have_active_breakpoints)
      → (p : ℕ) (s : Backend H) → IsSound s
      → IsSound (modify s p f)
  unfolding IsFlagged get_have_active_breakpoints
  modify-IsSound f same flags p s v = record {
    linked = relinked s (modify s p f) refl refl refl (alter-Keeps f same p s.objects) v.linked;
    indexed = v.indexed;
    flagged =
        At-alter-All (Says (get_have_active_breakpoints s)) f (Says (get_have_active_breakpoints s))
          (λ vm e. flags vm ∙ e) s.objects p s.state_to_vm v.flagged;
  }

  stepping-Follows :
      (f : VirtualMachine → VirtualMachine)
      → ((vm : VirtualMachine) → (f vm).l ≡ vm.l)
      → ((vm : VirtualMachine) → (f vm).have_active_breakpoints ≡ vm.have_active_breakpoints)
      → (l p : ℕ) (s : Backend H) → IsSound s
      → get_vm s l ≡ some p
      → Follows s (Step.stepping f (some p) s)
  unfolding get_vm IsFlagged get_have_active_breakpoints Step.stepping
  stepping-Follows f same flags l p s v e =
      let (vm, at_p, state) = found_Holds l s.state_to_vm s.objects v.linked.live p e in
      let w = modify-IsSound f same flags p s v in
      (
        hook (modify s p f) vm.l HookMode.HookMode.full,
        rw (at_p, Step.stepping),
        record {
          linked = relinked (modify s p f) _ refl refl refl (λ k q h. h) w.linked;
          indexed = w.indexed;
          flagged = w.flagged;
        },
        refl,
        refl,
      )

  -- The states after a change of the scripts, the flags and the channel.
  pub reset-IsSound :
      (s t : Backend H)
      → t.vms ≡ s.vms
      → t.state_to_vm ≡ s.state_to_vm
      → t.next_object ≡ s.next_object
      → t.name_to_script ≡ s.name_to_script
      → length t.scripts ≡ length s.scripts
      → Keeps s.objects t.objects
      → IsFlagged t
      → IsSound s
      → IsSound t
  reset-IsSound s t vms states next names many keeps flags v = record {
    linked = relinked s t vms states next keeps v.linked;
    indexed = rw (names, many) v.indexed;
    flagged = flags;
  }

  reset-Follows :
      (s t : Backend H)
      → t.vms ≡ s.vms
      → t.state_to_vm ≡ s.state_to_vm
      → t.next_object ≡ s.next_object
      → t.name_to_script ≡ s.name_to_script
      → length t.scripts ≡ length s.scripts
      → Keeps s.objects t.objects
      → IsFlagged t
      → IsSound s
      → Follows s (some t)
  reset-Follows s t vms states next names many keeps flags v =
      (t, refl, reset-IsSound s t vms states next names many keeps flags v, states, many)

  pub delete_all_breakpoints-IsSound :
      (s : Backend H) → IsSound s → IsSound (Breakpoints.delete_all_breakpoints s)
  unfolding Breakpoints.delete_all_breakpoints Breakpoints.set_have_active_breakpoints
  delete_all_breakpoints-IsSound s v =
      reset-IsSound s (Breakpoints.delete_all_breakpoints s) refl refl refl refl
        (length-map Script.clear_breakpoints s.scripts)
        (for_vms-Keeps (flag_and_check false) (λ vm. refl) s.state_to_vm s.objects)
        (delete_all_breakpoints-IsFlagged s v.linked).1 v

  delete-Follows :
      (s : Backend H) → IsSound s → Follows s (some (Breakpoints.delete_all_breakpoints s))
  unfolding Breakpoints.delete_all_breakpoints Breakpoints.set_have_active_breakpoints
  delete-Follows s v =
      let t = Breakpoints.delete_all_breakpoints s in
      (
        t,
        refl,
        delete_all_breakpoints-IsSound s v,
        refl,
        length-map Script.clear_breakpoints s.scripts,
      )

  after_toggle-Keeps :
      (now : Bool) (index : ℕ) (u : Backend H)
      → let t = after_toggle now index u in
        (t.vms ≡ u.vms)
        × (t.state_to_vm ≡ u.state_to_vm)
        × (t.next_object ≡ u.next_object)
        × (t.name_to_script ≡ u.name_to_script)
        × Keeps u.objects t.objects
  unfolding after_toggle Breakpoints.set_have_active_breakpoints
  after_toggle-Keeps true index u = (
    refl,
    refl,
    refl,
    refl,
    for_vms-Keeps (flag_and_check true) (λ vm. refl) u.state_to_vm u.objects,
  )
  after_toggle-Keeps false index u = elim (Bool-cases (get_have_active_breakpoints u)) [
    | inl e ↦ rw e (refl, refl, refl, refl, λ k p h. h)
    | inr e ↦
        rw e
          (refl, refl, refl, refl, for_vms-Keeps (flag false) (λ vm. refl) u.state_to_vm u.objects)
  ]

  toggled-Follows :
      (l index line : ℕ) (s : Backend H) (script : Script)
      → IsSound s
      → get_elem? s.scripts index ≡ some script
      → Follows s (some (toggled l index line (Script.toggle_breakpoint script line) s))
  unfolding toggled
  toggled-Follows l index line s script v e =
      let new = Script.toggle_breakpoint script line in
      let u = record s { scripts = set s.scripts index new.0 } in
      let (vms, states, next, names, keeps) = after_toggle-Keeps new.1 index u in
      reset-Follows s (toggled l index line new s) vms states next names
        (ap length (scripts-after_toggle new.1 index u) ∙ length-set s.scripts index new.0) keeps
        (toggled-IsFlagged l index line s script v.linked v.flagged e) v

  toggle-Follows :
      (l index line : ℕ) (s : Backend H)
      → index < length s.scripts
      → IsSound s
      → Follows s (Breakpoints.toggle_breakpoint l index line s)
  unfolding Breakpoints.toggle_breakpoint
  toggle-Follows l index line s there v =
      let (script, e) = get_elem?-there s.scripts index there in
      rw (e, Breakpoints.toggle_breakpoint) (toggled-Follows l index line s script v e)

  continue-Follows :
      (l p : ℕ) (s : Backend H)
      → IsSound s
      → get_vm s l ≡ some p
      → Follows s (Step.continue (some p) s)
  unfolding get_vm Step.continue
  continue-Follows l p s v e =
      let (vm, at_p, state) = found_Holds l s.state_to_vm s.objects v.linked.live p e in
      let w = modify-IsSound (set_step 0 Mode.continue) (λ m. refl) (λ m. refl) p s v in
      (modify s p (set_step 0 Mode.continue), rw (at_p, Step.continue), w, refl, refl)

module _ {H : Type 0} ⦃lua : LuaHooks H⦄ (answer : Command → Option (Bool × Text)) where
  -- What is written of an answer.
  pub answered-Follows :
      (s : Backend H) (f : Bool × Text → List Field) (o : Option (Bool × Text)) (a : Bool × Text)
      → IsSound s
      → o ≡ some a
      → Follows s (Option.map (λ x. write s (f x)) o)
  unfolding IsFlagged get_have_active_breakpoints
  answered-Follows s f o a v e =
      rw e (reset-Follows s (write s (f a)) refl refl refl refl refl (λ k p h. h) v.flagged v)

  on_command-Follows :
      (l : ℕ) (command : Command) (s : Backend H)
      → IsSound s
      → Admits s (on_state l command)
      → IsAnswered answer (on_state l command)
      → Follows s (on_command answer l command s)
  unfolding IsFlagged get_have_active_breakpoints on_command Step.step_into Step.step_over
      Step.step_out Step.break
  on_command-Follows l Command.continue s v (p, e) given = rw e (continue-Follows l p s v e)
  on_command-Follows l Command.step_over s v (p, e) given =
      rw e (stepping-Follows _ (λ vm. refl) (λ vm. refl) l p s v e)
  on_command-Follows l Command.step_into s v (p, e) given =
      rw e (stepping-Follows _ (λ vm. refl) (λ vm. refl) l p s v e)
  on_command-Follows l Command.step_out s v (p, e) given =
      rw e (stepping-Follows _ (λ vm. refl) (λ vm. refl) l p s v e)
  on_command-Follows l Command.break s v (p, e) given =
      rw e (stepping-Follows _ (λ vm. refl) (λ vm. refl) l p s v e)
  on_command-Follows l Command.delete_all_breakpoints s v a given = delete-Follows s v
  on_command-Follows l Command.load_done s v a given =
      reset-Follows s _ refl refl refl refl refl (λ k p h. h) v.flagged v
  on_command-Follows l (Command.toggle_breakpoint index line) s v a given =
      toggle-Follows l index line s a v
  on_command-Follows l (Command.evaluate request expression level) s v a (given, e) =
      let (b, made) = answered-some (get_api_for_vm s l) _ given e in
      answered-Follows s _ _ b v made
  on_command-Follows l (Command.expand_table request scope level reference) s v a (given, e) =
      let (b, made) = answered-some (get_api_for_vm s l) _ given e in
      answered-Follows s _ _ b v made

  pub on_request-Follows :
      (r : Request) (s : Backend H)
      → IsSound s
      → Admits s r
      → IsAnswered answer r
      → Follows s (on_request answer r s)
  unfolding on_request IsFlagged get_have_active_breakpoints ignore_message
  on_request-Follows (detach continue_running) s v a given =
      reset-Follows s _ refl refl refl refl refl (λ k p h. h) v.flagged v
  on_request-Follows (ignore_exception t) s v a given =
      elim (Bool-cases (has_text t s.ignore_exceptions)) [
        | inl e ↦
            rw (e, ignore_message)
              (reset-Follows s s refl refl refl refl refl (λ k p h. h) v.flagged v)
        | inr e ↦
            rw (e, ignore_message)
              (reset-Follows s _ refl refl refl refl refl (λ k p h. h) v.flagged v)
      ]
  on_request-Follows (on_state l command) s v a given = on_command-Follows l command s v a given
