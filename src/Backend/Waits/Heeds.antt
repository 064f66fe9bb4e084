-- ===== src/Backend/Waits/Heeds.antt =====
-- What the front end's requests do to the events that threads of the program wait for.
use mathlib.Core.Option
use mathlib.Core.Path.{subst}
use vecoda.Base.{
  ap, sym, ◌∙◌, ◌<◌, length, set, ℕ, ◌≡◌, refl, Bool, true, false, Option, some, Text, arith,
  Bool-cases, inl, inr, ==_refl,
}
use vecoda.Script
use vecoda.Script.{Script}
use vecoda.LuaDll.{LuaHooks}
use vecoda.LuaDll.HookMode
use vecoda.Backend.{get_api_for_vm, Mode, VirtualMachine, Backend, modify, hook, get_vm, alter}
use vecoda.Backend.Breakpoints
use vecoda.Backend.Breakpoints.{
  flag, flag_and_check, after_toggle, toggled, get_have_active_breakpoints,
}
use vecoda.Backend.Vms.Detach.{found_Holds}
use vecoda.Backend.Step
use vecoda.Backend.Step.{set_step}
use vecoda.Backend.Commands.{
  Command, Request, on_command, on_request, detach, ignore_exception, on_state, has_text,
  ignore_message,
}
use vecoda.Backend.Commands.Keeps.{get_elem?-there, IsSound, Admits, IsAnswered, answered-some}
use vecoda.Backend.Waits.{Awaited, break_event, load_event, resumes, loads, wakes}
use vecoda.Backend.Waits.Ready.{Broken, alter-Stays, for_vms-Stays, IsReady, Owns, Later}

module _ {H : Type 0} ⦃lua : LuaHooks H⦄ where
  -- What a request of `s` leaves: events that were set are, and so is the one it wakes.
  abbrev Heeds : ℕ → Awaited → Request → Backend H → Option (Backend H) → Type 0
  Heeds l e r s result =
      (t : Backend H) × (result ≡ some t) × Later s t × (wakes l e r ≡ true → IsReady e t)

  stepping-Later :
      (f : VirtualMachine → VirtualMachine)
      → ((vm : VirtualMachine) → vm.break_event ≡ true → (f vm).break_event ≡ true)
      → (l p : ℕ) (s : Backend H) → IsSound s
      → get_vm s l ≡ some p
      → (t : Backend H) × (Step.stepping f (some p) s ≡ some t)
        × Later s t
        × (t.objects ≡ alter f p s.objects)
  unfolding get_vm Step.stepping
  stepping-Later f same l p s v e =
      let (vm, at_p, state) = found_Holds l s.state_to_vm s.objects v.linked.live p e in
      (
        hook (modify s p f) vm.l HookMode.HookMode.full,
        rw (at_p, Step.stepping),
        (alter-Stays f same p s.objects, λ h. h, λ h. h),
        refl,
      )

  -- The machine that a stepping command resumes has its event set.
  set_step-Broken :
      (count : ℕ) (mode : Mode) (l p : ℕ) (s : Backend H)
      → IsSound s
      → get_vm s l ≡ some p
      → Broken (alter (set_step count mode) p s.objects) p
  unfolding get_vm
  set_step-Broken count mode l p s v e =
      let (vm, at_p, state) = found_Holds l s.state_to_vm s.objects v.linked.live p e in
      (set_step count mode vm, rw (==_refl p, at_p), refl)

  woken :
      (e : Awaited) (l k q : ℕ) (s t : Backend H)
      → Owns l e s
      → get_vm s k ≡ some q
      → Broken t.objects q
      → resumes l e k ≡ true
      → IsReady e t
  unfolding resumes
  woken (break_event p) l k q s t own at_k on same =
      let k_l : k ≡ l = ground arith in
      let q_p : q ≡ p = Option.some-injective q p (sym at_k ∙ ap (get_vm s) k_l ∙ own) in
      inl (subst (Broken t.objects) q_p on)
  woken load_event l k q s t own at_k on same = absurd (ground arith)

  step-Heeds :
      (count : ℕ) (mode : Mode) (e : Awaited) (l k q : ℕ) (s : Backend H)
      → IsSound s
      → Owns l e s
      → get_vm s k ≡ some q
      → (t : Backend H) × (Step.stepping (set_step count mode) (some q) s ≡ some t)
        × Later s t
        × (resumes l e k ≡ true → IsReady e t)
  step-Heeds count mode e l k q s v own at_k =
      let (t, made, later, objects) =
        stepping-Later (set_step count mode) (λ vm h. refl) k q s v at_k in
      (
        t,
        made,
        later,
        woken e l k q s t own at_k (rw objects (set_step-Broken count mode k q s v at_k)),
      )

  continue-Heeds :
      (e : Awaited) (l k q : ℕ) (s : Backend H)
      → IsSound s
      → Owns l e s
      → get_vm s k ≡ some q
      → (t : Backend H) × (Step.continue (some q) s ≡ some t)
        × Later s t
        × (resumes l e k ≡ true → IsReady e t)
  unfolding get_vm Step.continue
  continue-Heeds e l k q s v own at_k =
      let (vm, at_q, state) = found_Holds k s.state_to_vm s.objects v.linked.live q at_k in
      let t = modify s q (set_step 0 Mode.continue) in
      (
        t,
        rw (at_q, Step.continue) refl,
        (alter-Stays (set_step 0 Mode.continue) (λ m h. refl) q s.objects, λ h. h, λ h. h),
        woken e l k q s t own at_k (set_step-Broken 0 Mode.continue k q s v at_k),
      )

  after_toggle-Later : (now : Bool) (index : ℕ) (u : Backend H) → Later u (after_toggle now index u)
  unfolding after_toggle Breakpoints.set_have_active_breakpoints
  after_toggle-Later true index u =
      (for_vms-Stays (flag_and_check true) (λ vm h. h) u.state_to_vm u.objects, λ h. h, λ h. h)
  after_toggle-Later false index u = elim (Bool-cases (get_have_active_breakpoints u)) [
    | inl e ↦ rw e (λ p h. h, λ h. h, λ h. h)
    | inr e ↦ rw e (for_vms-Stays (flag false) (λ vm h. h) u.state_to_vm u.objects, λ h. h, λ h. h)
  ]

  delete-Later : (s : Backend H) → Later s (Breakpoints.delete_all_breakpoints s)
  unfolding Breakpoints.delete_all_breakpoints Breakpoints.set_have_active_breakpoints
  delete-Later s =
      (for_vms-Stays (flag_and_check false) (λ vm h. h) s.state_to_vm s.objects, λ h. h, λ h. h)

  toggle-Later :
      (l index line : ℕ) (s : Backend H)
      → index < length s.scripts
      → (t : Backend H) × (Breakpoints.toggle_breakpoint l index line s ≡ some t) × Later s t
  unfolding Breakpoints.toggle_breakpoint toggled
  toggle-Later l index line s there =
      let (script, e) = get_elem?-there s.scripts index there in
      let new = Script.toggle_breakpoint script line in
      let u = record s { scripts = set s.scripts index new.0 } in
      (
        toggled l index line new s,
        rw (e, Breakpoints.toggle_breakpoint) refl,
        after_toggle-Later new.1 index u,
      )

quiet : (P : Type 0) → false ≡ true → P
quiet P h = absurd (ground arith)

module _ {H : Type 0} ⦃lua : LuaHooks H⦄ (answer : Command → Option (Bool × Text)) where
  on_command-Heeds :
      (e : Awaited) (l k : ℕ) (command : Command) (s : Backend H)
      → IsSound s
      → Admits s (on_state k command)
      → IsAnswered answer (on_state k command)
      → Owns l e s
      → Heeds l e (on_state k command) s (on_command answer k command s)
  unfolding on_command Step.step_into Step.step_over Step.step_out Step.break wakes loads
  on_command-Heeds e l k Command.continue s v (q, at_k) given own =
      rw at_k (continue-Heeds e l k q s v own at_k)
  on_command-Heeds e l k Command.step_over s v (q, at_k) given own =
      rw at_k (step-Heeds 0 Mode.step_over e l k q s v own at_k)
  on_command-Heeds e l k Command.step_into s v (q, at_k) given own =
      rw at_k (step-Heeds 0 Mode.step_into e l k q s v own at_k)
  on_command-Heeds e l k Command.step_out s v (q, at_k) given own =
      rw at_k (step-Heeds 1 Mode.step_out e l k q s v own at_k)
  on_command-Heeds e l k Command.break s v (q, at_k) given own =
      let (t, made, later, objects) =
        stepping-Later (λ vm. record vm { mode = Mode.step_into }) (λ vm h. h) k q s v at_k in
      rw at_k (t, made, later, quiet (IsReady e t))
  on_command-Heeds e l k Command.delete_all_breakpoints s v a given own =
      (Breakpoints.delete_all_breakpoints s, refl, delete-Later s, quiet _)
  on_command-Heeds (break_event p) l k Command.load_done s v a given own =
      (record s { load_event = true }, refl, (λ p h. h, λ h. refl, λ h. h), quiet _)
  on_command-Heeds load_event l k Command.load_done s v a given own =
      (record s { load_event = true }, refl, (λ p h. h, λ h. refl, λ h. h), λ h. inl refl)
  on_command-Heeds e l k (Command.toggle_breakpoint index line) s v a given own =
      let (t, made, later) = toggle-Later k index line s a in (t, made, later, quiet _)
  on_command-Heeds e l k (Command.evaluate request expression level) s v a (given, made) own =
      let (b, made') = answered-some (get_api_for_vm s k) _ given made in
      rw made' (_, refl, (λ p h. h, λ h. h, λ h. h), quiet _)
  on_command-Heeds e l k (Command.expand_table request scope level reference) s v a (given, made)
        own =
      let (b, made') = answered-some (get_api_for_vm s k) _ given made in
      rw made' (_, refl, (λ p h. h, λ h. h, λ h. h), quiet _)

  pub on_request-Heeds :
      (e : Awaited) (l : ℕ) (r : Request) (s : Backend H)
      → IsSound s
      → Admits s r
      → IsAnswered answer r
      → Owns l e s
      → Heeds l e r s (on_request answer r s)
  unfolding on_request ignore_message wakes
  on_request-Heeds (break_event p) l (detach running) s v a given own =
      (_, refl, (λ p h. h, λ h. h, λ h. refl), λ h. inr refl)
  on_request-Heeds load_event l (detach running) s v a given own =
      (_, refl, (λ p h. h, λ h. h, λ h. refl), λ h. inr refl)
  on_request-Heeds e l (ignore_exception t) s v a given own =
      elim (Bool-cases (has_text t s.ignore_exceptions)) [
        | inl on ↦ rw (on, ignore_message) (s, refl, (λ p h. h, λ h. h, λ h. h), quiet _)
        | inr off ↦ rw (off, ignore_message) (_, refl, (λ p h. h, λ h. h, λ h. h), quiet _)
      ]
  on_request-Heeds e l (on_state k command) s v a given own =
      on_command-Heeds e l k command s v a given own
