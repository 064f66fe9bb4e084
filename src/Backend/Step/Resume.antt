-- ===== src/Backend/Step/Resume.antt =====
-- What each stepping command leaves behind.
use vecoda.Base.{ℕ, ◌≡◌, refl, ◌≢◌, true, false, Option, some, arith, ◌==◌, ==_refl}
use vecoda.LuaDll.{LuaHooks}
use vecoda.LuaDll.HookMode
use vecoda.Backend.{Mode, VirtualMachine, Backend, modify, hook, alter}
use vecoda.Backend.Step
use vecoda.Backend.Step.{set_step}

pub data Command : Type 0 where
  continue step_over step_into step_out : Command

abbrev mode_of : Command → Mode
mode_of continue = Mode.continue
mode_of step_over = Mode.step_over
mode_of step_into = Mode.step_into
mode_of step_out = Mode.step_out

-- A step out begins one call deep, so that the return of the function that is left brings 0.
abbrev count_of : Command → ℕ
count_of step_out = 1
count_of _ = 0

module _ {H : Type 0} ⦃lua : LuaHooks H⦄ where
  abbrev pub resume : Command → Option ℕ → Backend H → Option (Backend H)
  resume continue = Step.continue
  resume step_over = Step.step_over
  resume step_into = Step.step_into
  resume step_out = Step.step_out

  -- The mode that Lua's hook has afterwards.
  abbrev hook_after : Command → ℕ → Backend H → HookMode.HookMode
  hook_after continue l s = HookMode.get_hook_mode s.hooks l
  hook_after _ l s = HookMode.HookMode.full

  -- What a resumed machine looks like.
  abbrev pub Resumed : Command → ℕ → VirtualMachine → Backend H → Backend H → Type 0
  Resumed c p vm s t =
      (t.objects p
        ≡ some (record vm { call_count = count_of c; mode = mode_of c; break_event = true }))
      × (HookMode.get_hook_mode t.hooks vm.l ≡ hook_after c vm.l s)
      × ((q : ℕ) → p ≢ q → t.objects q ≡ s.objects q)
      × (t.scripts ≡ s.scripts)
      × (t.state_to_vm ≡ s.state_to_vm)
      × (t.sent ≡ s.sent)

  stepping-some :
      (f : VirtualMachine → VirtualMachine) (p : ℕ) (vm : VirtualMachine) (s : Backend H)
      → s.objects p ≡ some vm
      → Step.stepping f (some p) s ≡ some (hook (modify s p f) vm.l HookMode.HookMode.full)
  unfolding Step.stepping
  stepping-some f p vm s e = rw (e, Step.stepping)

  altered :
      (f : VirtualMachine → VirtualMachine) (p : ℕ) (vm : VirtualMachine) (s : Backend H)
      → s.objects p ≡ some vm
      → alter f p s.objects p ≡ some (f vm)
  altered f p vm s e = rw (==_refl p, e)

  others :
      (f : VirtualMachine → VirtualMachine) (p : ℕ) (s : Backend H) (q : ℕ)
      → p ≢ q
      → alter f p s.objects q ≡ s.objects q
  others f p s q n = let miss : (p == q) ≡ false = ground arith in rw miss

  hooked :
      (l : ℕ) (s : Backend H)
      → HookMode.get_hook_mode (HookMode.set_hook_mode s.hooks l HookMode.HookMode.full) l
        ≡ HookMode.HookMode.full
  hooked l s = HookMode.get_hook_mode-set_hook_mode s.hooks l HookMode.HookMode.full

  -- Continue and the three steps, given a machine that is there, set its mode and its call count,
  -- signal its break event, raise its hook to the full mode (Continue leaves the hook), and touch
  -- no other machine, no script, no map and no channel.
  pub resume-Resumed :
      (c : Command) (p : ℕ) (vm : VirtualMachine) (s : Backend H)
      → s.objects p ≡ some vm
      → (t : Backend H) × (resume c (some p) s ≡ some t) × Resumed c p vm s t
  unfolding Step.continue Step.step_over Step.step_into Step.step_out
  resume-Resumed continue p vm s e = (
    modify s p (set_step 0 Mode.continue),
    rw (e, Step.continue),
    (altered _ p vm s e, refl, others _ p s, refl, refl, refl),
  )
  resume-Resumed step_over p vm s e = (
    hook (modify s p (set_step 0 Mode.step_over)) vm.l HookMode.HookMode.full,
    stepping-some _ p vm s e,
    (altered _ p vm s e, hooked vm.l s, others _ p s, refl, refl, refl),
  )
  resume-Resumed step_into p vm s e = (
    hook (modify s p (set_step 0 Mode.step_into)) vm.l HookMode.HookMode.full,
    stepping-some _ p vm s e,
    (altered _ p vm s e, hooked vm.l s, others _ p s, refl, refl, refl),
  )
  resume-Resumed step_out p vm s e = (
    hook (modify s p (set_step 1 Mode.step_out)) vm.l HookMode.HookMode.full,
    stepping-some _ p vm s e,
    (altered _ p vm s e, hooked vm.l s, others _ p s, refl, refl, refl),
  )
