-- ===== src/Backend/Hook/Sound.antt =====
-- What single steps of the hook keep: a sound backend, and the machine of the event's state.
use vecoda.Base.{
  ◌⊎◌, ◌∙◌, Option-cases, ℕ, ◌≡◌, refl, Bool, true, false, Option, none, some, Text, arith, ap, sym,
  Bool-cases, inl, inr, ◌==◌, List, [], take, drop, if◌then◌else◌, is_some,
}
use mathlib.Core.Option
use mathlib.Core.Path.{subst}
use vecoda.Protocol.{BreakReason}
use vecoda.LuaDll.{LuaHooks, LuaInterface, LuaDebug, get_source}
use vecoda.Backend.{VirtualMachine, Backend, Field, Objects, alter, modify, find_state, get_vm}
use vecoda.Backend.Vms.Detach.{found_Holds}
use vecoda.Backend.Scripts.{register_script, register_script_of, inline_source}
use vecoda.Backend.Stack.{
  StackEntry, send_break, send_break_event, max_stack_size, get_unified_stack, in_array, fits,
}
use vecoda.Backend.Stack.Event.{written, no_native}
use vecoda.Backend.Hook.Callback.{wait_for_continue}
use vecoda.Backend.Breakpoints.{get_have_active_breakpoints}
use vecoda.Backend.Breakpoints.Flags.{IsFlagged}
use vecoda.Backend.Commands.Keeps.{IsSound}
use vecoda.Backend.Commands.Sound.{reset-IsSound, modify-IsSound}
use vecoda.Backend.Runs.Parts.{register_script-IsSound, register_script_keeps_machines}

assigned :
    (p : ℕ) (vm new : VirtualMachine) (objects : Objects)
    → objects p ≡ some vm
    → new.l ≡ vm.l
    → new.have_active_breakpoints ≡ vm.have_active_breakpoints
    → (q : ℕ)
    → alter
        (λ m. record new { l = m.l; have_active_breakpoints = m.have_active_breakpoints })
        p
        objects
        q
      ≡ alter (λ _. new) p objects q
assigned p vm new objects at own flags q = elim (Bool-cases (p == q)) [
  | inl hit ↦
      let same : objects q ≡ some vm = ground (arith, ap {A = ℕ} objects {x = p} {y = q}) in
      rw (hit, same, sym own, sym flags) refl
  | inr miss ↦ rw miss refl
]

-- What comes out, if something does; and something does where `ok` says so.
abbrev pub Yields : {A : Type 0} → Bool → (A → Type 0) → Option A → Type 0
Yields {A = A} ok P o = ((ok ≡ false) × (o ≡ none)) ⊎ ((a : A) × (o ≡ some a) × P a)

pub map-Yields :
    {A B : Type 0} (ok : Bool) (P : A → Type 0) (Q : B → Type 0) (f : A → B) (o : Option A)
    → ((a : A) → P a → Q (f a))
    → Yields ok P o
    → Yields ok Q (Option.map f o)
map-Yields ok P Q f o h (inl (off, e)) = inl (off, ap (Option.map f) e)
map-Yields ok P Q f o h (inr (a, e, p)) = inr (f a, ap (Option.map f) e, h a p)

pub weaken-Yields :
    {A : Type 0} (ok : Bool) (P Q : A → Type 0) (o : Option A)
    → ((a : A) → P a → Q a)
    → Yields ok P o
    → Yields ok Q o
weaken-Yields ok P Q o h (inl off) = inl off
weaken-Yields ok P Q o h (inr (a, e, p)) = inr (a, e, h a p)

pub bind-Yields :
    {A B : Type 0} (ok : Bool) (P : A → Type 0) (Q : B → Type 0) (f : A → Option B) (o : Option A)
    → ((a : A) → P a → Yields ok Q (f a))
    → Yields ok P o
    → Yields ok Q (Option.bind o f)
unfolding Option.bind
bind-Yields ok P Q f o h (inl (off, e)) = inl (off, ap (λ x. Option.bind x f) e)
bind-Yields ok P Q f o h (inr (a, e, p)) =
    subst (λ x. Yields ok Q (Option.bind x f)) (sym e) (h a p)

pub Yields-true :
    {A : Type 0} (ok : Bool) (P : A → Type 0) (o : Option A)
    → ok ≡ true
    → Yields ok P o
    → (a : A) × (o ≡ some a) × P a
Yields-true ok P o on (inl (off, e)) = absurd (ground (arith, on, off))
Yields-true ok P o on (inr r) = r

-- What came out.
pub Yields-some :
    {A : Type 0} (ok : Bool) (P : A → Type 0) (o : Option A) (a : A)
    → o ≡ some a
    → Yields ok P o
    → P a
Yields-some ok P o a e (inl (off, n)) = absurd (Option.some-ne-none a (sym e ∙ n))
Yields-some ok P o a e (inr (b, e', p)) = subst P (Option.some-injective b a (sym e' ∙ e)) p

module _ {H : Type 0} ⦃lua : LuaHooks H⦄ (l p : ℕ) where
  -- The backend is sound, and the machine at `p` is that of the state.
  abbrev pub Ready : Backend H → Type 0
  Ready s = IsSound s × (find_state l s.state_to_vm ≡ some p)

  -- A step that can be carried out where `ok` says so, and leaves the backend so.
  abbrev pub Readies : Bool → Option (Backend H) → Type 0
  Readies ok r = Yields ok Ready r

  pub there :
      (s : Backend H) → Ready s → (vm : VirtualMachine) × (s.objects p ≡ some vm) × (vm.l ≡ l)
  there s (v, e) = found_Holds l s.state_to_vm s.objects v.linked.live p e

  pub rest-Ready :
      (s : Backend H) (h : H) (load : Bool) (sent : List Field)
      → Ready s
      → Ready (record s { hooks = h; load_event = load; sent = sent })
  unfolding IsFlagged get_have_active_breakpoints
  rest-Ready s h load sent (v, e) =
      (reset-IsSound s _ refl refl refl refl refl (λ k q h. h) v.flagged v, e)

  pub modify-Ready :
      (f : VirtualMachine → VirtualMachine)
      → ((vm : VirtualMachine) → (f vm).l ≡ vm.l)
      → ((vm : VirtualMachine) → (f vm).have_active_breakpoints ≡ vm.have_active_breakpoints)
      → (q : ℕ) (s : Backend H) → Ready s
      → Ready (modify s q f)
  modify-Ready f same flags q s (v, e) = (modify-IsSound f same flags q s v, e)

  -- An assignment to the machine.
  pub set-Ready :
      (vm new : VirtualMachine) (s : Backend H)
      → s.objects p ≡ some vm
      → new.l ≡ vm.l
      → new.have_active_breakpoints ≡ vm.have_active_breakpoints
      → Ready s
      → Ready (modify s p (λ _. new))
  set-Ready vm new s at own flags r =
      subst (λ objects. Ready (record s { objects = objects }))
        (λ i q. assigned p vm new s.objects at own flags q i)
        (modify-Ready
          (λ m. record new { l = m.l; have_active_breakpoints = m.have_active_breakpoints })
          (λ m. refl) (λ m. refl) p s r)

  in_array-Yields :
      (ok : Bool) (face : LuaInterface) (s : Backend H) (native : List StackEntry)
      (frames : List LuaDebug) (top : ℕ)
      → (ok ≡ true → fits face native frames ≡ true)
      → Yields ok
          (λ _. Unit)
          (Option.bind
            (get_unified_stack face s native (take max_stack_size (drop top frames)))
            in_array)
  in_array-Yields ok face s native frames top room = elim (Bool-cases ok) [
    | inl on ↦ let (stack, e) = written face s native frames top (room on) in inr (stack, e, tt)
    | inr off ↦
        elim (Option-cases (
          Option.bind (get_unified_stack face s native (take max_stack_size (drop top frames)))
            in_array)) [ inl e ↦ inl (off, e) | inr (stack, e) ↦ inr (stack, e, tt) ]
  ]

  send_break-Readies :
      (ok : Bool) (face : LuaInterface) (native : List StackEntry) (reason : BreakReason) (top : ℕ)
      (frames : List LuaDebug) (s : Backend H)
      → (ok ≡ true → fits face native frames ≡ true)
      → Ready s
      → (vm : Option ℕ) → Readies ok (send_break face l native vm reason top frames s)
  unfolding send_break
  send_break-Readies ok face native reason top frames s room r none =
      map-Yields ok (λ _. Unit) Ready _ _ (λ stack _. rest-Ready s s.hooks s.load_event _ r)
        (in_array-Yields ok face s [] frames 0 (λ on. no_native face native frames (room on)))
  send_break-Readies ok face native reason top frames s room r (some q) =
      map-Yields ok (λ _. Unit) Ready _ _
        (λ stack _.
          rest-Ready (modify s q (λ vm. record vm { stack_top = top })) s.hooks s.load_event _
            (modify-Ready _ (λ vm. refl) (λ vm. refl) q s r))
        (in_array-Yields ok face s native frames top room)

  pub send_break_event-Readies :
      (ok : Bool) (face : LuaInterface) (native : List StackEntry) (reason : BreakReason) (top : ℕ)
      (frames : List LuaDebug) (s : Backend H)
      → (ok ≡ true → fits face native frames ≡ true)
      → Ready s
      → Readies ok (send_break_event face l native reason top frames s)
  unfolding send_break_event
  send_break_event-Readies ok face native reason top frames s room r =
      send_break-Readies ok face native reason top frames s room r (get_vm s l)

  pub register_script-Ready :
      (k : ℕ) (source name : Option Text) (missing : Bool) (s : Backend H)
      → Ready s
      → Ready (register_script k source name missing s).0
  register_script-Ready k source name missing s (v, e) =
      let (_, states, _, _) = register_script_keeps_machines k source name missing s in
      (register_script-IsSound k source name missing s v, rw states e)

  module _ (meanwhile : Backend H → Backend H)
      (waits : (t : Backend H) → Ready t → Ready (meanwhile t)) where
    pub register_script_of-Ready :
        (face : LuaInterface) (ar : LuaDebug) (s : Backend H)
        → Ready s
        → Ready (register_script_of meanwhile face l ar s).0
    unfolding register_script_of
    register_script_of-Ready face ar s r =
        let name = get_source face ar in
        let source = inline_source name in
        let missing = if is_some source then false else true in
        let (t, new) = register_script l source name missing s in
        let w = waits t (register_script-Ready l source name missing s r) in
        elim (Bool-cases (is_some new)) [
          | inl e ↦ rw e (rest-Ready (meanwhile t) _ false _ w)
          | inr e ↦ rw e w
        ]

    pub wait_for_continue-Ready :
        (q : ℕ) (s : Backend H) → Ready s → Ready (wait_for_continue meanwhile q s)
    unfolding wait_for_continue
    wait_for_continue-Ready q s r =
        modify-Ready (λ vm. record vm { break_event = false }) (λ vm. refl) (λ vm. refl) q
          (meanwhile s) (waits s r)
