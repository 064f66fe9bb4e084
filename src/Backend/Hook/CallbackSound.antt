-- ===== src/Backend/Hook/CallbackSound.antt =====
-- `HookCallback` uses no null pointer, and leaves the backend sound.
use vecoda.Base.{
  ℕ, ◌++◌, leb, ◌≡◌, refl, Bool, true, false, none, some, Text, arith, sym, Bool-cases, inl, inr,
  ◌==◌, List, [], ◌∷◌, ◌&&◌, Option-cases, not, if◌then◌else◌, text_eq,
}
use vecoda.LuaDll.{LuaHooks, LuaInterface, hook_line, get_event}
use vecoda.LuaDll.HookMode
use vecoda.LuaDll.HookMode.{HookMode, is_full, mode_eq}
use vecoda.Backend.{VirtualMachine, Backend, find_state, get_vm, hook}
use vecoda.Backend.Hook.{View, is_continue}
use vecoda.Backend.Hook.Callback.{initialize, poll_name, message, adjust_hook, callback_at}
use vecoda.Backend.Hook.Sound.{
  Ready, Readies, Yields, bind-Yields, weaken-Yields, Yields-true, there, rest-Ready, modify-Ready,
}
use vecoda.Backend.Hook.UpdateSound.{have_sources, update_hook_mode-Readies}
use vecoda.Backend.Stack.{fits}
use mathlib.Core.Path.{subst}
use vecoda.Backend.Hook.Callback.{with_vm, hook_callback}
use vecoda.Backend.{get_is_attached}
use vecoda.Backend.Vms.{attach_state, attach_found, add_vm, start_debugging}
use vecoda.Backend.Runs.Parts.{attach_state-IsSound}
use vecoda.Backend.Commands.Keeps.{IsSound}
use vecoda.Backend.Breakpoints.{get_have_active_breakpoints}
use vecoda.Backend.Hook.EventSound.{handle_event-Readies}

and_left : (a b : Bool) → (a && b) ≡ true → a ≡ true
and_left a b h = ground arith

and_right : (a b : Bool) → (a && b) ≡ true → b ≡ true
and_right a b h = ground arith

-- The stacks fit the array of the unified stack, and what runs on Lua's has names.
abbrev pub is_clear : LuaInterface → View → Bool
is_clear face view = fits face view.native view.frames && have_sources face (view.ar ∷ view.frames)

clear_fits :
    (face : LuaInterface) (view : View)
    → is_clear face view ≡ true
    → fits face view.native view.frames ≡ true
clear_fits face view h = and_left _ _ h

clear_sources :
    (face : LuaInterface) (view : View)
    → is_clear face view ≡ true
    → have_sources face (view.ar ∷ view.frames) ≡ true
clear_sources face view h = and_right (fits face view.native view.frames) _ h

module _ {H : Type 0} ⦃lua : LuaHooks H⦄ (l p : ℕ) where
  message-Ready :
      (text : Text) (type : ℕ) (s : Backend H) → Ready l p s → Ready l p (message text type s)
  unfolding message
  message-Ready text type s r = rest-Ready l p s s.hooks s.load_event _ r

  initialize-Ready :
      (face : LuaInterface) (view : View) (vm : VirtualMachine) (s : Backend H)
      → Ready l p s
      → Ready l p (initialize face view p vm s)
  unfolding initialize
  initialize-Ready face view vm s r =
      elim (Bool-cases (not vm.initialized && get_event face view.ar == hook_line)) [
        | inl e ↦
            elim (Bool-cases
              (elim view.jit_version as (λ _. Bool) [ none ↦ false | some v ↦ leb 20000 v ])) [
                | inl jit ↦
                    rw (e, jit)
                      (message-Ready _ _ _ (
                        modify-Ready l p
                          (λ machine. record machine {
                            lua_jit_work_around = true;
                            initialized = true;
                          })
                          (λ m. refl) (λ m. refl) p s r))
                | inr plain ↦
                    rw (e, plain)
                      (modify-Ready l p (λ machine. record machine { initialized = true })
                        (λ m. refl) (λ m. refl) p s r)
              ]
        | inr e ↦ rw e r
      ]

  poll_name-Ready :
      (view : View) (k : ℕ) (vm : VirtualMachine) (s : Backend H)
      → Ready l p s
      → Ready l p (poll_name view k p vm s)
  unfolding poll_name
  poll_name-Ready view k vm s r =
      let name = elim view.vm_name as (λ _. Text) [ none ↦ [] | some n ↦ n ] in
      elim (Bool-cases (text_eq name vm.name)) [
        | inl e ↦ rw e r
        | inr e ↦ rw e (
            rest-Ready l p _ s.hooks s.load_event _ (
              modify-Ready l p (λ machine. record machine { name = name }) (λ m. refl) (λ m. refl) p
                s r))
      ]

module _ {H : Type 0} ⦃lua : LuaHooks H⦄ (l p : ℕ) (meanwhile : Backend H → Backend H)
    (waits : (t : Backend H) → Ready l p t → Ready l p (meanwhile t)) (face : LuaInterface) where
  adjust_hook-Readies :
      (ok : Bool) (view : View) (vm : VirtualMachine) (s : Backend H)
      → (ok ≡ true → is_clear face view ≡ true)
      → Ready l p s
      → Readies l p ok (adjust_hook meanwhile face l view p vm s)
  unfolding adjust_hook
  adjust_hook-Readies ok view vm s clear r = elim (Bool-cases (is_continue vm.mode)) [
    | inl e ↦ rw e (
        update_hook_mode-Readies l p meanwhile waits face ok view.ar view.frames s
          (λ on. clear_sources face view (clear on)) r)
    | inr e ↦
        let raised : Ready l p
            (if is_full (HookMode.get_hook_mode s.hooks l) then s else hook s l HookMode.full) =
          elim (Bool-cases (is_full (HookMode.get_hook_mode s.hooks l))) [
            | inl full ↦ rw full r
            | inr low ↦ rw low (rest-Ready l p s _ s.load_event s.sent r)
          ] in
        inr (
          _,
          rw e refl,
          modify-Ready l p (λ machine. record machine { breakpoint_in_stack = true }) (λ m. refl)
              (λ m. refl) p _ raised,
        )
  ]

  pub callback_at-Readies :
      (ok : Bool) (view : View) (s : Backend H)
      → (ok ≡ true → is_clear face view ≡ true)
      → Ready l p s
      → Readies l p ok (callback_at meanwhile face l view p s)
  unfolding callback_at
  callback_at-Readies ok view s clear r =
      let (vm, at_p, own) = there l p s r in
      let named = poll_name-Ready l p view l vm _ (initialize-Ready l p face view vm s r) in
      rw (with_vm, at_p)
        (bind-Yields ok (Ready l p) (Ready l p) _ _
          (λ t r'.
            handle_event-Readies l p meanwhile waits face ok view
              (λ on. clear_fits face view (clear on)) t r')
          (adjust_hook-Readies ok view vm _ clear named))

pub find_state-append :
    (l p : ℕ) (m : List (ℕ × ℕ)) → find_state l m ≡ none → find_state l (m ++ (l, p) ∷ []) ≡ some p
unfolding find_state
find_state-append l p [] h = ground arith
find_state-append l p ((k, q) ∷ m) h = ground (arith, find_state-append l p m)

module _ {H : Type 0} ⦃lua : LuaHooks H⦄ (l : ℕ) (meanwhile : Backend H → Backend H)
    (waits : (p : ℕ) (t : Backend H)
      → IsSound t
      → get_vm t l ≡ some p
      → IsSound (meanwhile t) × (get_vm (meanwhile t) l ≡ some p))
    (face : LuaInterface) (api : ℕ) (stack_ok : Bool) (view : View) (s : Backend H) where
  attach_new :
      find_state l s.state_to_vm ≡ none
      → get_is_attached s ≡ true
      → stack_ok ≡ true
      → ((attach_state api l stack_ok s).1 ≡ some s.next_object)
        × (find_state l (attach_state api l stack_ok s).0.state_to_vm ≡ some s.next_object)
  unfolding attach_state attach_found start_debugging add_vm
  attach_new unknown attached ok =
      rw (attached, unknown, ok) (refl, find_state-append l s.next_object s.state_to_vm unknown)

  hook_known :
      (p : ℕ)
      → view.stack_ok ≡ true
      → find_state l s.state_to_vm ≡ some p
      → hook_callback meanwhile face api l stack_ok view s ≡ callback_at meanwhile face l view p s
  unfolding hook_callback
  hook_known p room old = rw (room, old)

  hook_new :
      (p : ℕ)
      → view.stack_ok ≡ true
      → find_state l s.state_to_vm ≡ none
      → (attach_state api l stack_ok s).1 ≡ some p
      → hook_callback meanwhile face api l stack_ok view s
        ≡ callback_at meanwhile face l view p (attach_state api l stack_ok s).0
  unfolding hook_callback
  hook_new p room new e = rw (room, new, e)

  no_room : view.stack_ok ≡ false → hook_callback meanwhile face api l stack_ok view s ≡ some s
  unfolding hook_callback
  no_room full = rw full

  -- An event of a state without a machine comes while the backend is attached, with room on Lua's
  -- stack, and not as the first one while a script has a breakpoint.
  abbrev Expected : Type 0
  Expected =
      get_vm s l ≡ none
      → (get_is_attached s ≡ true)
        × (stack_ok ≡ true)
        × (s.state_to_vm ≡ [] → get_have_active_breakpoints s ≡ false)

  -- The backend is sound, and the state has its machine.
  abbrev Left : Backend H → Type 0
  Left t = IsSound t × (view.stack_ok ≡ true → (p : ℕ) × (get_vm t l ≡ some p))

  pub hook_callback-Yields :
      (ok : Bool)
      → (ok ≡ true → is_clear face view ≡ true)
      → IsSound s
      → Expected
      → Yields ok Left (hook_callback meanwhile face api l stack_ok view s)
  unfolding get_vm
  hook_callback-Yields ok clear v unknown = elim (Bool-cases view.stack_ok) [
    | inl room ↦ elim (Option-cases (find_state l s.state_to_vm)) [
      | inl new ↦
          let (attached, ready, empty) = unknown new in
          let (e, found) = attach_new new attached ready in
          subst (Yields ok Left) (sym (hook_new s.next_object room new e)) (
            weaken-Yields ok (Ready l s.next_object) Left _
              (λ t r. (r.0, λ h. (s.next_object, r.1)))
              (callback_at-Readies l s.next_object meanwhile (λ t r. waits s.next_object t r.0 r.1)
                face ok view (attach_state api l stack_ok s).0 clear
                (attach_state-IsSound api l stack_ok s v empty, found)))
      | inr (p, old) ↦ subst (Yields ok Left) (sym (hook_known p room old)) (
          weaken-Yields ok (Ready l p) Left _ (λ t r. (r.0, λ h. (p, r.1)))
            (callback_at-Readies l p meanwhile (λ t r. waits p t r.0 r.1) face ok view s clear
              (v, old)))
    ]
    | inr full ↦ inr (s, no_room full, (v, λ h. absurd (ground arith)))
  ]

  -- A debug event is handled to its end, with no null pointer on the way and no write past the array
  -- of the unified stack: the machine is found, or its state is attached, and the backend is left
  -- sound with that machine in it. The backend was sound; what other threads do while the hook waits
  -- keeps it sound and keeps the machine; a state with no machine comes while the backend is
  -- attached, with room on Lua's stack, and not as the first one while a script has a breakpoint; the
  -- native frames and the first 100 of Lua's are at most 100 together, with names shorter than 256
  -- characters; and each Lua function among the
  -- frames and that of the event has the name of a source.
  pub hook_callback-IsSound :
      is_clear face view ≡ true
      → IsSound s
      → (get_vm s l ≡ none
          → (get_is_attached s ≡ true)
            × (stack_ok ≡ true)
            × (s.state_to_vm ≡ [] → get_have_active_breakpoints s ≡ false))
      → (t : Backend H) × (hook_callback meanwhile face api l stack_ok view s ≡ some t)
        × IsSound t
        × (view.stack_ok ≡ true → (p : ℕ) × (get_vm t l ≡ some p))
  hook_callback-IsSound clear v unknown =
      let (t, e, (w, has)) =
        Yields-true true Left _ refl (hook_callback-Yields true (λ _. clear) v unknown) in
      (t, e, w, has)
