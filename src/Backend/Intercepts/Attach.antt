-- ===== src/Backend/Intercepts/Attach.antt =====
-- How a state is attached and a script is told of, where the backend is sound.
use vecoda.Base.{
  ℕ, ◌≡◌, refl, Bool, true, false, List, [], Option, some, arith, sym, ◌∙◌, ◌==◌, Bool-cases,
  Option-cases, inl, inr, Text, is_some,
}
use mathlib.Core.Option
use vecoda.Protocol
use vecoda.Protocol.{load_exception}
use vecoda.LuaDll.{LuaHooks, LuaInterface, LuaDebug}
use vecoda.Backend.{Backend, get_vm, get_is_attached, find_state, write}
use vecoda.Backend.Vms.{attach_state, attach_found, start_debugging, add_vm}
use vecoda.Backend.Stack.{StackEntry, fits}
use vecoda.Backend.Scripts.{register_script}
use vecoda.Backend.Breakpoints.{get_have_active_breakpoints}
use vecoda.Backend.Breakpoints.Flags.{IsFlagged}
use vecoda.Backend.Commands.Sound.{reset-IsSound}
use vecoda.Backend.Hook.Callback.{message, wait_for_continue}
use vecoda.Backend.Hook.CallbackSound.{find_state-append}
use vecoda.Backend.Hook.Sound.{
  Ready, Yields-true, rest-Ready, register_script-Ready, send_break_event-Readies,
  wait_for_continue-Ready,
}
use vecoda.Backend.Errors.{break_and_wait, report_load_error, post_load_script, load_error_event}
use vecoda.Backend.Commands.Keeps.{IsSound}
use vecoda.Backend.Runs.Parts.{attach_state-IsSound}

module _ {H : Type 0} ⦃lua : LuaHooks H⦄ where
  -- A script is loaded while the state has its machine.
  module _ (meanwhile : Backend H → Backend H) (l p : ℕ)
      (waits : (t : Backend H) → Ready l p t → Ready l p (meanwhile t)) (face : LuaInterface)
      (native : List StackEntry) (frames : List LuaDebug)
      (room : fits face native frames ≡ true) where
    -- What is left of a load.
    abbrev pub Loads : Option (Backend H × ℕ) → ℕ → Type 0
    Loads r result = (t : Backend H) × (r ≡ some (t, result)) × Ready l p t

    report_load_error-Readies :
        (result : ℕ) (text : Text) (s : Backend H)
        → Ready l p s
        → (t : Backend H) × (report_load_error meanwhile face l native frames result text s
            ≡ some t)
          × Ready l p t
    unfolding report_load_error break_and_wait get_vm Option.bind
    report_load_error-Readies result text s r = elim (Bool-cases (result == 0)) [
      | inl well ↦ rw (well, report_load_error) (s, refl, r)
      | inr failed ↦
          let told = rest-Ready l p s s.hooks s.load_event _ r in
          let (t, e, r') = Yields-true true (Ready l p) _ refl (
            send_break_event-Readies l p true face native load_exception 1 frames
              (write s (load_error_event l text)) (λ _. room) told) in
          (
            wait_for_continue meanwhile p t,
            rw (failed, report_load_error, break_and_wait, e, r'.1),
            wait_for_continue-Ready l p meanwhile waits p t r',
          )
    ]

    pub post_load_script-Loads :
        (result : ℕ) (text : Text) (source name : Option Text) (s : Backend H)
        → Ready l p s
        → Loads (post_load_script meanwhile face l native frames result text source name s) result
    unfolding post_load_script
    post_load_script-Loads result text source name s r = elim (Bool-cases (get_is_attached s)) [
      | inr off ↦ rw (off, post_load_script) (s, refl, r)
      | inl on ↦
          let new = register_script l source name false s in
          let (u, e, r') =
            report_load_error-Readies result text new.0
              (register_script-Ready l p l source name false s r) in
          elim (Bool-cases (is_some new.1)) [
            | inl waited ↦
                let w = waits u r' in
                (
                  record (meanwhile u) { load_event = false },
                  rw (on, post_load_script, e, waited),
                  rest-Ready l p (meanwhile u) (meanwhile u).hooks false (meanwhile u).sent w,
                )
            | inr known ↦ (u, rw (on, post_load_script, e, known), r')
          ]
    ]

  -- The state has a machine.
  abbrev pub Has : ℕ → Backend H → Type 0
  Has l t = (p : ℕ) × (get_vm t l ≡ some p)

  -- A sound backend in which no script has a breakpoint, if no state is attached.
  abbrev pub Good : Backend H → Type 0
  Good s = IsSound s × (s.state_to_vm ≡ [] → get_have_active_breakpoints s ≡ false)

  -- What is left of the attachment of a state.
  abbrev pub Settled : ℕ → Backend H → Type 0
  Settled l t = IsSound t × (get_is_attached t ≡ true → Has l t)

  module _ (api l : ℕ) (stack_ok : Bool) (s : Backend H) where
    pub attached_Has : get_is_attached s ≡ true → Has l (attach_state api l stack_ok s).0
    unfolding attach_state attach_found start_debugging add_vm get_vm
    attached_Has on = elim (Option-cases (find_state l s.state_to_vm)) [
      | inr (p, e) ↦ (p, rw (on, attach_state, e) e)
      | inl new ↦
          let found = find_state-append l s.next_object s.state_to_vm new in
          elim (Bool-cases stack_ok) [
            | inl ok ↦ (s.next_object, rw (on, attach_state, new, ok) found)
            | inr full ↦ (s.next_object, rw (on, attach_state, new, full) found)
          ]
    ]

    pub attach_state_attached :
        get_is_attached (attach_state api l stack_ok s).0 ≡ get_is_attached s
    unfolding attach_state attach_found start_debugging add_vm get_is_attached
    attach_state_attached = ground arith

    pub attach_state-Settled : Good s → Settled l (attach_state api l stack_ok s).0
    attach_state-Settled (v, empty) = (
      attach_state-IsSound api l stack_ok s v empty,
      λ on. attached_Has (sym attach_state_attached ∙ on),
    )

  pub message-Settled :
      (l : ℕ) (text : Text) (s : Backend H)
      → Settled l s
      → Settled l (message text Protocol.message_warning s)
  unfolding message get_is_attached get_vm IsFlagged get_have_active_breakpoints
  message-Settled l text s (v, has) =
      (reset-IsSound s _ refl refl refl refl refl (λ k q h. h) v.flagged v, has)

  module _ (meanwhile : Backend H → Backend H)
      (waits : (l p : ℕ) (t : Backend H) → Ready l p t → Ready l p (meanwhile t))
      (face : LuaInterface) (native : List StackEntry) (frames : List LuaDebug)
      (room : fits face native frames ≡ true) where
    pub post_load_script-Settled :
        (l result : ℕ) (text : Text) (source name : Option Text) (s : Backend H)
        → Settled l s
        → let r = post_load_script meanwhile face l native frames result text source name s in
          (t : Backend H) × (r ≡ some (t, result))
          × IsSound t
          × (get_is_attached s ≡ true → Has l t)
    unfolding post_load_script get_vm
    post_load_script-Settled l result text source name s (v, has) =
        elim (Bool-cases (get_is_attached s)) [
          | inr off ↦ (s, rw (off, post_load_script) refl, v, has)
          | inl on ↦
              let (p, e) = has on in
              let (t, e', r) =
                post_load_script-Loads meanwhile l p (waits l p) face native frames room result text
                  source name s (v, e) in
              (t, e', r.0, λ _. (p, r.1))
        ]
