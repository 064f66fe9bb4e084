-- ===== src/Backend/Hook/EventSound.antt =====
-- An event, once the machine and the hook are right, uses no null pointer and leaves the backend
-- sound.
use vecoda.Base.{
  Bool, true, ℕ, ltb, ◌≡◌, refl, Option, none, some, Bool-cases, inl, inr, ◌==◌, ◌&&◌, ◌||◌, not,
  length,
}
use mathlib.Core.Option
use vecoda.Protocol.{BreakReason}
use vecoda.LuaDll.{
  LuaHooks, LuaInterface, LuaDebug, get_source, hook_line, get_event, get_is_hook_event_call,
  get_current_line,
}
use vecoda.Backend.{VirtualMachine, Backend, modify}
use vecoda.Backend.Scripts.{register_script_of, get_script_index}
use vecoda.Backend.Hook.{View, script_at}
use vecoda.Backend.Stack.{fits}
use vecoda.Backend.Hook.Callback.{
  index_of_line, jit_step, stop_at_line, count_call, handle_event, stop_reason, at_breakpoint,
  keep_place, break_from_script,
}
use vecoda.Backend.Hook.Sound.{
  Ready, Readies, map-Yields, there, modify-Ready, set-Ready, send_break_event-Readies,
  register_script_of-Ready, wait_for_continue-Ready,
}
use vecoda.Backend.Hook.{is_step_over}
use vecoda.Backend.Hook.Callback.{with_vm, counts, is_last_step_line, break_from_script}
use vecoda.LuaDll.{get_is_hook_event_ret}

-- An assignment that leaves a machine its state and its flag.
abbrev Marks : VirtualMachine → VirtualMachine → Type 0
Marks vm new = (new.l ≡ vm.l) × (new.have_active_breakpoints ≡ vm.have_active_breakpoints)

jit_step-Marks :
    (vm : VirtualMachine) (depth line : ℕ) (index : Option ℕ)
    → Marks vm (jit_step vm depth line index).0
unfolding jit_step
jit_step-Marks vm depth line index =
    let on_last = is_last_step_line vm depth line index in
    elim (Bool-cases vm.lua_jit_work_around) [
      | inl e ↦
          elim (Bool-cases (
            is_step_over vm.mode
            && (ltb 0 vm.call_stack_depth
                && (ltb depth vm.call_stack_depth
                    || (depth == vm.call_stack_depth && not on_last))))) [
                      | inl e' ↦ rw (e, e') (refl, refl)
                      | inr e' ↦ rw (e, e') (refl, refl)
                    ]
      | inr e ↦ rw e (refl, refl)
    ]

count_call-Marks :
    (face : LuaInterface) (event : ℕ) (vm : VirtualMachine) → Marks vm (count_call face event vm)
unfolding count_call
count_call-Marks face event vm = elim (Bool-cases (counts vm.mode)) [
  | inl e ↦ elim (Bool-cases (get_is_hook_event_ret face event)) [
    | inl ret ↦ elim (Bool-cases (ltb 0 vm.call_count)) [
      | inl more ↦ rw (e, ret, more) (refl, refl)
      | inr less ↦ rw (e, ret, less) (refl, refl)
    ]
    | inr other ↦ elim (Bool-cases (get_is_hook_event_call face event)) [
      | inl call ↦ rw (e, other, call) (refl, refl)
      | inr neither ↦ rw (e, other, neither) (refl, refl)
    ]
  ]
  | inr e ↦ rw e (refl, refl)
]

keep_place-Marks :
    (depth line : ℕ) (index : Option ℕ) (vm : VirtualMachine)
    → Marks vm (keep_place depth line index vm)
keep_place-Marks depth line index vm = elim (Bool-cases vm.lua_jit_work_around) [
  | inl e ↦ rw e (refl, refl)
  | inr e ↦ rw e (refl, refl)
]

module _ {H : Type 0} ⦃lua : LuaHooks H⦄ (l p : ℕ) (meanwhile : Backend H → Backend H)
    (waits : (t : Backend H) → Ready l p t → Ready l p (meanwhile t)) (face : LuaInterface) where
  index_of_line-Ready :
      (ar : LuaDebug) (s : Backend H)
      → Ready l p s
      → Ready l p (index_of_line meanwhile face l ar s).0
  unfolding index_of_line
  index_of_line-Ready ar s r =
      elim (get_script_index s (get_source face ar))
        as (λ found.
          Ready l p
            (elim found as (λ _. Backend H × Option ℕ) [
              | some i ↦ (s, some i)
              | none ↦ register_script_of meanwhile face l ar s
            ]).0) [ some i ↦ r | none ↦ register_script_of-Ready l p meanwhile waits face ar s r ]

  module _ (ok : Bool) (view : View)
      (room : ok ≡ true → fits face view.native view.frames ≡ true) where
    break_from_script-Readies :
        (reason : BreakReason) (s : Backend H)
        → Ready l p s
        → Readies l p ok (break_from_script meanwhile face l view p reason s)
    unfolding break_from_script
    break_from_script-Readies reason s r =
        map-Yields ok (Ready l p) (Ready l p) _ _ (wait_for_continue-Ready l p meanwhile waits p)
          (send_break_event-Readies l p ok face view.native reason 0 view.frames s room r)

    stopped-Readies :
        (index : Option ℕ) (s : Backend H) (reason : Option BreakReason)
        → Ready l p s
        → Readies l p ok (elim reason [
          | none ↦ some s
          | some why ↦
              Option.map
                (λ u.
                  modify u p
                    (keep_place (length view.frames) (get_current_line face view.ar) index))
                (break_from_script meanwhile face l view p why s)
        ])
    stopped-Readies index s none r = inr (s, refl, r)
    stopped-Readies index s (some why) r =
        let keep = keep_place (length view.frames) (get_current_line face view.ar) index in
        let marks = keep_place-Marks (length view.frames) (get_current_line face view.ar) index in
        map-Yields ok (Ready l p) (Ready l p) _ _
          (modify-Ready l p keep (λ vm. (marks vm).0) (λ vm. (marks vm).1) p)
          (break_from_script-Readies why s r)

    stop_at_line-Readies :
        (index : Option ℕ) (vm : VirtualMachine) (s : Backend H)
        → s.objects p ≡ some vm
        → Ready l p s
        → Readies l p ok (stop_at_line meanwhile face l view p index vm s)
    unfolding stop_at_line
    stop_at_line-Readies index vm s at_p r =
        let line = get_current_line face view.ar in
        let (new, on_last) = jit_step vm (length view.frames) line index in
        let (own, flags) = jit_step-Marks vm (length view.frames) line index in
        stopped-Readies index (modify s p (λ _. new))
          (stop_reason new on_last (at_breakpoint (script_at s.scripts index) line))
          (set-Ready l p vm new s at_p own flags r)

    pub handle_event-Readies :
        (s : Backend H) → Ready l p s → Readies l p ok (handle_event meanwhile face l view p s)
    unfolding handle_event
    handle_event-Readies s r = elim (Bool-cases (get_event face view.ar == hook_line)) [
      | inl e ↦
          let found = index_of_line meanwhile face l view.ar s in
          let r' = index_of_line-Ready view.ar s r in
          let (vm, at_p, own) = there l p found.0 r' in
          rw (e, with_vm, at_p) (stop_at_line-Readies found.1 vm found.0 at_p r')
      | inr e ↦
          let marks = count_call-Marks face (get_event face view.ar) in
          rw e (
            inr (
              modify s p (count_call face (get_event face view.ar)),
              refl,
              modify-Ready l p (count_call face (get_event face view.ar)) (λ vm. (marks vm).0)
                  (λ vm. (marks vm).1) p s r,
            ))
    ]
