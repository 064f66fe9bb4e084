-- ===== src/Backend/Hook/UpdateSound.antt =====
-- `UpdateHookMode` uses no null pointer, and leaves the backend sound.
use vecoda.Base.{
  ℕ, ◌≡◌, refl, Bool, true, false, Option, none, some, Bool-cases, Option-cases, inl, inr, ◌==◌,
  List, [], ◌∷◌, ◌&&◌, ◌||◌, not, if◌then◌else◌, Text, is_some, arith,
}
use vecoda.LuaDll.{
  LuaHooks, LuaInterface, LuaDebug, get_source, hook_line, get_event, get_line_defined,
  get_is_hook_event_call, minus_one,
}
use vecoda.LuaDll.HookMode
use vecoda.LuaDll.HookMode.{HookMode, is_full, mode_eq}
use vecoda.Backend.{Backend, get_vm, hook}
use vecoda.Backend.Scripts.{register_script_of, get_script_index}
use vecoda.Backend.Hook.{
  index_of_function, visit_function, scan_stack, stack_has_breakpoint, check_function, check_stack,
  wanted_mode, apply_mode, update_hook_mode, is_continue,
}
use vecoda.Backend.Hook.Sound.{
  Ready, Readies, Yields, map-Yields, bind-Yields, there, rest-Ready, modify-Ready,
  register_script_of-Ready,
}

-- The function of a frame has a name, or is a C function.
abbrev pub has_source : LuaInterface → LuaDebug → Bool
has_source face ar = get_line_defined face ar == minus_one || is_some (get_source face ar)

abbrev pub have_sources : LuaInterface → List LuaDebug → Bool
have_sources face [] = true
have_sources face (ar ∷ ars) = has_source face ar && have_sources face ars

module _ {H : Type 0} ⦃lua : LuaHooks H⦄ (l p : ℕ) (meanwhile : Backend H → Backend H)
    (waits : (t : Backend H) → Ready l p t → Ready l p (meanwhile t)) (face : LuaInterface) where
  index_of_function-Ready :
      (name : Text) (ar : LuaDebug) (s : Backend H)
      → Ready l p s
      → Ready l p (index_of_function meanwhile face l name ar s).0
  unfolding index_of_function
  index_of_function-Ready name ar s r =
      elim (get_script_index s (some name))
        as (λ found.
          Ready l p
            (elim found as (λ _. Backend H × Option ℕ) [
              | some i ↦ (s, some i)
              | none ↦ (
                (register_script_of meanwhile face l ar s).0,
                get_script_index (register_script_of meanwhile face l ar s).0 (some name),
              )
            ]).0) [ some i ↦ r | none ↦ register_script_of-Ready l p meanwhile waits face ar s r ]

  -- With a flag beside the state.
  abbrev Pairs : {A : Type 0} → Bool → Option (Backend H × A) → Type 0
  Pairs ok o = Yields ok (λ a. Ready l p a.0) o

  visit_function-Pairs :
      (ok : Bool) (ar : LuaDebug) (s : Backend H)
      → (ok ≡ true → has_source face ar ≡ true)
      → (get_line_defined face ar == minus_one) ≡ false
      → Ready l p s
      → Pairs ok (visit_function meanwhile face l p ar s)
  unfolding visit_function
  visit_function-Pairs ok ar s named lua r = elim (Option-cases (get_source face ar)) [
    | inl e ↦ inl (ground (arith, named), rw e refl)
    | inr (name, e) ↦ rw e (
        inr (
          _,
          refl,
          index_of_function-Ready name ar _ (
              modify-Ready l p (λ vm. record vm { last_functions = name }) (λ vm. refl) (λ vm. refl)
                p s r),
        ))
  ]

  scan_stack-Pairs :
      (ok : Bool) (frames : List LuaDebug) (s : Backend H)
      → (ok ≡ true → have_sources face frames ≡ true)
      → Ready l p s
      → Pairs ok (scan_stack meanwhile face l (some p) frames s)
  unfolding scan_stack
  scan_stack-Pairs ok [] s named r = inr (_, refl, r)
  scan_stack-Pairs ok (ar ∷ frames) s named r =
      let rest : ok ≡ true → have_sources face frames ≡ true = λ on. ground (arith, named on) in
      elim (Bool-cases (get_line_defined face ar == minus_one)) [
        | inl e ↦ rw e (scan_stack-Pairs ok frames s rest r)
        | inr e ↦ rw e (
            bind-Yields ok (λ a. Ready l p a.0) (λ a. Ready l p a.0) _
              (visit_function meanwhile face l p ar s)
              (λ seen r'. elim (Bool-cases seen.1) [
                | inl hit ↦ rw hit (inr (_, refl, r'))
                | inr miss ↦ rw miss (scan_stack-Pairs ok frames seen.0 rest r')
              ])
              (visit_function-Pairs ok ar s (λ on. ground (arith, named on)) e r))
      ]

  check_function-Pairs :
      (ok : Bool) (ar : LuaDebug) (s : Backend H)
      → (ok ≡ true → has_source face ar ≡ true)
      → Ready l p s
      → Pairs ok (check_function meanwhile face l p ar s)
  unfolding check_function
  check_function-Pairs ok ar s named r =
      elim (Bool-cases (
        get_is_hook_event_call face (get_event face ar)
        && not (get_line_defined face ar == minus_one))) [
          | inl e ↦ rw e (
              map-Yields ok (λ a. Ready l p a.0) (λ a. Ready l p a.0) _
                (visit_function meanwhile face l p ar s)
                (λ seen r'. elim (Bool-cases seen.1) [
                  | inl hit ↦ rw hit (
                      modify-Ready l p (λ vm. record vm { breakpoint_in_stack = true }) (λ vm. refl)
                        (λ vm. refl) p seen.0 r')
                  | inr miss ↦ rw miss r'
                ])
                (visit_function-Pairs ok ar s named (ground (arith, e)) r))
          | inr e ↦ rw e (inr (_, refl, r))
        ]

  check_stack-Pairs :
      (ok : Bool) (frames : List LuaDebug) (s : Backend H) (mode : HookMode)
      → (ok ≡ true → have_sources face frames ≡ true)
      → Ready l p s
      → Pairs ok (check_stack meanwhile face l p frames (s, mode))
  unfolding check_stack stack_has_breakpoint get_vm
  check_stack-Pairs ok frames s mode named r =
      let (vm, at_p, own) = there l p s r in
      elim (Bool-cases (not (is_full mode) && vm.breakpoint_in_stack)) [
        | inl e ↦
            rw (at_p, e, r.1)
              (map-Yields ok (λ a. Ready l p a.0) (λ a. Ready l p a.0) _
                (scan_stack meanwhile face l (some p) frames s)
                (λ seen r'. elim (Bool-cases seen.1) [
                  | inl hit ↦ rw hit r'
                  | inr miss ↦ rw miss (
                      modify-Ready l p (λ vm. record vm { breakpoint_in_stack = false })
                        (λ vm. refl) (λ vm. refl) p seen.0 r')
                ])
                (scan_stack-Pairs ok frames s named r))
        | inr e ↦ rw (at_p, e) (inr (_, refl, r))
      ]

  apply_mode-Readies :
      (ok : Bool) (s : Backend H) (mode : HookMode)
      → Ready l p s
      → Readies l p ok (apply_mode l p (s, mode))
  unfolding apply_mode
  apply_mode-Readies ok s mode r =
      let (vm, at_p, own) = there l p s r in
      elim (Bool-cases (mode_eq (HookMode.get_hook_mode s.hooks l) (wanted_mode vm mode))) [
        | inl e ↦ inr (s, rw (at_p, e) refl, r)
        | inr e ↦ inr (
          hook s l (if is_continue vm.mode then wanted_mode vm mode else HookMode.full),
          rw (at_p, e) refl,
          rest-Ready l p s _ s.load_event s.sent r,
        )
      ]

  pub update_hook_mode-Readies :
      (ok : Bool) (ar : LuaDebug) (frames : List LuaDebug) (s : Backend H)
      → (ok ≡ true → have_sources face (ar ∷ frames) ≡ true)
      → Ready l p s
      → Readies l p ok (update_hook_mode meanwhile face l ar frames s)
  unfolding update_hook_mode get_vm
  update_hook_mode-Readies ok ar frames s named r =
      elim (Bool-cases (get_event face ar == hook_line)) [
        | inl e ↦ inr (s, rw e refl, r)
        | inr e ↦
            rw (e, r.1)
              (bind-Yields ok (λ a. Ready l p a.0) (Ready l p) _
                (check_function meanwhile face l p ar s)
                (λ c r'.
                  bind-Yields ok (λ a. Ready l p a.0) (Ready l p) _
                    (check_stack meanwhile face l p frames c)
                    (λ d r''. apply_mode-Readies ok d.0 d.1 r'')
                    (check_stack-Pairs ok frames c.0 c.1 (λ on. ground (arith, named on)) r'))
                (check_function-Pairs ok ar s (λ on. ground (arith, named on)) r))
      ]
