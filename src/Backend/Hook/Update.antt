-- ===== src/Backend/Hook/Update.antt =====
-- Which hook `UpdateHookMode` leaves a machine that runs on with.
use vecoda.Base.{
  ℕ, ◌+◌, ◌≤◌, ◌<◌, ◌≡◌, refl, ◌↔◌, inl, inr, true, some, arith, Bool-cases, ◌^◌, sym, ◌∙◌,
}
use vecoda.Script
use vecoda.Script.{Script}
use vecoda.Script.Range.{has_break_point_in_range_iff}
use vecoda.LuaDll.{LuaHooks}
use vecoda.LuaDll.HookMode
use vecoda.LuaDll.HookMode.{HookMode, mode_eq, get_hook_mode-set_hook_mode}
use vecoda.Backend
use vecoda.Backend.{Backend, VirtualMachine, hook}
use vecoda.Backend.Stack.{pred32}
use vecoda.Backend.Hook.{function_has_breakpoint, wanted_mode, apply_mode}

mode_eq-eq : (a b : HookMode) → mode_eq a b ≡ true → a ≡ b
mode_eq-eq a b h = ground arith

module _ {H : Type 0} ⦃lua : LuaHooks H⦄ where
  -- While a machine runs on, the last part of the update leaves its state exactly the mode that is
  -- wanted: that which was found, if some script has a breakpoint as far as the machine knows, and
  -- calls and returns otherwise. It succeeds, and changes nothing but the hook.
  pub apply_mode-wanted_mode :
      (l p : ℕ) (s : Backend H) (mode : HookMode) (vm : VirtualMachine)
      → s.objects p ≡ some vm
      → vm.mode ≡ Backend.Mode.continue
      → (t : Backend H) × (apply_mode l p (s, mode) ≡ some t)
        × (HookMode.get_hook_mode t.hooks l ≡ wanted_mode vm mode)
        × (record t { hooks = s.hooks } ≡ s)
  unfolding apply_mode
  apply_mode-wanted_mode l p s mode vm e m =
      elim (Bool-cases (mode_eq (HookMode.get_hook_mode s.hooks l) (wanted_mode vm mode))) [
        | inl same ↦ (s, rw (e, apply_mode, same), mode_eq-eq _ _ same, refl)
        | inr other ↦ (
          hook s l (wanted_mode vm mode),
          rw (e, apply_mode, other, m),
          get_hook_mode-set_hook_mode s.hooks l (wanted_mode vm mode),
          refl,
        )
      ]

module _ (script : Script) (first last : ℕ) (lua : 0 < first) (int : last < 2 ^ 32) where
  no_chunk :
      function_has_breakpoint (some script) first last
      ≡ Script.has_break_point_in_range script first last
  unfolding function_has_breakpoint
  no_chunk = ground arith

  -- A function that Lua defines on the lines from `first` to `last`, counted from 1, is watched
  -- when it is called exactly if a breakpoint stands on one of those lines other than the first:
  -- the test takes the front end's lines, counted from 0, for lines counted from 1. The lines are
  -- `int`s, and 0 is left to main chunks.
  pub function_has_breakpoint_iff : (function_has_breakpoint (some script) first last ≡ true) ↔ (
      (line : ℕ) × (first + 1 ≤ line)
      × (line ≤ last)
      × (Script.get_has_break_point script (pred32 line) ≡ true))
  function_has_breakpoint_iff = (
    λ h.
        let (k, lo, hi, e) =
          (has_break_point_in_range_iff first last script).0 (sym no_chunk ∙ h) in
        let back : pred32 (k + 1) ≡ k = omega arith in (k + 1, omega arith, omega arith, rw back e),
    λ w.
        no_chunk
        ∙ (has_break_point_in_range_iff first last script).1
            (pred32 w.0, omega arith, omega arith, w.3),
  )
