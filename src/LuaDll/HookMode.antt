-- ===== src/LuaDll/HookMode.antt =====
-- `SetHookMode` and `GetHookMode` of LuaDll.cpp: which events Lua reports to the backend.
use vecoda.Base.{ℕ, ◌+◌, ◌≡◌, Bool, true, false, arith, ◌==◌, if◌then◌else◌}
use vecoda.LuaDll.{LuaHooks, mask_call, mask_ret, mask_line}

pub data HookMode : Type 0 where
  none calls_only calls_and_returns full : HookMode

abbrev pub is_full : HookMode → Bool
is_full full = true
is_full _ = false

-- `==` of two hook modes.
abbrev pub mode_eq : HookMode → HookMode → Bool
mode_eq none none = true
mode_eq calls_only calls_only = true
mode_eq calls_and_returns calls_and_returns = true
mode_eq full full = true
mode_eq _ _ = false

unfoldable pub hook_mask_of : HookMode → ℕ
hook_mask_of none = 0
hook_mask_of calls_only = mask_call
hook_mask_of calls_and_returns = mask_call + mask_ret
hook_mask_of full = mask_call + mask_ret + mask_line

module _ {H : Type 0} ⦃lua : LuaHooks H⦄ where
  unfoldable pub set_hook_mode : H → ℕ → HookMode → H
  unfolding hook_mask_of
  set_hook_mode h l mode = lua.sethook h l (hook_mask_of mode)

  unfoldable pub get_hook_mode : H → ℕ → HookMode
  get_hook_mode h l =
      let mask = lua.gethookmask h l in
      if mask == 0
      then none
      else (if mask == mask_call
          then calls_only
          else (if mask == mask_call + mask_ret then calls_and_returns else full))

  mask_of_mode :
      (h : H) (l : ℕ) (mode : HookMode)
      → lua.gethookmask (set_hook_mode h l mode) l ≡ hook_mask_of mode
  unfolding set_hook_mode
  mask_of_mode h l none = lua.gethookmask-sethook h l 0 (omega arith)
  mask_of_mode h l calls_only = lua.gethookmask-sethook h l 1 (omega arith)
  mask_of_mode h l calls_and_returns = lua.gethookmask-sethook h l 3 (omega arith)
  mask_of_mode h l full = lua.gethookmask-sethook h l 7 (omega arith)

  -- The mode that a state was given is the mode that is read back, for each of the four modes.
  pub get_hook_mode-set_hook_mode :
      (h : H) (l : ℕ) (mode : HookMode) → get_hook_mode (set_hook_mode h l mode) l ≡ mode
  unfolding get_hook_mode hook_mask_of
  get_hook_mode-set_hook_mode h l none = rw (mask_of_mode h l none)
  get_hook_mode-set_hook_mode h l calls_only = rw (mask_of_mode h l calls_only)
  get_hook_mode-set_hook_mode h l calls_and_returns = rw (mask_of_mode h l calls_and_returns)
  get_hook_mode-set_hook_mode h l full = rw (mask_of_mode h l full)
