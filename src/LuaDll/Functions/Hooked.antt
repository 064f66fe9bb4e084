-- ===== src/LuaDll/Functions/Hooked.antt =====
-- What the hooks of `LoadLuaFunctions` leave of the pointers that it found.
use vecoda.Base.{
  ℕ, ◌≡◌, refl, inl, inr, Bool, true, ◌&&◌, List, [], ◌∷◌, Option-cases, arith, Text, is_some,
}
use mathlib.Core.Path.{subst}
use vecoda.LuaDll.Functions.{Functions, assign, CreateHook, hook_functions, are_made}
use vecoda.LuaDll.Functions.Calls.{first_of}
use vecoda.LuaDll.Functions.Found.{HasValue, Keeps, is_some-HasValue, assign-keeps}

both : (a b : Bool) → (a && b) ≡ true → (a ≡ true) × (b ≡ true)
both a b h = (ground arith, ground arith)

module _ (hook : CreateHook) where
  hooked-keeps :
      (name : Text) (hooked : List ℕ) (a : ℕ) (f : Functions)
      → is_some (hook hooked a) ≡ true
      → Keeps f (assign name (hook hooked a) f)
  hooked-keeps name hooked a f h =
      let (b, e) = is_some-HasValue (hook hooked a) h in rw e (assign-keeps name b f)

  -- No pointer is lost where each hook is made.
  pub hook_functions-keeps :
      (names : List Text) (hooked : List ℕ) (f : Functions)
      → are_made hook names hooked f ≡ true
      → Keeps f (hook_functions hook names hooked f)
  unfolding hook_functions are_made
  hook_functions-keeps [] hooked f h k v = v
  hook_functions-keeps (name ∷ names) hooked f h k v = elim (Option-cases (f name)) [
    | inl e ↦
        let skip : are_made hook names hooked f ≡ true = ground (arith, e, h) in
        rw (e, hook_functions) (hook_functions-keeps names hooked f skip k v)
    | inr (a, e) ↦
        let (made, rest) =
          both (is_some (hook hooked a))
            (are_made hook names (a ∷ hooked) (assign name (hook hooked a) f))
            (ground (arith, e, h)) in
        rw (e, hook_functions)
          (hook_functions-keeps names (a ∷ hooked) (assign name (hook hooked a) f) rest k
            (hooked-keeps name hooked a f made k v))
  ]

pub first_of-keeps :
    (f g : Functions)
    → Keeps f g
    → (ks : List Text) → HasValue (first_of f ks)
    → HasValue (first_of g ks)
unfolding first_of
first_of-keeps f g keep [] v = v
first_of-keeps f g keep (k ∷ ks) v = elim (Option-cases (g k)) [
  | inr (a, e) ↦ rw (e, first_of) (a, refl)
  | inl gone ↦ elim (Option-cases (f k)) [
    | inl e ↦
        rw (gone, first_of) (first_of-keeps f g keep ks (subst HasValue (rw (e, first_of) refl) v))
    | inr (a, e) ↦ let (b, there) = keep k (a, e) in absurd (ground (arith, gone, there))
  ]
]
