-- ===== src/LuaDll/Functions/Safe.antt =====
-- After `LoadLuaFunctions` no function of the library is called through a null pointer.
use mathlib.Core.Option
use mathlib.Core.Path.{subst}
use vecoda.Base.{
  ℕ, ◌≡◌, ◌≢◌, refl, inl, inr, Bool, true, false, ◌||◌, List, [], ◌∷◌, Option, none, some, All,
  Bool-cases, Option-cases, arith, ap, sym, ◌∙◌, ◌==◌, text_eq, if◌then◌else◌,
}
use vecoda.LuaDll.Functions.{
  Symbols, Functions, get_entries, entries, all_moves, move_all, version_of, Loaded, CreateHook,
  hooked_names, are_made, hook_functions, hook_all, find_lua_functions, load_lua_functions,
  hooks_made,
}
use vecoda.LuaDll.Functions.Calls.{
  Wrapper, choices, emulates, first_of, null_call, callee_of, callee, wrappers,
}
use vecoda.LuaDll.Functions.Hooked.{first_of-keeps, hook_functions-keeps}
use vecoda.LuaDll.Functions.Found.{
  HasValue, Met, get_entries-Met, origins, first_of-origins, any_sure, any_sure-first_of,
}

-- What makes sure that a function is not called by a null pointer.
served : ℕ → Wrapper → Bool
served version w =
    emulates w || any_sure (origins (all_moves version) (choices version w)) (entries version)

all_served : ℕ → List Wrapper → Bool
all_served version [] = true
all_served version (w ∷ ws) = if served version w then all_served version ws else false

callee_of-value : (without : Bool) (o : Option ℕ) → HasValue o → callee_of without o ≢ null_call
unfolding callee_of
callee_of-value without none v h = absurd (ground (arith, v.1))
callee_of-value without (some a) v h = cc

callee_of-emulated : (o : Option ℕ) → callee_of true o ≢ null_call
unfolding callee_of
callee_of-emulated none h = cc
callee_of-emulated (some a) h = cc

-- What is found for a version.
abbrev pub found : ℕ → Functions → Loaded
found version f = record { version = version; functions = move_all (all_moves version) f }

module _ (hook : CreateHook) (version : ℕ) (f : Functions) (met : All (Met f) (entries version))
    (made : are_made hook hooked_names [] (move_all (all_moves version) f) ≡ true) where
  abbrev Safe : Wrapper → Type 0
  Safe w = callee (hook_all hook (found version f)) w ≢ null_call

  served-Safe : (w : Wrapper) → served version w ≡ true → Safe w
  unfolding served callee hook_all
  served-Safe w h = elim (Bool-cases (emulates w)) [
    | inl without ↦ rw without (callee_of-emulated _)
    | inr needed ↦
        let ks = choices version w in
        let there =
          any_sure-first_of f (origins (all_moves version) ks) (entries version)
            (ground (arith, needed, h)) met in
        let g = move_all (all_moves version) f in
        callee_of-value (emulates w) (first_of (hook_functions hook hooked_names [] g) ks) (
          first_of-keeps g (hook_functions hook hooked_names [] g)
            (hook_functions-keeps hook hooked_names [] g made) ks
            (subst HasValue (sym (first_of-origins (all_moves version) f ks)) there))
  ]

  all_served-Safe : (ws : List Wrapper) → all_served version ws ≡ true → All Safe ws
  unfolding all_served
  all_served-Safe [] h = tt
  all_served-Safe (w ∷ ws) h = elim (Bool-cases (served version w)) [
    | inl here ↦ (served-Safe w here, all_served-Safe ws (ground (arith, here, h)))
    | inr missing ↦ absurd (ground (arith, missing, h))
  ]

served_401 : all_served 401 wrappers ≡ true
unfolding text_eq all_served served emulates choices any_sure origins all_moves entries
served_401 = refl

served_500 : all_served 500 wrappers ≡ true
unfolding text_eq all_served served emulates choices any_sure origins all_moves entries
served_500 = refl

served_510 : all_served 510 wrappers ≡ true
unfolding text_eq all_served served emulates choices any_sure origins all_moves entries
served_510 = refl

served_520 : all_served 520 wrappers ≡ true
unfolding text_eq all_served served emulates choices any_sure origins all_moves entries
served_520 = refl

served_530 : all_served 530 wrappers ≡ true
unfolding text_eq all_served served emulates choices any_sure origins all_moves entries
served_530 = refl

served_540 : all_served 540 wrappers ≡ true
unfolding text_eq all_served served emulates choices any_sure origins all_moves entries
served_540 = refl

served_550 : all_served 550 wrappers ≡ true
unfolding text_eq all_served served emulates choices any_sure origins all_moves entries
served_550 = refl

-- The versions that are told apart.
known : ℕ → Bool
known v = v == 401 || (v == 500 || (v == 510 || (v == 520 || (v == 530 || (v == 540 || v == 550)))))

version_of-known : (symbols : Symbols) (v : ℕ) → version_of symbols ≡ some v → known v ≡ true
unfolding version_of known
version_of-known symbols v h = ground arith

known-served : (v : ℕ) → known v ≡ true → all_served v wrappers ≡ true
unfolding known
known-served v h =
    ground
      (arith, served_401, served_500, served_510, served_520, served_530, served_540, served_550)

abbrev rest : Symbols → ℕ → Option Loaded
rest symbols version =
    Option.map (found version) (get_entries symbols (entries version) (λ name. none))

find_lua_functions-found :
    (symbols : Symbols) (l : Loaded)
    → find_lua_functions symbols ≡ some l
    → (v : ℕ) × (f : Functions) × (known v ≡ true) × All (Met f) (entries v) × (found v f ≡ l)
unfolding find_lua_functions Option.bind
find_lua_functions-found symbols l h = elim (Option-cases (version_of symbols)) [
  | inl none_there ↦ absurd (ground (arith, none_there, h))
  | inr (v, e) ↦ elim (Option-cases (get_entries symbols (entries v) (λ name. none))) [
    | inl failed ↦ absurd (ground (arith, e, failed, h))
    | inr (f, there) ↦ (
      v,
      f,
      version_of-known symbols v e,
      (get_entries-Met symbols (entries v) (λ name. none) f there).0,
      Option.some-injective (found v f) l (
          ap (Option.map (found v)) (sym there)
          ∙ (ap (λ o. Option.bind o (rest symbols)) (sym e) ∙ h)),
    )
  ]
]

-- Where `LoadLuaFunctions` succeeds, whatever symbols there are, none of the functions that the
-- debugger calls on the library then goes through a null pointer: each finds a function of the
-- library, of its version or of another, or its trampoline, or has an emulation. Each hook that
-- `LoadLuaFunctions` asks for is made. `luaL_unref_dll`, and the functions that only an interception
-- calls, are not among them.
pub load_lua_functions-Safe :
    (hook : CreateHook) (symbols : Symbols) (l : Loaded)
    → load_lua_functions hook symbols ≡ some l
    → hooks_made hook symbols ≡ true
    → All (λ w. callee l w ≢ null_call) wrappers
unfolding load_lua_functions hooks_made
load_lua_functions-Safe hook symbols l h made = elim (Option-cases (find_lua_functions symbols)) [
  | inl missing ↦ absurd (Option.some-ne-none l (sym h ∙ ap (Option.map (hook_all hook)) missing))
  | inr (u, e) ↦
      let (v, f, is_known, met, same) = find_lua_functions-found symbols u e in
      let each : are_made hook hooked_names [] u.functions ≡ true =
        sym (rw (e, hooks_made) refl) ∙ made in
      let each' = subst (λ x. are_made hook hooked_names [] x.functions ≡ true) (sym same) each in
      let same' : hook_all hook (found v f) ≡ l =
        ap (hook_all hook) same
        ∙ Option.some-injective (hook_all hook u) l (ap (Option.map (hook_all hook)) (sym e) ∙ h) in
      subst (λ x. All (λ w. callee x w ≢ null_call) wrappers) same'
        (all_served-Safe hook v f met each' wrappers (known-served v is_known))
]
