-- ===== src/Tests/Modules.antt =====
-- The theorems on the search for symbols, at a process of two modules that import each other: a game
-- at 1, and at 2 the Lua library, whose symbols can be loaded.
use vecoda.Base.{
  ℕ, ◌+◌, ◌<◌, ◌≡◌, ◌≢◌, ◌↔◌, refl, true, false, List, [], ◌∷◌, none, some, if◌then◌else◌, ◌==◌,
  Text, Bool, Option, find_text, text_eq, arith, mem, drop, ◌⊎◌, inl, inr, Bool-cases, ap, sym, ◌∙◌,
}
use vecoda.Base.CString.{codes, starts_with}
use vecoda.Symbols.{
  Process, Search, Loader, start_search, entered, load_symbols_recursively, scan_for_signature,
}
use mathlib.Core.Option
use vecoda.Symbols.Found.{Found}
use vecoda.LuaDll.Functions.{hooks_made}
use vecoda.Symbols.Reach.{Reaches, load_symbols_recursively-Reaches}
use vecoda.Symbols.Signature.{scan_for_signature_iff}

abbrev name_of : ℕ → Text
name_of m = if m == 1 then codes "game.exe" else codes "lua.dll"

abbrev two : Process
two = record {
  own = 3;
  base_name = name_of;
  file_name = name_of;
  load_module = λ m file. if m == 2 then 7 else 0;
  module_info = λ base. none;
  symbols_of = λ base. (codes "lua_gettop", 70) ∷ [];
  has_lua = λ base. true;
  size = λ m. 4;
  image = λ m. codes "$Lua";
  imports = λ m. if m == 1 then codes "lua.dll" ∷ [] else codes "game.exe" ∷ [];
  module_of = λ name. if text_eq name (codes "game.exe") then some 1 else some 2;
  exists = λ file. false;
  sym_initialize = true;
  create_hook = λ api hooked a. if mem a hooked then none else some (a + 3);
}

abbrev handles : List ℕ
handles = 1 ∷ 2 ∷ []

two_closed : (name : Text) (m : ℕ) → two.module_of name ≡ some m → mem m handles ≡ true
two_closed name m h = ground arith

unlike : codes "game.exe" ≢ codes "lua.dll"
unlike e = absurd (ground (arith, e))

one_of : (m : ℕ) → mem m handles ≡ true → (m ≡ 1) ⊎ (m ≡ 2)
one_of m h = elim (Bool-cases (1 == m)) [
  | inl first ↦ inl (ground (arith, first))
  | inr other ↦ inr (ground (arith, other, h))
]

two_alone : (m h : ℕ) → mem m handles ≡ true → mem h handles ≡ true → name_of m ≡ name_of h → m ≡ h
two_alone m h p q same = elim (one_of m p) [
  | inl a ↦ elim (one_of h q) [
    | inl b ↦ a ∙ sym b
    | inr b ↦ absurd (unlike (sym (ap name_of a) ∙ (same ∙ ap name_of b)))
  ]
  | inr a ↦ elim (one_of h q) [
    | inl b ↦ absurd (unlike (sym (ap name_of b) ∙ (sym same ∙ ap name_of a)))
    | inr b ↦ a ∙ sym b
  ]
]

abbrev fresh : Search
fresh = record {
  loaded = [];
  symbols = [];
  warned_about_pdb = [];
  warned_about_lua = [];
  messages = [];
}

load_symbols_recursively-Reaches_example :
    (t : Search) × (load_symbols_recursively two 3 1 fresh ≡ some t)
    × ((m : ℕ) → Reaches two 1 m → Found two t m)
load_symbols_recursively-Reaches_example =
    load_symbols_recursively-Reaches two handles two_closed two_alone 1 fresh refl refl

abbrev unloaded : Loader
unloaded = record {
  loaded_modules = [];
  initialized = false;
  warned_pdb = [];
  warned_lua = [];
  told = [];
  interfaces = [];
}

-- The library has one symbol, and is taken for no Lua.
abbrev well_hooked : Option Search → Bool
well_hooked none = true
well_hooked (some r) = hooks_made (two.create_hook 0) (λ k. find_text k r.symbols)

searched :
    well_hooked (load_symbols_recursively two 3 1 (start_search (entered two 1 unloaded))) ≡ true
unfolding load_symbols_recursively hooks_made find_text text_eq Option.bind
searched = refl

hooked :
    (r : Search)
    → load_symbols_recursively two 3 1 (start_search (entered two 1 unloaded)) ≡ some r
    → hooks_made (two.create_hook 0) (λ k. find_text k r.symbols) ≡ true
hooked r e = sym (ap well_hooked e) ∙ searched

-- The signature stands at the second of seven places.
scan_for_signature_iff_example :
    (scan_for_signature 12 (codes " $Lua: 5.1") (codes "$Lua:") ≡ true)
    ↔ ((i : ℕ) × (i + 5 < 12) × (starts_with (codes "$Lua:") (drop i (codes " $Lua: 5.1")) ≡ true))
scan_for_signature_iff_example =
    scan_for_signature_iff (codes "$Lua:") (λ e. absurd (ground (arith, e))) 12 (codes " $Lua: 5.1")
