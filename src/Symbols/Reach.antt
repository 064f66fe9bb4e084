-- ===== src/Symbols/Reach.antt =====
-- That the search for symbols reaches every module that is imported.
use vecoda.Base.{
  ℕ, suc, ◌≡◌, ◌<◌, refl, inl, inr, true, List, [], ◌∷◌, some, arith, ap, All, Bool-cases, Text,
  text_eq, text_eq-eq, length, map, mem,
}
use mathlib.Core.Path.{subst}
use vecoda.Backend.Commands.{has_text}
use vecoda.Symbols.{Process, Search, load_symbols_recursively}
use vecoda.Symbols.Found.{missing, missing-length, Named, Found}
use vecoda.Symbols.Visits.{Done, Visits, load_symbols_recursively-Visits}

-- The modules that a module imports, directly or not, as far as they are loaded.
pub data Reaches (w : Process) (root : ℕ) : ℕ → Type 0 where
  itself : Reaches w root root
  imports_of :
      (m h : ℕ) (name : Text)
      → Reaches w root m
      → has_text name (w.imports m) ≡ true
      → w.module_of name ≡ some h
      → Reaches w root h

All-has_text :
    (P : Text → Type 0) (names : List Text)
    → All P names
    → (name : Text) → has_text name names ≡ true
    → P name
unfolding has_text
All-has_text P [] all name h = absurd (ground (arith, h))
All-has_text P (n ∷ ns) all name h = elim (Bool-cases (text_eq n name)) [
  | inl same ↦ subst P (text_eq-eq n name same) all.0
  | inr other ↦ All-has_text P ns all.1 name (ground (arith, other, h))
]

length-map : (f : ℕ → Text) (hs : List ℕ) → length (map f hs) ≡ length hs
length-map f [] = refl
length-map f (h ∷ hs) = ap suc (length-map f hs)

module _ (w : Process) (handles : List ℕ)
    (closed : (name : Text) (m : ℕ) → w.module_of name ≡ some m → mem m handles ≡ true)
    (alone : (m h : ℕ)
      → mem m handles ≡ true
      → mem h handles ≡ true
      → w.base_name m ≡ w.base_name h
      → m ≡ h) where
  module _ (root : ℕ) (s t : Search) (empty : s.loaded ≡ []) (v : Visits w handles s t)
      (named : Named w t root) (present : mem root handles ≡ true) where
    Named-Done : (h : ℕ) → mem h handles ≡ true → Named w t h → Done w handles t h
    unfolding has_text
    Named-Done h p there = elim (v.1 (w.base_name h) there) [
      | inl before ↦ absurd (ground (arith, empty, before))
      | inr (m, same, q, d) ↦ subst (Done w handles t) (alone m h q p same) d
    ]

    Reaches-Done : (m : ℕ) → Reaches w root m → Done w handles t m
    Reaches-Done _ itself = Named-Done root present named
    Reaches-Done _ (imports_of m h name below one there) =
        Named-Done h (closed name h there)
          (All-has_text _ (w.imports m) (Reaches-Done m below).1 name one h there)

  -- The search from a module, with nothing loaded yet, ends, since no more searches are within each
  -- other than there are modules, and then each module that the first one imports, directly or not,
  -- has been examined: its name is loaded, and each symbol that its symbols give is known. The
  -- process has finitely many modules, and no two of them have the same name.
  pub load_symbols_recursively-Reaches :
      (root : ℕ) (s : Search)
      → mem root handles ≡ true
      → s.loaded ≡ []
      → (t : Search) × (load_symbols_recursively w (suc (length handles)) root s ≡ some t)
        × ((m : ℕ) → Reaches w root m → Found w t m)
  load_symbols_recursively-Reaches root s present empty =
      let names = map w.base_name handles in
      let few : missing names s.loaded < suc (length handles) =
        rw empty (ground (arith, missing-length names, length-map w.base_name handles)) in
      let (t, e, v, named) =
        load_symbols_recursively-Visits w handles closed (suc (length handles)) root s present
          few in
      (t, e, λ m r. (Reaches-Done root s t empty v named present m r).0)
