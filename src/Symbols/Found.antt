-- ===== src/Symbols/Found.antt =====
-- What is known of a module once it has been examined.
use vecoda.Base.{
  ℕ, suc, ◌≡◌, ◌≤◌, ◌<◌, refl, ◌⊎◌, inl, inr, Bool, true, false, List, [], ◌∷◌, Option, none, some,
  arith, ap, ◌∙◌, All, Bool-cases, Text, text_eq, text_eq-eq, text_eq_refl, is_some, find_text,
  insert_text, ◌==◌, if◌then◌else◌, length, ltb, ◌&&◌,
}
use vecoda.Backend.Commands.{has_text}
use vecoda.Symbols.{
  Process, Search, SymInfo, gather_symbols, opened_symbols, warn_about_pdb, warn_about_lua, examine,
  is_poor,
}

-- Every name of the first list is one of the second.
abbrev pub Within : List Text → List Text → Type 0
Within a b = (k : Text) → has_text k a ≡ true → has_text k b ≡ true

-- How many names are not yet loaded.
unfoldable pub missing : List Text → List Text → ℕ
missing [] loaded = 0
missing (n ∷ ns) loaded = if has_text n loaded then missing ns loaded else suc (missing ns loaded)

pub missing-≤ : (ns a b : List Text) → Within a b → missing ns b ≤ missing ns a
unfolding missing
missing-≤ [] a b h = omega arith
missing-≤ (n ∷ ns) a b h = ground (arith, h n, missing-≤ ns a b h)

pub missing-< :
    (ns a b : List Text) (k : Text)
    → Within a b
    → has_text k ns ≡ true
    → has_text k a ≡ false
    → has_text k b ≡ true
    → missing ns b < missing ns a
unfolding missing has_text
missing-< [] a b k h there new old = absurd (ground (arith, there))
missing-< (n ∷ ns) a b k h there new old = elim (Bool-cases (text_eq n k)) [
  | inl same ↦
      let e = text_eq-eq n k same in
      let fresh : has_text n a ≡ false = ap (λ x. has_text x a) e ∙ new in
      let known : has_text n b ≡ true = ap (λ x. has_text x b) e ∙ old in
      ground (arith, fresh, known, missing-≤ ns a b h)
  | inr other ↦ ground (arith, h n, missing-< ns a b k h (ground (arith, other, there)) new old)
]

pub missing-length : (ns : List Text) → missing ns [] ≤ length ns
unfolding missing has_text
missing-length [] = omega arith
missing-length (n ∷ ns) = ground (arith, missing-length ns)

-- A symbol is known.
abbrev pub Known : List (Text × ℕ) → Text → Type 0
Known m k = is_some (find_text k m) ≡ true

insert_text-Known :
    (k : Text) (a : ℕ) (m : List (Text × ℕ))
    → Known (insert_text k a m) k × ((j : Text) → Known m j → Known (insert_text k a m) j)
unfolding insert_text find_text
insert_text-Known k a [] = (ground (arith, text_eq_refl k), λ j h. absurd (ground (arith, h)))
insert_text-Known k a ((i, b) ∷ m) =
    let (self, old) = insert_text-Known k a m in
    (ground (arith, self), λ j h. ground (arith, h, old j))

gather_symbols-Known :
    (new m : List (Text × ℕ))
    → All (λ e. Known (gather_symbols new m) e.0) new
      × ((j : Text) → Known m j → Known (gather_symbols new m) j)
unfolding gather_symbols
gather_symbols-Known [] m = (tt, λ j h. h)
gather_symbols-Known ((k, a) ∷ new) m =
    let (self, old) = insert_text-Known k a m in
    let (all, keep) = gather_symbols-Known new (insert_text k a m) in
    ((keep k self, all), λ j h. keep j (old j h))

abbrev Same : Search → Search → Type 0
Same t s = (t.loaded ≡ s.loaded) × (t.symbols ≡ s.symbols)

chosen :
    (failed : Bool) (new m n : List (Text × ℕ))
    → m ≡ n
    → (if failed then m else gather_symbols new m) ≡ gather_symbols (if failed then [] else new) n
unfolding gather_symbols
chosen true new m n e = e
chosen false new m n e = ap (gather_symbols new) e

module _ (w : Process) where
  warn_about_pdb_rest :
      (file : Text) (info : Option SymInfo) (s : Search) → Same (warn_about_pdb w file info s) s
  unfolding warn_about_pdb
  warn_about_pdb_rest file none s = (refl, refl)
  warn_about_pdb_rest file (some info) s = elim (Bool-cases (has_text file s.warned_about_pdb)) [
    | inl warned ↦ rw warned (refl, refl)
    | inr new ↦ elim (Bool-cases (ltb 0 (length info.cv_data) && is_poor info.sym_type)) [
      | inl poor ↦ rw (new, poor) (refl, refl)
      | inr fine ↦ rw (new, fine) (refl, refl)
    ]
  ]

  warn_about_lua_rest :
      (m : ℕ) (file : Text) (base : ℕ) (s : Search) → Same (warn_about_lua w m file base s) s
  unfolding warn_about_lua
  warn_about_lua_rest m file base s = elim (Bool-cases (has_text file s.warned_about_lua)) [
    | inl warned ↦ rw warned (refl, refl)
    | inr new ↦ rw new (refl, refl)
  ]

  -- The symbols of a module, where they can be loaded.
  abbrev pub own_symbols : ℕ → List (Text × ℕ)
  own_symbols m = if (opened_symbols w m).0 == 0 then [] else w.symbols_of (opened_symbols w m).0

  -- What a search has found of a module.
  abbrev pub Named : Search → ℕ → Type 0
  Named t m = has_text (w.base_name m) t.loaded ≡ true

  abbrev pub Found : Search → ℕ → Type 0
  Found t m = Named t m × All (λ e. Known t.symbols e.0) (own_symbols m)

  abbrev pub Grows : Search → Search → Type 0
  Grows s t = Within s.loaded t.loaded × ((k : Text) → Known s.symbols k → Known t.symbols k)

  module _ (m : ℕ) (s : Search) where
    examine-loaded : (examine w m s).loaded ≡ w.base_name m ∷ s.loaded
    unfolding examine
    examine-loaded =
        (warn_about_lua_rest m (w.file_name m) (opened_symbols w m).0 _).0
        ∙ (warn_about_pdb_rest (w.file_name m) (opened_symbols w m).1
            (record s { loaded = w.base_name m ∷ s.loaded })).0

    examine-symbols : (examine w m s).symbols ≡ gather_symbols (own_symbols m) s.symbols
    unfolding examine gather_symbols
    examine-symbols =
        let base = (opened_symbols w m).0 in
        let same =
          (warn_about_pdb_rest (w.file_name m) (opened_symbols w m).1
            (record s { loaded = w.base_name m ∷ s.loaded })).1 in
        (warn_about_lua_rest m (w.file_name m) base _).1
        ∙ chosen (base == 0) (w.symbols_of base) _ s.symbols same

    pub examine-Found :
        Found (examine w m s) m
        × Grows s (examine w m s)
        × ((k : Text)
            → has_text k (examine w m s).loaded ≡ true
            → (has_text k s.loaded ≡ true) ⊎ (w.base_name m ≡ k))
    unfolding has_text
    examine-Found =
        let (all, keep) = gather_symbols-Known (own_symbols m) s.symbols in
        rw (examine-loaded, examine-symbols)
          (
            (ground (arith, text_eq_refl (w.base_name m)), all),
            (λ k h. ground (arith, h), keep),
            λ k h. elim (Bool-cases (text_eq (w.base_name m) k)) [
              | inl same ↦ inr (text_eq-eq (w.base_name m) k same)
              | inr other ↦ inl (ground (arith, other, h))
            ],
          )
