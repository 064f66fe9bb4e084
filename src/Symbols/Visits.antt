-- ===== src/Symbols/Visits.antt =====
-- That the search for symbols ends, and what it has visited then.
use vecoda.Base.{
  ℕ, zero, suc, ◌≡◌, ◌<◌, refl, ◌⊎◌, inl, inr, true, List, [], ◌∷◌, Option, some, arith, ap, sym,
  ◌∙◌, All, Bool-cases, Option-cases, Text, text_eq, text_eq_refl, ◌==◌, map, mem,
}
use mathlib.Core.Option
use mathlib.Core.Path.{subst}
use vecoda.Backend.Commands.{has_text}
use vecoda.Symbols.{Process, Search, examine, each_import, load_symbols_recursively}
use vecoda.Symbols.Found.{
  missing, missing-≤, missing-<, Known, own_symbols, Named, Found, Grows, examine-Found,
}

has_text-map :
    (w : Process) (m : ℕ) (hs : List ℕ)
    → mem m hs ≡ true
    → has_text (w.base_name m) (map w.base_name hs) ≡ true
unfolding has_text
has_text-map w m [] h = absurd (ground (arith, h))
has_text-map w m (k ∷ hs) h = elim (Bool-cases (k == m)) [
  | inl same ↦
      let e : k ≡ m = ground (arith, same) in
      let here : text_eq (w.base_name k) (w.base_name m) ≡ true =
        ap (λ x. text_eq (w.base_name k) (w.base_name x)) (sym e) ∙ text_eq_refl (w.base_name k) in
      ground (arith, here)
  | inr other ↦ ground (arith, has_text-map w m hs (ground (arith, h, other)))
]

module _ (w : Process) (handles : List ℕ) where
  -- The modules that are loaded in the process, and their names.
  abbrev pub Present : ℕ → Type 0
  Present m = mem m handles ≡ true

  -- A module whose imports are loaded too.
  abbrev pub Done : Search → ℕ → Type 0
  Done t m =
      Found w t m × All (λ name. (h : ℕ) → w.module_of name ≡ some h → Named w t h) (w.imports m)

  -- All that a search has loaded is done, but for what was loaded before.
  abbrev pub Visits : Search → Search → Type 0
  Visits s t =
      Grows w s t
      × ((k : Text)
          → has_text k t.loaded ≡ true
          → (has_text k s.loaded ≡ true) ⊎ ((m : ℕ) × (w.base_name m ≡ k) × Present m × Done t m))

  Known-all :
      (s t : Search) (new : List (Text × ℕ))
      → Grows w s t
      → All (λ e. Known s.symbols e.0) new
      → All (λ e. Known t.symbols e.0) new
  Known-all s t [] g h = tt
  Known-all s t (e ∷ new) g h = (g.1 e.0 h.0, Known-all s t new g h.1)

  Named-all :
      (s t : Search) (names : List Text)
      → Grows w s t
      → All (λ name. (h : ℕ) → w.module_of name ≡ some h → Named w s h) names
      → All (λ name. (h : ℕ) → w.module_of name ≡ some h → Named w t h) names
  Named-all s t [] g h = tt
  Named-all s t (name ∷ names) g h =
      (λ m e. g.0 (w.base_name m) (h.0 m e), Named-all s t names g h.1)

  Done-Grows : (s t : Search) (m : ℕ) → Grows w s t → Done s m → Done t m
  Done-Grows s t m g ((named, all), imports) = (
    (g.0 (w.base_name m) named, Known-all s t (own_symbols w m) g all),
    Named-all s t (w.imports m) g imports,
  )

  Visits-trans : (s t u : Search) → Visits s t → Visits t u → Visits s u
  Visits-trans s t u (g, done) (h, next) = (
    (λ k e. h.0 k (g.0 k e), λ k e. h.1 k (g.1 k e)),
    λ k e. elim (next k e) [
      | inr new ↦ inr new
      | inl old ↦ elim (done k old) [
        | inl before ↦ inl before
        | inr (m, name, p, d) ↦ inr (m, name, p, Done-Grows t u m h d)
      ]
    ],
  )

  module _ (closed : (name : Text) (m : ℕ) → w.module_of name ≡ some m → Present m) where
    abbrev names : List Text
    names = map w.base_name handles

    -- What a visit of a module comes to.
    abbrev pub Visit : ℕ → Search → Option Search → Type 0
    Visit m s r = (t : Search) × (r ≡ some t) × Visits s t × Named w t m

    each_import-Visits :
        (visit : ℕ → Search → Option Search) (bound : ℕ)
        → ((m : ℕ) (s : Search)
            → Present m
            → missing names s.loaded < bound
            → Visit m s (visit m s))
        → (is : List Text) (s : Search) → missing names s.loaded < bound
        → (t : Search) × (each_import w visit is s ≡ some t)
          × Visits s t
          × All (λ name. (h : ℕ) → w.module_of name ≡ some h → Named w t h) is
    unfolding each_import Option.bind
    each_import-Visits visit bound step [] s room =
        (s, refl, ((λ k e. e, λ k e. e), λ k e. inl e), tt)
    each_import-Visits visit bound step (name ∷ is) s room =
        elim (Option-cases (w.module_of name)) [
          | inl none_there ↦
              let (t, e, v, all) = each_import-Visits visit bound step is s room in
              (
                t,
                rw (none_there, each_import) e,
                v,
                (λ h e'. absurd (ground (arith, none_there, e')), all),
              )
          | inr (m, there) ↦
              let (t, e, v, named) = step m s (closed name m there) room in
              let (u, e', v', all) =
                each_import-Visits visit bound step is t
                  (ground (arith, missing-≤ names s.loaded t.loaded v.0.0, room)) in
              (
                u,
                rw (there, e, each_import) e',
                Visits-trans s t u v v',
                (
                  λ h same.
                      subst (Named w u) (Option.some-injective m h (sym there ∙ same))
                        (v'.0.0 (w.base_name m) named),
                  all,
                ),
              )
        ]

    pub load_symbols_recursively-Visits :
        (fuel m : ℕ) (s : Search)
        → Present m
        → missing names s.loaded < fuel
        → Visit m s (load_symbols_recursively w fuel m s)
    unfolding load_symbols_recursively
    load_symbols_recursively-Visits zero m s p room = absurd (ground (arith, room))
    load_symbols_recursively-Visits (suc fuel) m s p room =
        elim (Bool-cases (has_text (w.base_name m) s.loaded)) [
          | inl loaded ↦ (s, rw loaded refl, ((λ k e. e, λ k e. e), λ k e. inl e), loaded)
          | inr new ↦
              let (found, g, back) = examine-Found w m s in
              let less : missing names (examine w m s).loaded < missing names s.loaded =
                missing-< names s.loaded (examine w m s).loaded (w.base_name m) g.0
                  (has_text-map w m handles p) new found.0 in
              let (t, e, v, all) =
                each_import-Visits (load_symbols_recursively w fuel) fuel
                  (load_symbols_recursively-Visits fuel) (w.imports m) (examine w m s)
                  (ground (arith, less, room)) in
              (
                t,
                rw new e,
                (
                  (λ k h. v.0.0 k (g.0 k h), λ k h. v.0.1 k (g.1 k h)),
                  λ k h. elim (v.1 k h) [
                    | inr other ↦ inr other
                    | inl old ↦ elim (back k old) [
                      | inl before ↦ inl before
                      | inr same ↦ inr (
                        m,
                        same,
                        p,
                        (
                          (
                            v.0.0 (w.base_name m) found.0,
                            Known-all (examine w m s) t (own_symbols w m) v.0 found.1,
                          ),
                          all,
                        ),
                      )
                    ]
                  ],
                ),
                v.0.0 (w.base_name m) found.0,
              )
        ]
