-- ===== src/LuaDll/Functions/Found.antt =====
-- What `LoadLuaFunctions` has found when it succeeds.
use vecoda.Base.{
  ℕ, ◌≡◌, refl, ◌⊎◌, inl, inr, Bool, true, false, ◌&&◌, ◌||◌, List, [], ◌∷◌, Option, none, some,
  if◌then◌else◌, Text, text_eq, text_eq-eq, is_some, All, Bool-cases, Option-cases, arith, ap, sym,
  ◌∙◌,
}
use mathlib.Core.Option
use mathlib.Core.Path.{subst}
use vecoda.LuaDll.Functions.{
  Symbols, Functions, assign, Entry, required, optional, or_else, get_function_optional,
  get_function, get_entry, get_entries, Move, moves, move, move_all,
}
use vecoda.LuaDll.Functions.Calls.{first_of}

abbrev pub HasValue : Option ℕ → Type 0
HasValue o = (a : ℕ) × (o ≡ some a)

abbrev pub Met : Functions → Entry → Type 0
Met g (required name) = HasValue (g name)
Met g (optional name) = Unit
Met g (or_else name other) = HasValue (g name) ⊎ HasValue (g other)

-- No pointer that was there has gone.
abbrev pub Keeps : Functions → Functions → Type 0
Keeps f g = (k : Text) → HasValue (f k) → HasValue (g k)

Met-keeps : (f g : Functions) → Keeps f g → (e : Entry) → Met f e → Met g e
Met-keeps f g keep (required name) m = keep name m
Met-keeps f g keep (optional name) m = tt
Met-keeps f g keep (or_else name other) (inl m) = inl (keep name m)
Met-keeps f g keep (or_else name other) (inr m) = inr (keep other m)

pub is_some-HasValue : (o : Option ℕ) → is_some o ≡ true → HasValue o
is_some-HasValue none h = absurd (ground arith)
is_some-HasValue (some a) h = (a, refl)

pub assign-keeps : (name : Text) (a : ℕ) (f : Functions) → Keeps f (assign name (some a) f)
unfolding assign
assign-keeps name a f k h = elim (Bool-cases (text_eq name k)) [
  | inl same ↦ rw same (a, refl)
  | inr other ↦ rw other h
]

module _ (symbols : Symbols) where
  get_function_optional-keeps :
      (name : Text) (f : Functions) → Keeps f (get_function_optional symbols name f)
  unfolding get_function_optional assign
  get_function_optional-keeps name f k h = elim (Option-cases (symbols name)) [
    | inl e ↦ rw (e, get_function_optional) h
    | inr (a, e) ↦ rw (e, get_function_optional) (assign-keeps name a f k h)
  ]

  get_function-met :
      (name : Text) (f g : Functions)
      → get_function symbols name f ≡ some g
      → HasValue (g name) × Keeps f g
  unfolding get_function
  get_function-met name f g h =
      let g' = get_function_optional symbols name f in
      elim (Bool-cases (is_some (g' name))) [
        | inl there ↦
            let same : g' ≡ g = Option.some-injective g' g (ground (arith, there, h)) in
            (
              subst (λ x. HasValue (x name)) same (is_some-HasValue (g' name) there),
              subst (Keeps f) same (get_function_optional-keeps name f),
            )
        | inr missing ↦ absurd (ground (arith, missing, h))
      ]

  pub get_entry-Met :
      (e : Entry) (f g : Functions) → get_entry symbols e f ≡ some g → Met g e × Keeps f g
  unfolding get_entry
  get_entry-Met (required name) f g h = get_function-met name f g h
  get_entry-Met (optional name) f g h =
      (tt, subst (Keeps f) (Option.some-injective _ g h) (get_function_optional-keeps name f))
  get_entry-Met (or_else name other) f g h =
      let g' = get_function_optional symbols name f in
      elim (Bool-cases (is_some (g' name))) [
        | inl there ↦
            let same : g' ≡ g = Option.some-injective g' g (ground (arith, there, h)) in
            (
              inl (subst (λ x. HasValue (x name)) same (is_some-HasValue (g' name) there)),
              subst (Keeps f) same (get_function_optional-keeps name f),
            )
        | inr missing ↦
            let (found, keeps) = get_function-met other g' g (ground (arith, missing, h)) in
            (inr found, λ k v. keeps k (get_function_optional-keeps name f k v))
      ]

  pub get_entries-Met :
      (es : List Entry) (f g : Functions)
      → get_entries symbols es f ≡ some g
      → All (Met g) es × Keeps f g
  unfolding get_entries Option.bind
  get_entries-Met [] f g h = (tt, subst (Keeps f) (Option.some-injective f g h) (λ k v. v))
  get_entries-Met (e ∷ es) f g h = elim (Option-cases (get_entry symbols e f)) [
    | inl failed ↦ absurd (ground (arith, failed, h))
    | inr (f', made) ↦
        let (met, keep) = get_entry-Met e f f' made in
        let (rest, keeps) =
          get_entries-Met es f' g
            (ap (λ o. Option.bind o (get_entries symbols es)) (sym made) ∙ h) in
        ((Met-keeps f' g keeps e met, rest), λ k v. keeps k (keep k v))
  ]

-- Where the pointer that a member has after an assignment, or after all, comes from.
unfoldable pub back : Move → Text → Option Text
back (moves source target cleared) k =
    if text_eq cleared k then none else (if text_eq target k then some source else some k)

unfoldable pub origin : List Move → Text → Option Text
unfolding back Option.bind
origin [] k = some k
origin (m ∷ ms) k = Option.bind (origin ms k) (back m)

abbrev look : Functions → Option Text → Option ℕ
look f none = none
look f (some k) = f k

move-back : (m : Move) (f : Functions) (k : Text) → move m f k ≡ look f (back m k)
unfolding move assign back
move-back (moves source target cleared) f k = elim (Bool-cases (text_eq cleared k)) [
  | inl gone ↦ rw gone refl
  | inr stays ↦
      rw stays
        (elim (Bool-cases (text_eq target k)) [ inl hit ↦ rw hit refl | inr miss ↦ rw miss refl ])
]

pub move_all-origin :
    (ms : List Move) (f : Functions) (k : Text) → move_all ms f k ≡ look f (origin ms k)
unfolding move_all origin
move_all-origin [] f k = refl
move_all-origin (m ∷ ms) f k =
    move_all-origin ms (move m f) k
    ∙ elim (Option-cases (origin ms k)) [ inl e ↦ rw e refl | inr (j, e) ↦ rw e (move-back m f j) ]

unfoldable pub origins : List Move → List Text → List Text
unfolding origin
origins ms [] = []
origins ms (k ∷ ks) = elim (origin ms k) [ none ↦ origins ms ks | some j ↦ j ∷ origins ms ks ]

pub first_of-origins :
    (ms : List Move) (f : Functions) (ks : List Text)
    → first_of (move_all ms f) ks ≡ first_of f (origins ms ks)
unfolding first_of origins
first_of-origins ms f [] = refl
first_of-origins ms f (k ∷ ks) =
    let rest = first_of-origins ms f ks in
    let here = move_all-origin ms f k in
    elim (Option-cases (origin ms k)) [
      | inl e ↦
          let gone : move_all ms f k ≡ none = here ∙ ap (look f) e in
          rw (gone, first_of, e, origins) rest
      | inr (j, e) ↦ elim (Option-cases (f j)) [
        | inl null ↦
            let gone : move_all ms f k ≡ none = here ∙ ap (look f) e ∙ null in
            rw (gone, first_of, e, origins, null) rest
        | inr (a, there) ↦
            let found : move_all ms f k ≡ some a = here ∙ ap (look f) e ∙ there in
            rw (found, first_of, e, origins, there) refl
      ]
    ]

unfoldable pub mem_text : Text → List Text → Bool
mem_text t [] = false
mem_text t (u ∷ us) = text_eq u t || mem_text t us

pub first_of-mem :
    (f : Functions) (t : Text) (ks : List Text)
    → mem_text t ks ≡ true
    → HasValue (f t)
    → HasValue (first_of f ks)
unfolding first_of mem_text
first_of-mem f t [] h v = absurd (ground arith)
first_of-mem f t (k ∷ ks) h v = elim (Option-cases (f k)) [
  | inl e ↦ elim (Bool-cases (text_eq k t)) [
    | inl same ↦ absurd (ground (arith, v.1, e, ap f (text_eq-eq k t same)))
    | inr other ↦ rw (e, first_of) (first_of-mem f t ks (ground arith) v)
  ]
  | inr (a, e) ↦ rw (e, first_of) (a, refl)
]

-- An entry that makes sure of one of the members.
unfoldable pub sure : List Text → Entry → Bool
unfolding mem_text
sure ks (required name) = mem_text name ks
sure ks (optional name) = false
sure ks (or_else name other) = mem_text name ks && mem_text other ks

unfoldable pub any_sure : List Text → List Entry → Bool
unfolding sure
any_sure ks [] = false
any_sure ks (e ∷ es) = sure ks e || any_sure ks es

sure-first_of :
    (f : Functions) (ks : List Text) (e : Entry)
    → sure ks e ≡ true
    → Met f e
    → HasValue (first_of f ks)
unfolding sure
sure-first_of f ks (required name) h m = first_of-mem f name ks h m
sure-first_of f ks (optional name) h m = absurd (ground arith)
sure-first_of f ks (or_else name other) h (inl m) = first_of-mem f name ks (ground arith) m
sure-first_of f ks (or_else name other) h (inr m) = first_of-mem f other ks (ground arith) m

pub any_sure-first_of :
    (f : Functions) (ks : List Text) (es : List Entry)
    → any_sure ks es ≡ true
    → All (Met f) es
    → HasValue (first_of f ks)
unfolding any_sure
any_sure-first_of f ks [] h m = absurd (ground arith)
any_sure-first_of f ks (e ∷ es) h m = elim (Bool-cases (sure ks e)) [
  | inl here ↦ sure-first_of f ks e here m.0
  | inr there ↦ any_sure-first_of f ks es (ground arith) m.1
]
