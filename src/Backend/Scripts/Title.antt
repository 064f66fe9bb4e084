-- ===== src/Backend/Scripts/Title.antt =====
-- What `GetFileTitle` takes from a path.
use vecoda.Base.{
  ℕ, zero, suc, ◌≡◌, refl, false, [], ◌∷◌, ◌++◌, Option, none, some, ◌⊎◌, inl, inr, arith, Text,
  mem, Option-cases, Bool-cases, ap, leb, ◌≤◌,
}
use vecoda.Base.CString.{strrchr}
use vecoda.Backend.Scripts.{max_index, drop_after, get_file_title}

strrchr-cons :
    (c x : ℕ) (xs : Text) (i : ℕ) → strrchr c xs ≡ some i → strrchr c (x ∷ xs) ≡ some (suc i)
unfolding strrchr
strrchr-cons c x xs i e = rw e

strrchr_none : (c : ℕ) (xs : Text) → strrchr c xs ≡ none → mem c xs ≡ false
unfolding strrchr
strrchr_none c [] e = refl
strrchr_none c (x ∷ xs) e = ground (arith, strrchr_none c xs)

-- Behind the last place of `c`, and behind any later one, there is no `c`.
mem-drop_after :
    (c i : ℕ) (xs : Text)
    → ((j : ℕ) → strrchr c xs ≡ some j → j ≤ i)
    → mem c (drop_after i xs) ≡ false
unfolding strrchr
mem-drop_after c i [] late = refl
mem-drop_after c zero (x ∷ xs) late = elim (Option-cases (strrchr c xs)) [
  | inl e ↦ strrchr_none c xs e
  | inr (j, e) ↦ absurd (omega (arith, late (suc j) (strrchr-cons c x xs j e)))
]
mem-drop_after c (suc i) (x ∷ xs) late =
    mem-drop_after c i xs (λ j e. omega (arith, late (suc j) (strrchr-cons c x xs j e)))

-- A name is what stands before a place, the byte there, and what stands behind it.
abbrev Splits : ℕ → ℕ → Text → Type 0
Splits c i xs = (d : Text) × (xs ≡ d ++ c ∷ drop_after i xs)

strrchr-Splits : (c : ℕ) (xs : Text) (i : ℕ) → strrchr c xs ≡ some i → Splits c i xs
unfolding strrchr
strrchr-Splits c [] i e = absurd (ground arith)
strrchr-Splits c (x ∷ xs) i e = elim (Option-cases (strrchr c xs)) [
  | inl f ↦ let at : i ≡ 0 = ground arith in let here : x ≡ c = ground arith in ([], rw (at, here))
  | inr (j, f) ↦
      let at : i ≡ suc j = ground arith in
      let (d, split) = strrchr-Splits c xs j f in (x ∷ d, rw at (ap (◌∷◌ x) split))
]

-- What a title has to do with its path.
abbrev pub IsTitle : Text → Text → Type 0
IsTitle name title =
    (mem 92 title ≡ false)
    × (mem b'/' title ≡ false)
    × ((name ≡ title) ⊎ ((d : Text) × (c : ℕ) × ((c ≡ 92) ⊎ (c ≡ b'/')) × (name ≡ d ++ c ∷ title)))

module _ (name : Text) where
  no_later : (c i j : ℕ) → strrchr c name ≡ some i → i ≤ j → mem c (drop_after j name) ≡ false
  no_later c i j e h = mem-drop_after c j name (λ k f. ground arith)

  none_there : (c j : ℕ) → strrchr c name ≡ none → mem c (drop_after j name) ≡ false
  none_there c j e = mem-drop_after c j name (λ k f. absurd (ground arith))

  cut_at :
      (a b : Option ℕ)
      → strrchr 92 name ≡ a
      → strrchr b'/' name ≡ b
      → IsTitle name (elim (max_index a b) [ none ↦ name | some i ↦ drop_after i name ])
  cut_at none none e f = (strrchr_none 92 name e, strrchr_none b'/' name f, inl refl)
  cut_at (some i) none e f =
      let (d, split) = strrchr-Splits 92 name i e in
      (no_later 92 i i e (omega arith), none_there b'/' i f, inr (d, 92, inl refl, split))
  cut_at none (some j) e f =
      let (d, split) = strrchr-Splits b'/' name j f in
      (none_there 92 j e, no_later b'/' j j f (omega arith), inr (d, b'/', inr refl, split))
  cut_at (some i) (some j) e f =
      let (d, split) = strrchr-Splits 92 name i e in
      let (d', split') = strrchr-Splits b'/' name j f in
      elim (Bool-cases (leb i j)) [
        | inl h ↦ rw h (
          no_later 92 i j e (ground arith),
          no_later b'/' j j f (omega arith),
          inr (d', b'/', inr refl, split'),
        )
        | inr h ↦ rw h (
          no_later 92 i i e (omega arith),
          no_later b'/' j i f (ground arith),
          inr (d, 92, inl refl, split),
        )
      ]

  -- The title of a path holds no slash of either kind, and is the whole path or what stands
  -- behind a slash in it.
  pub get_file_title-IsTitle : IsTitle name (get_file_title name)
  unfolding get_file_title
  get_file_title-IsTitle = cut_at (strrchr 92 name) (strrchr b'/' name) refl refl
