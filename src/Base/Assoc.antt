-- ===== src/Base/Assoc.antt =====
-- Maps as association lists: those keyed by numbers (`lua_State*`), and those keyed by texts.
use mathlib.Core.Path.{◌≡◌}
use mathlib.Core.Logic.{inl, inr}
use mathlib.Core.List.{List, [], ◌∷◌}
use mathlib.Core.Option.{Option, none, some}
use native.Mathlib.Omega.{arith}
use vecoda.Base.Tests.{if◌then◌else◌, Text, text_eq, text_eq_refl, Bool-cases}

module _ {ℓ} {V : Type ℓ} where
  -- `find` of a map keyed by text.
  unfoldable pub find_text : Text → List (Text × V) → Option V
  find_text k [] = none
  find_text k ((j, v) ∷ m) = if text_eq j k then some v else find_text k m

  -- `insert` of `std::unordered_map`: a key that is present keeps its value.
  unfoldable pub insert_text : Text → V → List (Text × V) → List (Text × V)
  insert_text k v [] = (k, v) ∷ []
  insert_text k v ((j, w) ∷ m) = if text_eq j k then (j, w) ∷ m else (j, w) ∷ insert_text k v m

  pub find_text-insert_text_self :
      (k : Text) (v : V) (m : List (Text × V))
      → find_text k m ≡ none
      → find_text k (insert_text k v m) ≡ some v
  unfolding find_text insert_text
  find_text-insert_text_self k v [] h = rw (text_eq_refl k)
  find_text-insert_text_self k v ((j, w) ∷ m) h = ground (arith, find_text-insert_text_self k v m)

  -- An entry that is there stays.
  pub find_text-insert_text_old :
      (k j : Text) (v w : V) (m : List (Text × V))
      → find_text k m ≡ some w
      → find_text k (insert_text j v m) ≡ some w
  unfolding find_text insert_text
  find_text-insert_text_old k j v w [] h = ground arith
  find_text-insert_text_old k j v w ((i, u) ∷ m) h = elim (Bool-cases (text_eq i j)) [
    | inl e ↦ rw e h
    | inr e ↦ rw e (elim (Bool-cases (text_eq i k)) [
      | inl f ↦ rw f (ground (arith, h))
      | inr f ↦ rw f (find_text-insert_text_old k j v w m (ground (arith, h)))
    ])
  ]
