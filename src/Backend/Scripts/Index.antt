-- ===== src/Backend/Scripts/Index.antt =====
-- Names and indices of scripts: what `RegisterScript` makes of them, and what it leaves.
use vecoda.Base.{
  ℕ, suc, ◌+◌, ◌<◌, ◌≤◌, ◌≡◌, refl, Bool, List, [], ◌∷◌, ◌++◌, Option, none, some, arith, Text,
  text_eq, find_text, insert_text, length, get_elem?, All, Option-cases, Bool-cases, inl, inr,
  length-append, get_elem?-append_left, find_text-insert_text_self, find_text-insert_text_old, ◌⊎◌,
}
use vecoda.Script.{Script}
use vecoda.Backend.{Backend}
use vecoda.Backend.Scripts.{
  bytes_of, get_file_title, find_same, script_key, new_script, get_script_index, add_or_alias,
  register_script, load_script_event,
}

-- Every name leads to a script that is there.
abbrev pub IsIndexed : {H : Type 0} → Backend H → Type 0
IsIndexed s = All (λ e. e.1 < length s.scripts) s.name_to_script

find_same-lt :
    (title source : Text) (ss : List Script) (i j : ℕ)
    → find_same title source ss i ≡ some j
    → j < i + length ss
unfolding find_same
find_same-lt title source [] i j h = ground arith
find_same-lt title source (s ∷ ss) i j h = ground (arith, find_same-lt title source ss (suc i) j)

insert_text-All :
    (n : ℕ) (k : Text) (i : ℕ) (m : List (Text × ℕ))
    → i < n
    → All (λ e. e.1 < n) m
    → All (λ e. e.1 < n) (insert_text k i m)
unfolding insert_text
insert_text-All n k i [] h a = ground arith
insert_text-All n k i ((j, w) ∷ m) h a = elim (Bool-cases (text_eq j k)) [
  | inl e ↦ rw e a
  | inr e ↦ rw e (a.0, insert_text-All n k i m h a.1)
]

All-mono : (n k : ℕ) (m : List (Text × ℕ)) → n ≤ k → All (λ e. e.1 < n) m → All (λ e. e.1 < k) m
All-mono n k [] h a = tt
All-mono n k (e ∷ m) h a = (omega arith, All-mono n k m h a.1)

found_lt :
    (n : ℕ) (k : Text) (m : List (Text × ℕ)) (i : ℕ)
    → All (λ e. e.1 < n) m
    → find_text k m ≡ some i
    → i < n
unfolding find_text
found_lt n k [] i a e = ground arith
found_lt n k ((j, w) ∷ m) i a e = ground (arith, found_lt n k m i)

module _ {H : Type 0} (l : ℕ) (source name : Option Text) (missing : Bool) (s : Backend H) where
  -- What one call of `RegisterScript` may do to the table, and what the index that it answers says.
  abbrev pub Registers : Backend H × Option ℕ → Type 0
  Registers (t, new) =
      IsIndexed t
      × ((i : ℕ) × (get_script_index t (some (script_key source name)) ≡ some i)
          × (i < length t.scripts)
          × ((new ≡ none) × (t.scripts ≡ s.scripts) × (t.sent ≡ s.sent)
              ⊎ (new ≡ some i)
                × (i ≡ length s.scripts)
                × (t.scripts ≡ s.scripts ++ new_script source name missing i ∷ [])
                × (t.sent ≡ s.sent ++ load_script_event l (new_script source name missing i))))

  longer :
      length s.scripts
      < length (s.scripts ++ new_script source name missing (length s.scripts) ∷ [])
  longer =
      omega
        (arith, length-append s.scripts (new_script source name missing (length s.scripts) ∷ []))

  add_or_alias-Registers :
      IsIndexed s
      → get_script_index s (some (script_key source name)) ≡ none
      → (same : Option ℕ)
      → find_same (get_file_title (script_key source name)) (bytes_of source) s.scripts 0 ≡ same
      → Registers (add_or_alias l source name missing s same)
  unfolding add_or_alias get_script_index
  add_or_alias-Registers v unknown (some i) e = (
    insert_text-All (length s.scripts) (script_key source name) i s.name_to_script
        (omega (arith, find_same-lt _ _ s.scripts 0 i e)) v,
    (
      i,
      find_text-insert_text_self (script_key source name) i s.name_to_script unknown,
      omega (arith, find_same-lt _ _ s.scripts 0 i e),
      inl (refl, refl, refl),
    ),
  )
  add_or_alias-Registers v unknown none e = (
    insert_text-All (length (s.scripts ++ _ ∷ [])) (script_key source name) (length s.scripts)
        s.name_to_script longer
        (All-mono (length s.scripts) _ s.name_to_script (omega (arith, longer)) v),
    (
      length s.scripts,
      find_text-insert_text_self (script_key source name) (length s.scripts) s.name_to_script
          unknown,
      longer,
      inr (refl, refl, refl, refl),
    ),
  )

  -- After a registration the name leads to a script that is there, whether it was known, was
  -- joined to a script of the same title and source, or is new. The answer is -1, with no script
  -- added and nothing sent, or the index of the one script added, at the end, and announced by one
  -- event. It needs that the names known before lead to scripts that are there, and keeps that.
  pub register_script-Registers : IsIndexed s → Registers (register_script l source name missing s)
  unfolding register_script get_script_index
  register_script-Registers v =
      elim (Option-cases (find_text (script_key source name) s.name_to_script)) [
        | inl e ↦ rw e (add_or_alias-Registers v e _ refl)
        | inr (i, e) ↦ rw e (
          v,
          (i, e, found_lt (length s.scripts) _ s.name_to_script i v e, inl (refl, refl, refl)),
        )
      ]

  known_name :
      (k : Text) (i : ℕ)
      → find_text k s.name_to_script ≡ some i
      → find_text k (register_script l source name missing s).0.name_to_script ≡ some i
  unfolding register_script get_script_index
  known_name k i e = elim (Option-cases (find_text (script_key source name) s.name_to_script)) [
    | inl f ↦ rw f (
        aliased (find_same (get_file_title (script_key source name)) (bytes_of source) s.scripts 0))
    | inr (j, f) ↦ rw f e
  ]
    where
      aliased :
          (same : Option ℕ)
          → find_text k (add_or_alias l source name missing s same).0.name_to_script ≡ some i
      aliased none = find_text-insert_text_old k _ (length s.scripts) i s.name_to_script e
      aliased (some j) = find_text-insert_text_old k _ j i s.name_to_script e

  -- Where names lead to scripts that are there, a registration leaves each known name its index,
  -- and each script, with its breakpoints, its place.
  pub register_script_keeps :
      IsIndexed s
      → let t = (register_script l source name missing s).0 in
        ((k : Text) (i : ℕ)
          → find_text k s.name_to_script ≡ some i
          → find_text k t.name_to_script ≡ some i)
        × ((j : ℕ) (script : Script)
            → get_elem? s.scripts j ≡ some script
            → get_elem? t.scripts j ≡ some script)
  register_script_keeps v = (
    known_name,
    λ j script e. elim (register_script-Registers v).1.3 [
      | inl (_, same, _) ↦ rw same e
      | inr (_, _, longer, _) ↦ rw longer (get_elem?-append_left s.scripts _ j e)
    ],
  )

  -- Where names lead to scripts that are there, loading the same code under the same name a second
  -- time changes nothing and answers -1.
  pub register_script_twice :
      IsIndexed s
      → let t = (register_script l source name missing s).0 in
        (again : ℕ) (gone : Bool) → register_script again source name gone t ≡ (t, none)
  unfolding register_script
  register_script_twice v again gone = rw (register_script-Registers v).1.1
