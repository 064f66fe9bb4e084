-- ===== src/Backend/Values/References.antt =====
-- The references in a tree, and what the loop over the entries of a table keeps of them.
use vecoda.Base.{ℕ, ◌≡◌, Bool, true, false, List, [], ◌∷◌, some}
use vecoda.Backend.Values.{
  Value, Node, Elements, end, element, Mark, unmarked, empty, reference, Run, done, undefined,
  runs_on, Display, then_run, find_entry, show_entries,
}
use vecoda.Backend.Values.Cache.{IsCache, Keeps}

-- The references of a table's attribute, and of a tree, lead to tables.
abbrev pub Leads : List (ℕ × ℕ) → Mark → Type 0
Leads refs (reference r) = (t : ℕ) × (find_entry r refs ≡ some t)
Leads refs unmarked = Unit
Leads refs empty = Unit

unfoldable mutual
  pub Refers : List (ℕ × ℕ) → Node → Type 0
  Refers refs (Node.table type es mark) = AllRefer refs es × Leads refs mark
  Refers refs (Node.value data_ type) = Unit
  Refers refs (Node.function script line) = Unit
  Refers refs (Node.error text) = Unit

  pub AllRefer : List (ℕ × ℕ) → Elements → Type 0
  AllRefer refs end = Unit
  AllRefer refs (element k v rest) = Refers refs k × Refers refs v × AllRefer refs rest

module _ (a b : List (ℕ × ℕ))
    (keeps : (r t : ℕ) → find_entry r a ≡ some t → find_entry r b ≡ some t) where
  Leads-later : (mark : Mark) → Leads a mark → Leads b mark
  Leads-later (reference r) (t, e) = (t, keeps r t e)
  Leads-later unmarked h = tt
  Leads-later empty h = tt

  mutual
    unfolding Refers AllRefer

    Refers-later : (n : Node) → Refers a n → Refers b n
    Refers-later (Node.table type es mark) h = (AllRefer-later es h.0, Leads-later mark h.1)
    Refers-later (Node.value data_ type) h = tt
    Refers-later (Node.function script line) h = tt
    Refers-later (Node.error text) h = tt

    AllRefer-later : (es : Elements) → AllRefer a es → AllRefer b es
    AllRefer-later end h = tt
    AllRefer-later (element k v rest) h =
        (Refers-later k h.0, Refers-later v h.1, AllRefer-later rest h.2)

-- A result, if there is one, has a property.
unfoldable pub Gives : {A : Type 0} → (A → Type 0) → Run A → Type 0
Gives P (done a) = P a
Gives P undefined = Unit
Gives P runs_on = Unit

pub then_run-Gives :
    {A B : Type 0} (P : A → Type 0) (Q : B → Type 0) (r : Run A) (f : A → Run B)
    → Gives P r
    → ((a : A) → P a → Gives Q (f a))
    → Gives Q (then_run r f)
unfolding Gives then_run
then_run-Gives P Q (done a) f g h = h a g
then_run-Gives P Q undefined f g h = tt
then_run-Gives P Q runs_on f g h = tt

module _ {H : Type 0} where
  -- The cache is right and what was a reference is one.
  abbrev pub Later : Display H → Display H → Type 0
  Later d e = IsCache e × Keeps d e

  abbrev pub Shown : Display H → Display H × Node → Type 0
  Shown d r = Later d r.0 × Refers r.0.refs r.1

  abbrev pub AllShown : Display H → Display H × Elements → Type 0
  AllShown d r = Later d r.0 × AllRefer r.0.refs r.1

  pub unchanged : (d : Display H) → IsCache d → Later d d
  unfolding Keeps
  unchanged d c = (c, λ r t e. e)

  later : (a b c : Display H) → Later a b → Later b c → Later a c
  unfolding Keeps
  later a b c k m = (m.0, λ r t e. m.1 r t (k.1 r t e))

  pub show_entries-Gives :
      (show : Bool → Value → Display H → Run (Display H × Node))
      → ((key : Bool) (v : Value) (d : Display H) → IsCache d → Gives (Shown d) (show key v d))
      → (entries : List (Value × Value)) (d : Display H) → IsCache d
      → Gives (AllShown d) (show_entries show entries d)
  unfolding show_entries Gives AllRefer Keeps
  show_entries-Gives show g [] d c = (unchanged d c, tt)
  show_entries-Gives show g ((k, v) ∷ rest) d c =
      then_run-Gives (Shown d) (AllShown d) (show true k d) _ (g true k d c) λ key sk.
        then_run-Gives (Shown key.0) (AllShown d) (show false v key.0) _ (g false v key.0 sk.0.0)
          λ val sv.
            then_run-Gives (AllShown val.0) (AllShown d) (show_entries show rest val.0) _
              (show_entries-Gives show g rest val.0 sv.0.0)
              λ more sm. (
                later d key.0 more.0 sk.0 (later key.0 val.0 more.0 sv.0 sm.0),
                (
                  Refers-later key.0.refs more.0.refs (later key.0 val.0 more.0 sv.0 sm.0).1 key.1
                      sk.1,
                  Refers-later val.0.refs more.0.refs sm.0.1 val.1 sv.1,
                  sm.1,
                ),
              )
