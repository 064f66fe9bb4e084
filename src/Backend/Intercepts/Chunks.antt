-- ===== src/Backend/Intercepts/Chunks.antt =====
-- How `lua_load` is read.
use vecoda.Base.{
  ℕ, ◌≡◌, ◌≢◌, refl, Bool, List, [], ◌∷◌, ◌++◌, Option, none, some, All, Text, ap, ◌⊎◌, inl, inr,
}
use mathlib.Core.Option
use vecoda.LuaDll.{LuaHooks, LuaInterface, LuaDebug}
use vecoda.LuaDll.Functions.{Functions}
use vecoda.Backend.{Backend}
use vecoda.Backend.Stack.{StackEntry}
use vecoda.Backend.Intercepts.{read_chunks, lua_load_worker}

-- What a reader answers that gives a text in pieces, and then what ends it and whatever is behind.
abbrev pub in_pieces : List Text → List (Option Text) → List (Option Text)
in_pieces [] after = after
in_pieces (t ∷ ts) after = some t ∷ in_pieces ts after

abbrev pub joined : List Text → Text
joined [] = []
joined (t ∷ ts) = t ++ joined ts

-- The reader has come to the end: null, or a chunk without a byte.
abbrev pub Over : List (Option Text) → Type 0
Over after = (rest : List (Option Text)) × ((after ≡ none ∷ rest) ⊎ (after ≡ some [] ∷ rest))

pub read_chunks-in_pieces :
    (ts : List Text) (after : List (Option Text))
    → All (λ t. t ≢ []) ts
    → Over after
    → read_chunks (in_pieces ts after) ≡ some (joined ts)
unfolding read_chunks
read_chunks-in_pieces [] after full (rest, inl e) = rw e refl
read_chunks-in_pieces [] after full (rest, inr e) = rw e refl
read_chunks-in_pieces ([] ∷ ts) after full over = absurd (full.0 refl)
read_chunks-in_pieces ((c ∷ cs) ∷ ts) after full over =
    ap (Option.map (λ rest. (c ∷ cs) ++ rest)) (read_chunks-in_pieces ts after full.1 over)

module _ {H : Type 0} ⦃lua : LuaHooks H⦄ (meanwhile inside : Backend H → Backend H)
    (face : LuaInterface) (native : List StackEntry) (frames : List LuaDebug) (api : ℕ)
    (stack_ok : Bool) (functions : Functions) where
  -- What a load does depends on the text that the reader gives, and not on the pieces in which it
  -- comes, nor on how the reader ends or what it would answer behind its end. No piece is empty.
  pub lua_load_worker-pieces :
      (l : ℕ) (ts us : List Text) (after other : List (Option Text)) (jit : Bool)
      (load : Text → ℕ × Text) (name : Option Text) (warned : Bool) (s : Backend H)
      → All (λ t. t ≢ []) ts
      → All (λ t. t ≢ []) us
      → Over after
      → Over other
      → joined ts ≡ joined us
      → let worker : List (Option Text) → Option (Backend H × Bool × ℕ) = λ chunks.
        lua_load_worker meanwhile inside face native frames api stack_ok functions l chunks jit load
          name warned s in
        worker (in_pieces ts after) ≡ worker (in_pieces us other)
  unfolding lua_load_worker
  lua_load_worker-pieces l ts us after other jit load name warned s full full' over over' same =
      rw
        (
          lua_load_worker,
          read_chunks-in_pieces ts after full over,
          read_chunks-in_pieces us other full' over',
          same,
        )
        refl
