-- ===== src/Tests/Calls.antt =====
-- The theorems on the functions of a loaded Lua library, at a small one: a state is its stack, and a
-- value is a number, of which those from 1000 on are C functions.
use mathlib.Core.Option
use mathlib.Core.List.{append-nil, reverse-append, reverse-reverse}
use vecoda.Base.{
  Text, mem, ◌*◌, ℕ, suc, ◌+◌, ◌-◌, ◌≡◌, ◌≢◌, refl, true, List, [], ◌∷◌, ◌++◌, reverse, Option,
  none, some, if◌then◌else◌, leb, length, length-append, take, drop, is_some, arith, ap, sym, ◌∙◌,
  text_eq, All, inl,
}
use vecoda.Base.CString.{codes}
use vecoda.LuaDll.Functions.{Symbols, Loaded, CreateHook, load_lua_functions, hooks_made}
use vecoda.LuaDll.Functions.Calls
use vecoda.LuaDll.Functions.Calls.{wrappers, callee}
use vecoda.LuaDll.Functions.Safe.{load_lua_functions-Safe}
use vecoda.LuaDll.Stack.{ℤ, pos, negsuc, value_at, LuaStack}
use vecoda.Backend.Call.{is_handler, call}
use vecoda.Backend.Call.Balance.{Runs, call-Runs}
use vecoda.Tests.{masks}

take-length : (xs ys : List ℕ) → take (length xs) (xs ++ ys) ≡ xs
take-length [] ys = refl
take-length (x ∷ xs) ys = ap (λ t. x ∷ t) (take-length xs ys)

drop-length : (xs ys : List ℕ) → drop (length xs) (xs ++ ys) ≡ ys
drop-length [] ys = refl
drop-length (x ∷ xs) ys = drop-length xs ys

abbrev last_first : List ℕ → List ℕ
last_first xs = elim (reverse xs) [ [] ↦ [] | y ∷ ys ↦ y ∷ reverse ys ]

abbrev first_last : List ℕ → List ℕ
first_last [] = []
first_last (x ∷ xs) = xs ++ x ∷ []

abbrev without_first : List ℕ → List ℕ
without_first [] = []
without_first (x ∷ xs) = xs

abbrev from : (List ℕ → List ℕ) → List ℕ → ℤ → List ℕ
from f s (pos (suc n)) = take n s ++ f (drop n s)
from f s other = s

abbrev rotated : List ℕ → ℤ → ℤ → List ℕ
rotated s i (negsuc n) = from first_last s i
rotated s i (pos n) = from last_first s i

abbrev cut : List ℕ → ℤ → List ℕ
cut s (negsuc n) = take (length s - n) s
cut s (pos n) = take n s

abbrev or_zero : Option ℕ → ℕ
or_zero none = 0
or_zero (some v) = v

abbrev closed : List ℕ → ℕ → List ℕ
closed s f = take (length s - 1) s ++ (1000 + f) ∷ []

from-append :
    (f : List ℕ → List ℕ) (xs ys : List ℕ) → from f (xs ++ ys) (pos (suc (length xs))) ≡ xs ++ f ys
from-append f xs ys = rw (take-length xs ys, drop-length xs ys) refl

last_first-append : (ys : List ℕ) (x : ℕ) → last_first (ys ++ x ∷ []) ≡ x ∷ ys
last_first-append ys x =
    rw (last_first, reverse-append ys (x ∷ [])) (ap (λ t. x ∷ t) (reverse-reverse ys))

cut-append : (xs ys : List ℕ) → take (length (xs ++ ys) - length ys) (xs ++ ys) ≡ xs
cut-append xs ys =
    let all : length (xs ++ ys) - length ys ≡ length xs = omega (arith, length-append xs ys) in
    rw all (take-length xs ys)

abbrev small : LuaStack (List ℕ) ℕ
small = record {
  stack = λ s. s;
  nil = 0;
  closure = λ f v. 1000 + f;
  function_of = λ v. if leb 1000 v then some (v - 1000) else none;
  rotate = rotated;
  insert = from last_first;
  remove = from without_first;
  settop = cut;
  pushvalue = λ s i. s ++ or_zero (value_at s i) ∷ [];
  pushnil = λ s. s ++ 0 ∷ [];
  pushcclosure = λ s f n. closed s f;
  pcall = λ s nargs nresults errfunc. (0, take (length s - suc nargs) s);
  rotate_up-stack = λ s xs ys x e.
      rw e (from-append last_first xs (ys ++ x ∷ []) ∙ ap (λ t. xs ++ t) (last_first-append ys x));
  rotate_down-stack = λ s xs ys x e. rw e (from-append first_last xs (x ∷ ys));
  insert-stack = λ s xs ys x e.
      rw e (from-append last_first xs (ys ++ x ∷ []) ∙ ap (λ t. xs ++ t) (last_first-append ys x));
  remove-stack = λ s xs ys x e. rw e (from-append without_first xs (x ∷ ys));
  settop-stack = λ s xs ys e. rw e (cut-append xs ys);
  pushvalue-stack = λ s i v e. rw e refl;
  pushnil-stack = λ s. refl;
  pushcclosure-stack = λ s f xs v e. rw e (ap (λ t. t ++ (1000 + f) ∷ []) (cut-append xs (v ∷ [])));
  pcall-stack =
      λ s xs args f nresults errfunc e. ([], rw e (cut-append xs (f ∷ args) ∙ sym (append-nil xs)));
}

-- A name as a number, an address.
abbrev place : Text → ℕ
place [] = 1
place (c ∷ cs) = c + 256 * place cs

-- A hook for each function that has none yet, some way from it.
abbrev hook : CreateHook
hook hooked a = if mem a hooked then none else some (a + 3)

-- Those of Lua 5.5.
abbrev new_symbols : Symbols
new_symbols name =
    if text_eq name (codes "lua_tag")
    then none
    else (if text_eq name (codes "lua_open") then none else some (place name))

there {ℓ} : {A : Type ℓ} (o : Option A) → is_some o ≡ true → (a : A) × (o ≡ some a)
there none h = absurd (ground arith)
there (some a) h = (a, refl)

finds : is_some (load_lua_functions hook new_symbols) ≡ true
unfolding load_lua_functions text_eq Option.bind
finds = refl

all_made : hooks_made hook new_symbols ≡ true
unfolding hooks_made text_eq Option.bind
all_made = refl

abbrev lua_55 : (l : Loaded) × (load_lua_functions hook new_symbols ≡ some l)
lua_55 = there (load_lua_functions hook new_symbols) finds

load_lua_functions-Safe_example : All (λ w. callee lua_55.0 w ≢ Calls.null_call) wrappers
load_lua_functions-Safe_example =
    load_lua_functions-Safe hook new_symbols lua_55.0 lua_55.1 all_made

-- A function with two arguments on a value that has to stay, and no error function.
call-Runs_example :
    (code : ℕ) × (left : List ℕ) × (results : List ℕ) × (call small lua_55.0 5
        (9 ∷ 1003 ∷ 1 ∷ 2 ∷ [])
        2
        (pos 0)
        (pos 0)
      ≡ some (code, left))
    × (left ≡ 9 ∷ results)
    × Runs small 5 (9 ∷ []) 1003 (1 ∷ 2 ∷ []) 0 (pos 0) code results
unfolding value_at is_handler
call-Runs_example =
    call-Runs small 5 hook new_symbols lua_55.0 (9 ∷ 1003 ∷ 1 ∷ 2 ∷ []) (9 ∷ []) (1 ∷ 2 ∷ []) 1003 2
      0 (pos 0) (pos 0) lua_55.1 all_made refl refl refl (inl (refl, refl)) refl
