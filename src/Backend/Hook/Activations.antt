-- ===== src/Backend/Hook/Activations.antt =====
-- What the counting of calls stands for: a step over or out stops at the first line of a function
-- activation that the step may stop in.
use vecoda.Base.{
  ℕ, zero, suc, ◌≡◌, refl, true, false, Bool, List, [], ◌∷◌, ◌++◌, map, Option, none, some, arith,
  replicate, ◌==◌,
}
use vecoda.LuaDll.{
  LuaInterface, hook_call, hook_ret, hook_line, get_is_hook_event_ret, get_is_hook_event_call,
}
use vecoda.Backend.{VirtualMachine}
use vecoda.Backend.Hook.Callback.{steps_here, count_call, counts}
use vecoda.Backend.Hook.Count.{passes, IsPlain}

-- What Lua reports of a thread. `tail_ret` is how Lua 5.1 reports the return of a function that had
-- made a tail call.
pub data Event : Type 0 where
  call ret tail_ret line : Event

unfoldable pub event_code : LuaInterface → Event → ℕ
event_code face call = hook_call
event_code face ret = hook_ret
event_code face tail_ret = face.hook_tail_ret
event_code face line = hook_line

pub data Outcome : Type 0 where
  stops ends : Outcome
  runs : List Bool → Outcome

-- The reference: the stack of the thread, the innermost activation first, and for each whether the
-- step may stop in it. A call enters an activation in which it may not. The thread ends where there
-- is none left.
unfoldable pub follow : List Event → List Bool → Outcome
follow [] stack = runs stack
follow (call ∷ es) stack = follow es (false ∷ stack)
follow (ret ∷ es) [] = ends
follow (ret ∷ es) (own ∷ stack) = follow es stack
follow (tail_ret ∷ es) [] = ends
follow (tail_ret ∷ es) (own ∷ stack) = follow es stack
follow (line ∷ es) [] = ends
follow (line ∷ es) (true ∷ stack) = stops
follow (line ∷ es) (false ∷ stack) = follow es (false ∷ stack)

-- `entered` activations in which the step may not stop, above those in which it may.
abbrev pub stack_of : ℕ → ℕ → List Bool
stack_of entered below = replicate entered false ++ replicate below true

-- What the hook does with the events, as the reference says.
unfoldable pub Agrees : VirtualMachine → Outcome → Option VirtualMachine → Type 0
Agrees vm stops r = r ≡ none
Agrees vm ends r = Unit
Agrees vm (runs stack) r =
    (n : ℕ) × (k : ℕ) × (stack ≡ stack_of n k) × (r ≡ some (record vm { call_count = n }))

module _ (face : LuaInterface) (plain : IsPlain face) (vm : VirtualMachine)
    (counting : counts vm.mode ≡ true) where
  -- The machine with another count.
  abbrev at : ℕ → VirtualMachine
  at n = record vm { call_count = n }

  enters : (n : ℕ) → count_call face hook_call (at n) ≡ at (suc n)
  unfolding count_call get_is_hook_event_ret get_is_hook_event_call
  enters n = ground arith

  leaves :
      (n : ℕ)
      → (count_call face hook_ret (at (suc n)) ≡ at n)
        × (count_call face hook_ret (at 0) ≡ at 0)
        × (count_call face face.hook_tail_ret (at (suc n)) ≡ at n)
        × (count_call face face.hook_tail_ret (at 0) ≡ at 0)
  unfolding count_call get_is_hook_event_ret
  leaves n = ground arith

  lines : (n : ℕ) → (steps_here vm.mode 0 ≡ true) × (steps_here vm.mode (suc n) ≡ false)
  unfolding steps_here
  lines n = ground arith

  no_line : (face.hook_tail_ret == hook_line) ≡ false
  no_line = ground arith

  agrees :
      (es : List Event) (n k : ℕ)
      → Agrees vm (follow es (stack_of n k)) (passes face (map (event_code face) es) (at n))
  unfolding Agrees follow event_code passes
  agrees [] n k = (n, k, refl, refl)
  agrees (call ∷ es) n k = rw (enters n) (agrees es (suc n) k)
  agrees (ret ∷ es) zero zero = tt
  agrees (ret ∷ es) zero (suc k) = rw ((leaves 0).1) (agrees es zero k)
  agrees (ret ∷ es) (suc n) k = rw ((leaves n).0) (agrees es n k)
  agrees (tail_ret ∷ es) zero zero = tt
  agrees (tail_ret ∷ es) zero (suc k) = rw (no_line, (leaves 0).3) (agrees es zero k)
  agrees (tail_ret ∷ es) (suc n) k = rw (no_line, (leaves n).2) (agrees es n k)
  agrees (line ∷ es) zero zero = tt
  agrees (line ∷ es) zero (suc k) = rw ((lines 0).0) refl
  agrees (line ∷ es) (suc n) k = rw ((lines n).1) (agrees es (suc n) k)

-- A step over or out does what the reference says of any events that a thread reports, calls and
-- returns nested or not, if the machine's count is the number of the innermost activations in which
-- the step may not stop: none for a step over, one for a step out. As long as the reference
-- runs on there is no stop, and the count stays that number; where the reference stops at a line, so
-- does the hook. `plain` says that the library's tail events have numbers of their own; the events
-- have no tail call.
pub passes_refines_follow :
    (face : LuaInterface) (plain : IsPlain face) (vm : VirtualMachine) (es : List Event) (below : ℕ)
    → counts vm.mode ≡ true
    → Agrees vm
        (follow es (stack_of vm.call_count below))
        (passes face (map (event_code face) es) vm)
passes_refines_follow face plain vm es below counting =
    agrees face plain vm counting es vm.call_count below
