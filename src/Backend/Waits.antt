-- ===== src/Backend/Waits.antt =====
-- `WaitForEvent` of DebugBackend.cpp, by which a thread of the program waits, with the critical
-- section left, for the front end, while the command thread carries out its requests.
pub mod Ready
pub mod Heeds
pub mod Live
use vecoda.Base.{
  ℕ, ◌≡◌, Bool, true, false, List, [], ◌∷◌, Option, none, some, ◌==◌, if◌then◌else◌, Text,
}
use vecoda.LuaDll.{LuaHooks}
use vecoda.Backend.{Backend, modify}
use vecoda.Backend.Commands.{
  Command, Request, detach, ignore_exception, on_state, on_request, goes_on,
}

-- `m_loadEvent`, or the `break_event` of the machine at an address. Both reset themselves once a
-- wait has seen them; `m_detachEvent` does not.
pub data Awaited : Type 0 where
  break_event : ℕ → Awaited
  load_event : Awaited

module _ {H : Type 0} where
  unfoldable pub is_signalled : Awaited → Backend H → Bool
  is_signalled (break_event p) s = elim (s.objects p) [ none ↦ false | some vm ↦ vm.break_event ]
  is_signalled load_event s = s.load_event

  unfoldable pub reset : Awaited → Backend H → Backend H
  reset (break_event p) s = modify s p (λ vm. record vm { break_event = false })
  reset load_event s = record s { load_event = false }

  -- What the wait leaves once it is over; `none` while it is not.
  unfoldable pub wait_for_event : Awaited → Backend H → Option (Backend H)
  unfolding is_signalled reset
  wait_for_event e s =
      if is_signalled e s then some (reset e s) else (if s.detach_event then some s else none)

-- Whether a resumption of the state `k` sets an event for which a thread of the state `l` waits.
unfoldable pub resumes : ℕ → Awaited → ℕ → Bool
resumes l (break_event p) k = k == l
resumes l load_event k = false

unfoldable pub loads : Awaited → Bool
loads (break_event p) = false
loads load_event = true

-- The requests that end a wait of a thread of the state `l`.
unfoldable pub wakes : ℕ → Awaited → Request → Bool
unfolding resumes loads
wakes l e (detach continue_running) = true
wakes l e (on_state k Command.continue) = resumes l e k
wakes l e (on_state k Command.step_over) = resumes l e k
wakes l e (on_state k Command.step_into) = resumes l e k
wakes l e (on_state k Command.step_out) = resumes l e k
wakes l e (on_state k Command.load_done) = loads e
wakes l e other = false

unfoldable pub any_wakes : ℕ → Awaited → List Request → Bool
unfolding wakes
any_wakes l e [] = false
any_wakes l e (r ∷ rs) = if wakes l e r then true else any_wakes l e rs

-- The backend, the requests that the front end has still to be served, whether the command thread is
-- still in its loop, and whether the other thread still waits.
pub record Scene (H : Type 0) : Type 0 where
  pub state : Backend H
  pub requests : List Request
  pub listening : Bool
  pub waiting : Bool

module _ {H : Type 0} ⦃lua : LuaHooks H⦄ (answer : Command → Option (Bool × Text))
    (e : Awaited) where
  -- One of the two threads goes on. The command thread does so in its loop; what it does behind it
  -- is no step.
  pub data Moves : Scene H → Scene H → Type 0 where
    serves :
        (c : Scene H) (r : Request) (rs : List Request) (t : Backend H)
        → c.requests ≡ r ∷ rs
        → c.listening ≡ true
        → on_request answer r c.state ≡ some t
        → Moves c (record { state = t; requests = rs; listening = goes_on r; waiting = c.waiting })
    returns :
        (c : Scene H) (t : Backend H)
        → c.waiting ≡ true
        → wait_for_event e c.state ≡ some t
        → Moves c (record c { state = t; waiting = false })

  -- However the threads are scheduled, the wait comes to its end: it has, or some thread can go on
  -- and, whichever does, the wait comes to its end from there.
  pub data Returns : Scene H → Type 0 where
    over : (c : Scene H) → c.waiting ≡ false → Returns c
    later : (c d : Scene H) → Moves c d → ((f : Scene H) → Moves c f → Returns f) → Returns c
