-- ===== src/Backend/Commands/Loop.antt =====
-- The whole command thread: the loop over the commands, and the clean-up behind it.
use vecoda.Base.{
  Option, ℕ, ◌≡◌, refl, Bool, true, false, List, [], ◌∷◌, some, All, Text, length, Bool-cases, inl,
  inr,
}
use mathlib.Core.Option
use vecoda.LuaDll.{LuaHooks}
use vecoda.Backend.{Objects, Backend, get_vm}
use vecoda.Backend.Breakpoints
use vecoda.Backend.Breakpoints.{get_have_active_breakpoints}
use vecoda.Backend.Breakpoints.Machines.{At, At-alter-All}
use vecoda.Backend.Breakpoints.Flags.{Says, IsFlagged}
use vecoda.Backend.Commands.{
  Command, Request, detach, ignore_exception, on_state, goes_on, keeps_running, command_loop,
  reset_events, wait_for_attach, clean_up, command_thread_proc,
}
use vecoda.Backend.Commands.Keeps.{Keeps, alter-Keeps, IsSound, Admits, IsAnswered}
use vecoda.Backend.Commands.Sound.{
  reset-IsSound, delete_all_breakpoints-IsSound, on_request-Follows,
}

reset_events-Keeps : (ps : List ℕ) (objects : Objects) → Keeps objects (reset_events ps objects)
unfolding reset_events
reset_events-Keeps [] objects k p h = h
reset_events-Keeps (q ∷ qs) objects k p h =
    reset_events-Keeps qs _ k p
      (alter-Keeps (λ vm. record vm { break_event = false }) (λ vm. refl) q objects k p h)

reset_events-Says :
    (on : Bool) (m : List (ℕ × ℕ)) (ps : List ℕ) (objects : Objects)
    → All (λ e. At (Says on) objects e.1) m
    → All (λ e. At (Says on) (reset_events ps objects) e.1) m
unfolding reset_events
reset_events-Says on m [] objects a = a
reset_events-Says on m (q ∷ qs) objects a = reset_events-Says on m qs _ (
    At-alter-All (Says on) (λ vm. record vm { break_event = false }) (Says on) (λ vm e. e) objects q
      m a)

module _ {H : Type 0} where
  -- What a request needs stays there while no machine comes or goes and no script is added.
  Admits-on :
      (s t : Backend H) (r : Request)
      → t.state_to_vm ≡ s.state_to_vm
      → length t.scripts ≡ length s.scripts
      → Admits s r
      → Admits t r
  unfolding get_vm
  Admits-on s t (detach running) states many a = tt
  Admits-on s t (ignore_exception text) states many a = tt
  Admits-on s t (on_state l Command.continue) states many a = rw states a
  Admits-on s t (on_state l Command.step_over) states many a = rw states a
  Admits-on s t (on_state l Command.step_into) states many a = rw states a
  Admits-on s t (on_state l Command.step_out) states many a = rw states a
  Admits-on s t (on_state l Command.break) states many a = rw states a
  Admits-on s t (on_state l Command.delete_all_breakpoints) states many a = tt
  Admits-on s t (on_state l Command.load_done) states many a = tt
  Admits-on s t (on_state l (Command.toggle_breakpoint index line)) states many a = rw many a
  Admits-on s t (on_state l (Command.evaluate request expression level)) states many a = tt
  Admits-on s t (on_state l (Command.expand_table request scope level reference)) states many a = tt

  pub Admits-All :
      (s t : Backend H) (rs : List Request)
      → t.state_to_vm ≡ s.state_to_vm
      → length t.scripts ≡ length s.scripts
      → All (Admits s) rs
      → All (Admits t) rs
  Admits-All s t [] states many a = tt
  Admits-All s t (r ∷ rs) states many a =
      (Admits-on s t r states many a.0, Admits-All s t rs states many a.1)

module _ {H : Type 0} ⦃lua : LuaHooks H⦄ where
  wait_for_attach-IsSound : (s : Backend H) → IsSound s → IsSound (wait_for_attach s)
  unfolding wait_for_attach Breakpoints.active_lua_hook_in_all_vms IsFlagged
      get_have_active_breakpoints
  wait_for_attach-IsSound s v =
      reset-IsSound s (wait_for_attach s) refl refl refl refl refl
        (reset_events-Keeps s.vms s.objects)
        (reset_events-Says (get_have_active_breakpoints s) s.state_to_vm s.vms s.objects v.flagged)
        v

  clean_up-IsSound : (go : Bool) (s : Backend H) → IsSound s → IsSound (clean_up go s)
  unfolding clean_up IsFlagged
  clean_up-IsSound true s v = wait_for_attach-IsSound _ (delete_all_breakpoints-IsSound s v)
  clean_up-IsSound false s v = record {
    linked = record { paired = refl; distinct = tt; live = tt; fresh = tt };
    indexed = tt;
    flagged = tt;
  }

module _ {H : Type 0} ⦃lua : LuaHooks H⦄ (answer : Command → Option (Bool × Text)) where
  command_loop-IsSound :
      (rs : List Request) (running : Bool) (s : Backend H)
      → IsSound s
      → All (Admits s) rs
      → All (IsAnswered answer) rs
      → (t : Backend H) × (go : Bool) × (command_loop answer rs running s ≡ some (t, go))
        × IsSound t
  unfolding command_loop Option.bind
  command_loop-IsSound [] running s v a given = (s, running, refl, v)
  command_loop-IsSound (r ∷ rs) running s v a given =
      let (t, e, w, states, many) = on_request-Follows answer r s v a.0 given.0 in
      let (u, go, rest, x) =
        command_loop-IsSound rs (keeps_running r running) t w (Admits-All s t rs states many a.1)
          given.1 in
      elim (Bool-cases (goes_on r)) [
        | inl on ↦ (u, go, rw (e, command_loop, on) rest, x)
        | inr off ↦ (t, false, rw (e, command_loop, off) refl, w)
      ]

  -- Requests whose machines and scripts are there, and whose evaluations and expansions of tables come
  -- back, are all carried out, up to the one that ends the
  -- loop or the end of the channel, and so is the clean-up: no null machine and no script out of
  -- range is used. What they leave is sound: the machines are in step, names lead to scripts that
  -- are there, and each machine's flag says whether some script has a breakpoint.
  pub command_thread_proc-IsSound :
      (rs : List Request) (s : Backend H)
      → IsSound s
      → All (Admits s) rs
      → All (IsAnswered answer) rs
      → (t : Backend H) × (command_thread_proc answer rs s ≡ some t) × IsSound t
  unfolding command_thread_proc
  command_thread_proc-IsSound rs s v a given =
      let (t, go, e, w) = command_loop-IsSound rs false s v a given in
      (clean_up go t, rw e refl, clean_up-IsSound go t w)
