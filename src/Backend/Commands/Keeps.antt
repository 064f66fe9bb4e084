-- ===== src/Backend/Commands/Keeps.antt =====
-- What the front end's commands rely on, and changes of the machines that keep it.
use vecoda.Base.{
  Bool, false, Option, none, Text, ℕ, ◌≡◌, ◌<◌, refl, List, [], ◌∷◌, some, arith, All, get_elem?,
  length, ◌∙◌, suc, zero,
}
use vecoda.Script.{Script}
use vecoda.Backend.{VirtualMachine, Objects, Backend, alter, for_vms, get_vm}
use vecoda.Backend.Vms.Linked.{IsLinked, Holds}
use vecoda.Backend.Scripts.Index.{IsIndexed}
use vecoda.Backend.Breakpoints.Machines.{At-alter, At-for_vms}
use vecoda.Backend.Breakpoints.Flags.{IsFlagged}
use vecoda.Backend.Commands.{Command, Request, on_state, answered}

pub get_elem?-there :
    (ss : List Script) (i : ℕ) → i < length ss → (script : Script) × (get_elem? ss i ≡ some script)
get_elem?-there [] i h = ground arith
get_elem?-there (s ∷ ss) zero h = (s, refl)
get_elem?-there (s ∷ ss) (suc i) h = get_elem?-there ss i (omega arith)

-- A change of the machines that leaves each its state.
abbrev pub Keeps : Objects → Objects → Type 0
Keeps a b = (k p : ℕ) → Holds a (k, p) → Holds b (k, p)

All-Holds : (a b : Objects) → Keeps a b → (m : List (ℕ × ℕ)) → All (Holds a) m → All (Holds b) m
All-Holds a b keeps [] h = tt
All-Holds a b keeps ((k, p) ∷ m) h = (keeps k p h.0, All-Holds a b keeps m h.1)

module _ {H : Type 0} where
  pub relinked :
      (s t : Backend H)
      → t.vms ≡ s.vms
      → t.state_to_vm ≡ s.state_to_vm
      → t.next_object ≡ s.next_object
      → Keeps s.objects t.objects
      → IsLinked s
      → IsLinked t
  relinked s t vms states next keeps v = record {
    paired = rw (vms, states) v.paired;
    distinct = rw states v.distinct;
    live = rw states (All-Holds s.objects t.objects keeps s.state_to_vm v.live);
    fresh = rw (states, next) v.fresh;
  }

pub alter-Keeps :
    (f : VirtualMachine → VirtualMachine)
    → ((vm : VirtualMachine) → (f vm).l ≡ vm.l)
    → (q : ℕ) (objects : Objects) → Keeps objects (alter f q objects)
alter-Keeps f same q objects k p h =
    At-alter (λ vm. vm.l ≡ k) (λ vm. vm.l ≡ k) f (λ vm e. same vm ∙ e) (λ vm e. e) objects q p h

pub for_vms-Keeps :
    (f : VirtualMachine → VirtualMachine)
    → ((vm : VirtualMachine) → (f vm).l ≡ vm.l)
    → (m : List (ℕ × ℕ)) (objects : Objects) → Keeps objects (for_vms f m objects)
for_vms-Keeps f same m objects k p h =
    At-for_vms (λ vm. vm.l ≡ k) f (λ vm e. same vm ∙ e) m objects p h

-- What the backend may rely on: the machines are in step, names lead to scripts that are there,
-- and each machine's flag says whether there is a breakpoint.
pub record IsSound {H : Type 0} (s : Backend H) : Type 0 where
  pub linked : IsLinked s
  pub indexed : IsIndexed s
  pub flagged : IsFlagged s

-- The names that a command goes by: a stepping command needs the machine of its state, and a
-- breakpoint a script that is there.
abbrev pub Admits : {H : Type 0} → Backend H → Request → Type 0
Admits s (on_state l Command.delete_all_breakpoints) = Unit
Admits s (on_state l Command.load_done) = Unit
Admits s (on_state l (Command.toggle_breakpoint index line)) = index < length s.scripts
Admits s (on_state l (Command.evaluate request expression level)) = Unit
Admits s (on_state l (Command.expand_table request scope level reference)) = Unit
Admits s (on_state l stepping) = (p : ℕ) × (get_vm s l ≡ some p)
Admits s other = Unit

-- An evaluation, or an expansion of a table, comes back with an answer.
abbrev pub IsAnswered : (Command → Option (Bool × Text)) → Request → Type 0
IsAnswered answer (on_state l (Command.evaluate request expression level)) =
    (a : Bool × Text) × (answer (Command.evaluate request expression level) ≡ some a)
IsAnswered answer (on_state l (Command.expand_table request scope level reference)) =
    (a : Bool × Text) × (answer (Command.expand_table request scope level reference) ≡ some a)
IsAnswered answer other = Unit

pub answered-some :
    (api : Option ℕ) (o : Option (Bool × Text)) (a : Bool × Text)
    → o ≡ some a
    → (b : Bool × Text) × (answered api o ≡ some b)
answered-some none o a e = ((false, []), refl)
answered-some (some api) o a e = (a, e)
