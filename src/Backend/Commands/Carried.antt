-- ===== src/Backend/Commands/Carried.antt =====
-- A command that was carried out, though it may be one that need not come back.
use vecoda.Base.{◌≡◌, Bool, List, Option, none, some, Text, sym, ◌∙◌, refl}
use mathlib.Core.Option
use mathlib.Core.Path.{subst}
use vecoda.LuaDll.{LuaHooks}
use vecoda.Backend.{Backend, Field, write}
use vecoda.Backend.Commands.{
  Command, Request, on_command, on_request, detach, ignore_exception, on_state,
}
use vecoda.Backend.Commands.Keeps.{IsSound, Admits, IsAnswered}
use vecoda.Backend.Commands.Sound.{answered-Follows, on_request-Follows}

module _ {H : Type 0} ⦃lua : LuaHooks H⦄ (answer : Command → Option (Bool × Text)) where
  answered-IsSound :
      (s t : Backend H) (f : Bool × Text → List Field) (o : Option (Bool × Text))
      → IsSound s
      → Option.map (λ x. write s (f x)) o ≡ some t
      → IsSound t
  answered-IsSound s t f none v e = absurd (Option.some-ne-none t (sym e))
  answered-IsSound s t f (some a) v e =
      let (u, made, w, _, _) = answered-Follows answer s f (some a) a v refl in
      subst IsSound (Option.some-injective u t (sym made ∙ e)) w

  made-IsSound :
      (r : Request) (s t : Backend H)
      → IsSound s
      → Admits s r
      → IsAnswered answer r
      → on_request answer r s ≡ some t
      → IsSound t
  made-IsSound r s t v a given e =
      let (u, made, w, _, _) = on_request-Follows answer r s v a given in
      subst IsSound (Option.some-injective u t (sym made ∙ e)) w

  pub on_request-IsSound :
      (r : Request) (s t : Backend H)
      → IsSound s
      → Admits s r
      → on_request answer r s ≡ some t
      → IsSound t
  unfolding on_request on_command
  on_request-IsSound (on_state l (Command.evaluate request expression level)) s t v a e =
      answered-IsSound s t _ _ v e
  on_request-IsSound (on_state l (Command.expand_table request scope level reference)) s t v a e =
      answered-IsSound s t _ _ v e
  on_request-IsSound (detach go) s t v a e = made-IsSound (detach go) s t v a tt e
  on_request-IsSound (ignore_exception text) s t v a e =
      made-IsSound (ignore_exception text) s t v a tt e
  on_request-IsSound (on_state l Command.continue) s t v a e =
      made-IsSound (on_state l Command.continue) s t v a tt e
  on_request-IsSound (on_state l Command.step_over) s t v a e =
      made-IsSound (on_state l Command.step_over) s t v a tt e
  on_request-IsSound (on_state l Command.step_into) s t v a e =
      made-IsSound (on_state l Command.step_into) s t v a tt e
  on_request-IsSound (on_state l Command.step_out) s t v a e =
      made-IsSound (on_state l Command.step_out) s t v a tt e
  on_request-IsSound (on_state l Command.delete_all_breakpoints) s t v a e =
      made-IsSound (on_state l Command.delete_all_breakpoints) s t v a tt e
  on_request-IsSound (on_state l Command.break) s t v a e =
      made-IsSound (on_state l Command.break) s t v a tt e
  on_request-IsSound (on_state l Command.load_done) s t v a e =
      made-IsSound (on_state l Command.load_done) s t v a tt e
  on_request-IsSound (on_state l (Command.toggle_breakpoint index line)) s t v a e =
      made-IsSound (on_state l (Command.toggle_breakpoint index line)) s t v a tt e
