-- ===== src/Backend/Commands/Reads.antt =====
-- How `CommandThreadProc` of DebugBackend.cpp reads a command from its channel.
use vecoda.Base.{
  ℕ, ◌≡◌, refl, true, false, List, [], ◌∷◌, Option, none, some, ◌==◌, if◌then◌else◌, All, map, ap,
  sym, ◌∙◌,
}
use mathlib.Core.Option
use mathlib.Core.Path.{subst}
use vecoda.Protocol
use vecoda.Backend.{Field, uint32, uint, string}
use vecoda.Backend.Breakpoints.{bool_code}
use vecoda.Backend.Commands.{Command, Request, detach, ignore_exception, on_state}
use vecoda.Wire.{
  Transport, Kind, a_uint32, a_uint, a_string, kind_of, read_uint32, read_fields, write_fields,
}
use vecoda.Wire.RoundTrip.{Fits, read_uint32-Carries, read_fields-Carries, write_fields-Carries}

-- What a round of the loop reads: a request, or the number of a command that it passes over, or an
-- end of the channel, at which the loop is left.
pub data Decoded : Type 0 where
  request : Request → Decoded
  unknown : ℕ → Decoded
  at_end : Decoded

-- What is read behind the number of a command, in this order; the state first, but for two commands.
unfoldable pub arguments : ℕ → List Kind
arguments n =
    if n == Protocol.command_detach
    then a_uint32 ∷ []
    else (if n == Protocol.command_ignore_exception
        then a_string ∷ []
        else (if n == Protocol.command_toggle_breakpoint
            then a_uint ∷ a_uint32 ∷ a_uint32 ∷ []
            else (if n == Protocol.command_evaluate
                then a_uint ∷ a_uint32 ∷ a_string ∷ a_uint32 ∷ []
                else (if n == Protocol.command_expand_table
                    then a_uint ∷ a_uint32 ∷ a_uint32 ∷ a_uint32 ∷ a_uint32 ∷ []
                    else a_uint ∷ []))))

-- The commands with a state and nothing else.
unfoldable pub plain : ℕ → ℕ → Decoded
plain n l =
    if n == Protocol.command_continue
    then request (on_state l Command.continue)
    else (if n == Protocol.command_step_over
        then request (on_state l Command.step_over)
        else (if n == Protocol.command_step_into
            then request (on_state l Command.step_into)
            else (if n == Protocol.command_step_out
                then request (on_state l Command.step_out)
                else (if n == Protocol.command_delete_all_breakpoints
                    then request (on_state l Command.delete_all_breakpoints)
                    else (if n == Protocol.command_break
                        then request (on_state l Command.break)
                        else (if n == Protocol.command_load_done
                            then request (on_state l Command.load_done)
                            else unknown n))))))

-- The request, from the values that were read for `arguments n`.
unfoldable pub decode : ℕ → List Field → Decoded
unfolding plain
decode n (uint32 running ∷ []) = request (detach (if running == 0 then false else true))
decode n (string text ∷ []) = request (ignore_exception text)
decode n (uint l ∷ []) = plain n l
decode n (uint l ∷ uint32 index ∷ uint32 line ∷ []) =
    request (on_state l (Command.toggle_breakpoint index line))
decode n (uint l ∷ uint32 id ∷ string expression ∷ uint32 level ∷ []) =
    request (on_state l (Command.evaluate id expression level))
decode n (uint l ∷ uint32 id ∷ uint32 scope ∷ uint32 level ∷ uint32 reference ∷ []) =
    request (on_state l (Command.expand_table id scope level reference))
decode n other = unknown n

module _ {C : Type 0} (io : Transport C) (size : ℕ) where
  -- `none` where a read behind the number fails, since its variable is used without a value.
  unfoldable pub read_request : C → C × Option Decoded
  unfolding arguments decode read_uint32 read_fields
  read_request c =
      let (d, id) = read_uint32 io size c in
      elim id [
        | none ↦ (d, some at_end)
        | some n ↦
            let (e, fields) = read_fields io size d (arguments n) in
            (e, Option.map (decode n) fields)
      ]

-- The number of a request, and what the front end writes behind it.
abbrev number : Request → ℕ
number (detach running) = Protocol.command_detach
number (ignore_exception text) = Protocol.command_ignore_exception
number (on_state l Command.continue) = Protocol.command_continue
number (on_state l Command.step_over) = Protocol.command_step_over
number (on_state l Command.step_into) = Protocol.command_step_into
number (on_state l Command.step_out) = Protocol.command_step_out
number (on_state l Command.delete_all_breakpoints) = Protocol.command_delete_all_breakpoints
number (on_state l Command.break) = Protocol.command_break
number (on_state l Command.load_done) = Protocol.command_load_done
number (on_state l (Command.toggle_breakpoint index line)) = Protocol.command_toggle_breakpoint
number (on_state l (Command.evaluate id expression level)) = Protocol.command_evaluate
number (on_state l (Command.expand_table id scope level reference)) = Protocol.command_expand_table

abbrev values : Request → List Field
values (detach running) = uint32 (bool_code running) ∷ []
values (ignore_exception text) = string text ∷ []
values (on_state l (Command.toggle_breakpoint index line)) =
    uint l ∷ uint32 index ∷ uint32 line ∷ []
values (on_state l (Command.evaluate id expression level)) =
    uint l ∷ uint32 id ∷ string expression ∷ uint32 level ∷ []
values (on_state l (Command.expand_table id scope level reference)) =
    uint l ∷ uint32 id ∷ uint32 scope ∷ uint32 level ∷ uint32 reference ∷ []
values (on_state l other) = uint l ∷ []

abbrev pub fields_of : Request → List Field
fields_of r = uint32 (number r) ∷ values r

arguments-number : (r : Request) → arguments (number r) ≡ map kind_of (values r)
unfolding arguments
arguments-number (detach running) = refl
arguments-number (ignore_exception text) = refl
arguments-number (on_state l Command.continue) = refl
arguments-number (on_state l Command.step_over) = refl
arguments-number (on_state l Command.step_into) = refl
arguments-number (on_state l Command.step_out) = refl
arguments-number (on_state l Command.delete_all_breakpoints) = refl
arguments-number (on_state l Command.break) = refl
arguments-number (on_state l Command.load_done) = refl
arguments-number (on_state l (Command.toggle_breakpoint index line)) = refl
arguments-number (on_state l (Command.evaluate id expression level)) = refl
arguments-number (on_state l (Command.expand_table id scope level reference)) = refl

decode-number : (r : Request) → decode (number r) (values r) ≡ request r
unfolding decode plain
decode-number (detach true) = refl
decode-number (detach false) = refl
decode-number (ignore_exception text) = refl
decode-number (on_state l Command.continue) = refl
decode-number (on_state l Command.step_over) = refl
decode-number (on_state l Command.step_into) = refl
decode-number (on_state l Command.step_out) = refl
decode-number (on_state l Command.delete_all_breakpoints) = refl
decode-number (on_state l Command.break) = refl
decode-number (on_state l Command.load_done) = refl
decode-number (on_state l (Command.toggle_breakpoint index line)) = refl
decode-number (on_state l (Command.evaluate id expression level)) = refl
decode-number (on_state l (Command.expand_table id scope level reference)) = refl

module _ {C : Type 0} (io : Transport C) (size : ℕ) where
  open io use {Carries}

  -- A request that the front end writes to a channel with nothing left to read, as its number and its
  -- values, is read by the command thread as the request that it was. The values fit their fields.
  pub read_request-write_fields :
      (r : Request) (c : C)
      → All (Fits size) (fields_of r)
      → Carries c []
      → (read_request io size (write_fields io size c (fields_of r))).1 ≡ some (request r)
  unfolding read_request
  read_request-write_fields r c v k =
      let d = write_fields io size c (fields_of r) in
      let (id, left) =
        read_uint32-Carries io size d (number r) _ v.0
          (write_fields-Carries io size c (fields_of r) [] v k) in
      let behind : C = (read_uint32 io size d).0 in
      let values_read : (read_fields io size behind (arguments (number r))).1 ≡ some (values r) =
        subst (λ ks. (read_fields io size behind ks).1 ≡ some (values r)) (sym (arguments-number r))
          (read_fields-Carries io size behind (values r) v.1 left) in
      rw (id, read_request)
        (ap (Option.map (decode (number r))) values_read ∙ ap some (decode-number r))
