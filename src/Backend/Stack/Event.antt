-- ===== src/Backend/Stack/Event.antt =====
-- `SendBreakEvent` sends its event where the stack fits.
use vecoda.Base.{
  ℕ, zero, suc, ◌+◌, ◌≤◌, ◌≡◌, refl, Bool, true, ◌&&◌, List, [], ◌∷◌, ◌++◌, Option, none, some, ap,
  take, drop, leb, length, arith,
}
use mathlib.Core.Option
use vecoda.Protocol.{BreakReason}
use vecoda.LuaDll.{LuaInterface, LuaDebug}
use vecoda.Backend.{Backend, get_vm, write, modify}
use vecoda.Backend.Stack.{
  StackEntry, max_stack_size, break_fields, send_break, send_break_event, get_unified_stack,
  in_array, fits, are_terminated, names_fit,
}
use vecoda.Backend.Stack.Bounds.{get_unified_stack-length}
use vecoda.Backend.Stack.Names.{
  none_terminated, get_unified_stack-terminated, names_fit-take, names_fit-drop,
}

leb-≤ : (a b : ℕ) → leb a b ≡ true → a ≤ b
leb-≤ a b h = ground (arith, h)

≤-leb : (a b : ℕ) → a ≤ b → leb a b ≡ true
≤-leb a b h = ground (arith, h)

length-take-suc :
    {A : Type 0} (k : ℕ) (xs : List A) → length (take (suc k) xs) ≤ suc (length (take k xs))
length-take-suc zero [] = omega arith
length-take-suc zero (x ∷ xs) = omega arith
length-take-suc (suc k) [] = omega arith
length-take-suc (suc k) (x ∷ xs) = omega (arith, length-take-suc k xs)

length-take-drop :
    {A : Type 0} (k n : ℕ) (xs : List A) → length (take k (drop n xs)) ≤ length (take k xs)
length-take-drop zero n xs = omega arith
length-take-drop (suc k) zero xs = omega arith
length-take-drop (suc k) (suc n) [] = omega arith
length-take-drop (suc k) (suc n) (x ∷ xs) =
    omega (arith, length-take-drop (suc k) n xs, length-take-suc k xs)

split : (a b : Bool) → (a && b) ≡ true → (a ≡ true) × (b ≡ true)
split a b h = (ground arith, ground arith)

pub no_native :
    (face : LuaInterface) (native : List StackEntry) (frames : List LuaDebug)
    → fits face native frames ≡ true
    → fits face [] frames ≡ true
no_native face native frames h =
    let n = length (take max_stack_size frames) in
    let (room, names) =
      split (leb (length native + n) max_stack_size)
        (are_terminated native && names_fit face frames) h in
    let less : leb (0 + n) max_stack_size ≡ true =
      ≤-leb (0 + n) max_stack_size (omega (arith, leb-≤ (length native + n) max_stack_size room)) in
    rw (less, none_terminated) ((split (are_terminated native) (names_fit face frames) names).1)

-- Where there is room for the native and the script stack, what is written of them is in the array.
pub written :
    {H : Type 0} (face : LuaInterface) (s : Backend H) (native : List StackEntry)
    (frames : List LuaDebug) (top : ℕ)
    → fits face native frames ≡ true
    → (stack : List StackEntry) × (Option.bind
          (get_unified_stack face s native (take max_stack_size (drop top frames)))
          in_array
        ≡ some stack)
unfolding in_array Option.bind
written face s native frames top h =
    let (room, names) =
      split (leb (length native + length (take max_stack_size frames)) max_stack_size)
        (are_terminated native && names_fit face frames) h in
    let (own, script) = split (are_terminated native) (names_fit face frames) names in
    let (stack, e, le) =
      get_unified_stack-length face s native (take max_stack_size (drop top frames)) in
    let inside : leb (length stack) max_stack_size ≡ true = ≤-leb (length stack) max_stack_size (
      omega (
        arith,
        leb-≤ (length native + length (take max_stack_size frames)) max_stack_size room,
        le,
        length-take-drop max_stack_size top frames,
      )) in
    let ended : are_terminated stack ≡ true =
      get_unified_stack-terminated face s native (take max_stack_size (drop top frames)) stack own
        (names_fit-take face max_stack_size (drop top frames)
          (names_fit-drop face top frames script))
        e in
    (stack, rw (e, inside, ended) refl)

module _ {H : Type 0} (face : LuaInterface) (l : ℕ) (native : List StackEntry) where
  -- One break event is appended to what was sent, and no script and no map is touched.
  abbrev pub Sends : BreakReason → Backend H → Option (Backend H) → Type 0
  Sends reason s r =
      (u : Backend H) × (r ≡ some u)
      × ((stack : List StackEntry) × (u.sent ≡ s.sent ++ break_fields l reason stack))
      × (u.scripts ≡ s.scripts)
      × (u.state_to_vm ≡ s.state_to_vm)

  module _ (reason : BreakReason) (top : ℕ) (frames : List LuaDebug) (s : Backend H)
      (room : fits face native frames ≡ true) where
    sends : (vm : Option ℕ) → Sends reason s (send_break face l native vm reason top frames s)
    unfolding send_break
    sends none =
        let (stack, e) = written face s [] frames 0 (no_native face native frames room) in
        (write s (break_fields l reason stack), ap (Option.map _) e, (stack, refl), refl, refl)
    sends (some p) =
        let (stack, e) = written face s native frames top room in
        (
          write (modify s p (λ vm. record vm { stack_top = top })) (break_fields l reason stack),
          ap (Option.map _) e,
          (stack, refl),
          refl,
          refl,
        )

    -- Whatever the reason and the frames, with a machine for the state or without one, sending a
    -- break event succeeds where the array has room for the stack: it appends that one event, with the
    -- stack, and touches no script and not the map of machines.
    pub send_break_event-Sends : Sends reason s (send_break_event face l native reason top frames s)
    unfolding send_break_event
    send_break_event-Sends = sends (get_vm s l)
