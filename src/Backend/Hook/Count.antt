-- ===== src/Backend/Hook/Count.antt =====
-- Stepping over and out of functions by counting calls and returns.
use vecoda.Base.{
  ℕ, zero, suc, ◌+◌, ◌<◌, ◌≡◌, refl, ◌≢◌, true, false, List, [], ◌∷◌, ◌++◌, Option, none, some,
  ◌==◌, if◌then◌else◌, arith, replicate, ==_refl, ap, ◌∙◌,
}
use mathlib.Core.List.{append_assoc}
use vecoda.LuaDll.{
  LuaInterface, hook_call, hook_ret, hook_line, get_is_hook_event_ret, get_is_hook_event_call,
}
use vecoda.Backend.{step_over, step_out, VirtualMachine}
use vecoda.Backend.Hook.Callback.{steps_here, count_call, counts}

-- What a function does, as Lua reports it: a new line, or a call of another function up to its
-- return.
pub data Body : Type 0 where
  end : Body
  line : Body → Body
  call : Body → Body → Body

abbrev pub events : Body → List ℕ
events end = []
events (line rest) = hook_line ∷ events rest
events (call inner rest) = hook_call ∷ (events inner ++ (hook_ret ∷ events rest))

-- The machine once the events are over; `none` if one of the lines was a stop of the step.
unfoldable pub passes : LuaInterface → List ℕ → VirtualMachine → Option VirtualMachine
passes face [] vm = some vm
passes face (e ∷ es) vm =
    let on = passes face es vm in
    let counted = passes face es (count_call face e vm) in
    if e == hook_line then (if steps_here vm.mode vm.call_count then none else on) else counted

-- No event number of the library is also that of a plain call, return or line.
abbrev pub IsPlain : LuaInterface → Type 0
IsPlain face =
    (face.hook_tail_call ≢ hook_ret)
    × (face.hook_tail_ret ≢ hook_call)
    × (face.hook_tail_call ≢ hook_line)
    × (face.hook_tail_ret ≢ hook_line)

module _ (face : LuaInterface) (plain : IsPlain face) where
  count_call_in :
      (vm : VirtualMachine)
      → counts vm.mode ≡ true
      → count_call face hook_call vm ≡ record vm { call_count = vm.call_count + 1 }
  unfolding count_call get_is_hook_event_ret get_is_hook_event_call
  count_call_in vm m = ground arith

  count_ret_out :
      (vm : VirtualMachine)
      → counts vm.mode ≡ true
      → count_call face hook_ret (record vm { call_count = vm.call_count + 1 }) ≡ vm
  unfolding count_call get_is_hook_event_ret
  count_ret_out vm m = ground arith

  waits :
      (vm : VirtualMachine)
      → counts vm.mode ≡ true
      → 0 < vm.call_count
      → steps_here vm.mode vm.call_count ≡ false
  unfolding steps_here
  waits vm m c = ground arith

  -- Inside a call the count is not 0, so its lines do not stop, and it is left as it was found.
  passes_body :
      (b : Body) (rest : List ℕ) (vm : VirtualMachine)
      → counts vm.mode ≡ true
      → 0 < vm.call_count
      → passes face (events b ++ rest) vm ≡ passes face rest vm
  unfolding passes
  passes_body end rest vm m c = refl
  passes_body (line b) rest vm m c = rw (waits vm m c) (passes_body b rest vm m c)
  passes_body (call inner b) rest vm m c =
      rw
        (
          append_assoc (events inner) (hook_ret ∷ events b) rest,
          count_call_in vm m,
          passes_body inner (hook_ret ∷ (events b ++ rest))
              (record vm { call_count = vm.call_count + 1 }) m (omega arith),
          count_ret_out vm m,
        )
        (passes_body b rest vm m c)

  stops_at_zero :
      (vm : VirtualMachine)
      → counts vm.mode ≡ true
      → vm.call_count ≡ 0
      → steps_here vm.mode vm.call_count ≡ true
  unfolding steps_here
  stops_at_zero vm m c = ground arith

  last_return :
      (k : ℕ) (vm : VirtualMachine)
      → counts vm.mode ≡ true
      → vm.call_count ≡ suc k
      → count_call face hook_ret vm ≡ record vm { call_count = k }
  unfolding count_call get_is_hook_event_ret
  last_return k vm m c = ground arith

  -- Stepping over: from a stop, a call made by the function, with all that it calls, is passed
  -- without a stop, and the next line of the function is one. `plain` says that the library's tail
  -- events have numbers of their own.
  pub step_over-passes-call :
      (b : Body) (rest : List ℕ) (vm : VirtualMachine)
      → vm.mode ≡ step_over
      → vm.call_count ≡ 0
      → (passes face (events (call b end)) vm ≡ some vm)
        × (passes face (events (call b (line end)) ++ rest) vm ≡ none)
  unfolding passes
  step_over-passes-call b rest vm m c =
      let counting : counts vm.mode ≡ true = rw m in
      let inside = record vm { call_count = vm.call_count + 1 } in
      (
        rw (
          count_call_in vm counting,
          passes_body b (hook_ret ∷ []) inside counting (omega arith),
          count_ret_out vm counting,
        ),
        rw (
          append_assoc (events b) (hook_ret ∷ hook_line ∷ []) rest,
          count_call_in vm counting,
          passes_body b (hook_ret ∷ hook_line ∷ rest) inside counting (omega arith),
          count_ret_out vm counting,
          stops_at_zero vm counting c,
        ),
      )

  -- Stepping out: from the count 1, the rest of the function, with all that it calls, is passed
  -- without a stop up to its return, and the next line of its caller is one.
  pub step_out-passes_return :
      (b : Body) (rest : List ℕ) (vm : VirtualMachine)
      → vm.mode ≡ step_out
      → vm.call_count ≡ 1
      → (passes face (events b ++ (hook_ret ∷ [])) vm ≡ some (record vm { call_count = 0 }))
        × (passes face (events b ++ (hook_ret ∷ hook_line ∷ rest)) vm ≡ none)
  unfolding passes
  step_out-passes_return b rest vm m c =
      let counting : counts vm.mode ≡ true = rw m in
      (
        rw (passes_body b (hook_ret ∷ []) vm counting (omega arith), last_return 0 vm counting c),
        rw (
          passes_body b (hook_ret ∷ hook_line ∷ rest) vm counting (omega arith),
          last_return 0 vm counting c,
          stops_at_zero (record vm { call_count = 0 }) counting refl,
        ),
      )

  -- A library that has tail calls.
  module _ (own : face.hook_tail_call ≢ face.hook_tail_ret) where
    tail_call_in :
        (rest : List ℕ) (vm : VirtualMachine)
        → counts vm.mode ≡ true
        → passes face (face.hook_tail_call ∷ rest) vm
          ≡ passes face rest (record vm { call_count = vm.call_count + 1 })
    unfolding passes count_call get_is_hook_event_ret get_is_hook_event_call
    tail_call_in rest vm m =
        let other : (face.hook_tail_call == hook_line) ≡ false = ground arith in
        let no_ret : (face.hook_tail_call == hook_ret) ≡ false = ground arith in
        let no_tail_ret : (face.hook_tail_call == face.hook_tail_ret) ≡ false = ground arith in
        rw (other, m, no_ret, no_tail_ret, ==_refl face.hook_tail_call)
          (ap (passes face rest) (ground arith))

    tail_calls :
        (n : ℕ) (rest : List ℕ) (vm : VirtualMachine)
        → counts vm.mode ≡ true
        → passes face (replicate n face.hook_tail_call ++ rest) vm
          ≡ passes face rest (record vm { call_count = vm.call_count + n })
    tail_calls zero rest vm m = ap (passes face rest) (ground arith)
    tail_calls (suc n) rest vm m =
        tail_call_in (replicate n face.hook_tail_call ++ rest) vm m
        ∙ tail_calls n rest (record vm { call_count = vm.call_count + 1 }) m
        ∙ ap (passes face rest) (ground arith)

    -- The defect of the counting: a tail call, which has no return of its own in Lua 5.2 and later,
    -- is counted like a call. A step over a call that ends in tail calls leaves that many calls
    -- open, and the next line of the function that was stepped in is no stop.
    pub step_over_misses_tail_call :
        (n : ℕ) (vm : VirtualMachine)
        → vm.mode ≡ step_over
        → vm.call_count ≡ 0
        → passes face
            (hook_call ∷ (replicate (suc n) face.hook_tail_call ++ (hook_ret ∷ hook_line ∷ [])))
            vm
          ≡ some (record vm { call_count = suc n })
    unfolding passes
    step_over_misses_tail_call n vm m c =
        let counting : counts vm.mode ≡ true = rw m in
        rw (
          count_call_in vm counting,
          tail_calls (suc n) (hook_ret ∷ hook_line ∷ [])
              (record vm { call_count = vm.call_count + 1 }) counting,
          last_return (suc n) (record vm { call_count = vm.call_count + 1 + suc n }) counting
              (omega arith),
          waits (record vm { call_count = suc n }) counting (omega arith),
        )
