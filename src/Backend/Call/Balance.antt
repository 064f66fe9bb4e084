-- ===== src/Backend/Call/Balance.antt =====
-- What `Call` leaves on the stack.
use mathlib.Core.List.{append_assoc}
use vecoda.Base.{
  ℕ, suc, ◌+◌, ◌-◌, ◌≡◌, refl, true, false, List, [], ◌∷◌, ◌++◌, some, if◌then◌else◌, length,
  length-append, leb, inl, inr, ◌⊎◌, arith, ap, sym, ◌∙◌,
}
use vecoda.LuaDll.Functions.{Symbols, Loaded, CreateHook, load_lua_functions, hooks_made}
use vecoda.LuaDll.Functions.Safe.{load_lua_functions-Safe}
use vecoda.LuaDll.Stack.{ℤ, pos, negsuc, value_at, LuaStack, lua_pushvalue_dll, lua_pushnil_dll}
use vecoda.LuaDll.Stack.Moves.{
  IsUsable, lua_gettop_dll-length, lua_insert_dll-stack, lua_remove_dll-stack,
  lua_pushvalue_dll-stack, lua_pushnil_dll-stack, lua_pushcclosure_dll-stack,
  lua_tocfunction_dll-some, lua_pcall_dll-some,
}
use vecoda.Backend.Call.{is_zero, is_handler, is_ours, call_handled, call}

module _ {S V : Type 0} (lua : LuaStack S V) (static_error_handler : ℕ) where
  open lua use {stack, nil, closure, pcall}

  -- The error function of a call: none, which the handler sees as nil, or the value at an index.
  abbrev pub ErrorFunction : List V → ℤ → V → Type 0
  ErrorFunction xs errorfunc v =
      ((errorfunc ≡ pos 0) × (v ≡ nil))
      ⊎ ((is_zero errorfunc ≡ false) × (value_at xs errorfunc ≡ some v))

  -- The function ran on a stack with the debugger's handler below it, for the error function `v`, and
  -- what it left is on the stack in place of the function and its arguments.
  abbrev pub Runs : List V → V → List V → V → ℤ → ℕ → List V → Type 0
  Runs below f args v nresults code results =
      (ready : S) × (stack ready ≡ below ++ closure static_error_handler v ∷ f ∷ args)
      × ((pcall ready (length args) nresults (pos (suc (length below)))).0 ≡ code)
      × (stack (pcall ready (length args) nresults (pos (suc (length below)))).1
          ≡ below ++ closure static_error_handler v ∷ results)

  module _ (l : Loaded) (u : IsUsable l) where
    pushed_error :
        (s : S) (errorfunc : ℤ) (v : V)
        → ErrorFunction (stack s) errorfunc v
        → (t : S) × ((if is_zero errorfunc
              then lua_pushnil_dll lua l s
              else lua_pushvalue_dll lua l s errorfunc)
            ≡ some t)
          × (stack t ≡ stack s ++ v ∷ [])
    unfolding is_zero
    pushed_error s errorfunc v (inl (none_given, is_nil)) =
        let (t, e, st) = lua_pushnil_dll-stack lua l u s in (t, rw none_given e, rw is_nil st)
    pushed_error s errorfunc v (inr (given, there)) =
        let (t, e, st) = lua_pushvalue_dll-stack lua l u s errorfunc v there in (t, rw given e, st)

    call_handled-Runs :
        (s : S) (below args : List V) (f v : V) (nresults errorfunc : ℤ)
        → stack s ≡ below ++ f ∷ args
        → ErrorFunction (stack s) errorfunc v
        → (code : ℕ) × (left : S) × (results : List V) × (call_handled lua l static_error_handler s
              (length args)
              nresults
              errorfunc
            ≡ some (code, left))
          × (stack left ≡ below ++ results)
          × Runs below f args v nresults code results
    unfolding call_handled
    call_handled-Runs s below args f v nresults errorfunc e given =
        let (pushed, e1, st1) = pushed_error s errorfunc v given in
        let (closed, e2, st2) =
          lua_pushcclosure_dll-stack lua l u pushed static_error_handler (stack s) v st1 in
        let h = closure static_error_handler v in
        let split : stack closed ≡ below ++ ((f ∷ args) ++ h ∷ []) =
          st2 ∙ ap (λ xs. xs ++ h ∷ []) e ∙ append_assoc below (f ∷ args) (h ∷ []) in
        let (ready, e3, st3) = lua_insert_dll-stack lua l u closed below (f ∷ args) h split in
        let at : length (stack closed) - (length args + 1) ≡ suc (length below) = omega (
          arith,
          ap length split,
          length-append below ((f ∷ args) ++ h ∷ []),
          length-append (f ∷ args) (h ∷ []),
        ) in
        let i = pos (suc (length below)) in
        let ran = pcall ready (length args) nresults i in
        let (results, st4) =
          lua.pcall-stack ready (below ++ h ∷ []) args f nresults i
            (st3 ∙ sym (append_assoc below (h ∷ []) (f ∷ args))) in
        let st5 = st4 ∙ append_assoc below (h ∷ []) results in
        let (left, e6, st6) = lua_remove_dll-stack lua l u ran.1 below results h st5 in
        (
          ran.0,
          left,
          results,
          rw
              (
                call_handled,
                e1,
                e2,
                lua_gettop_dll-length lua l u closed,
                at,
                e3,
                lua_pcall_dll-some lua l u ready (length args) nresults i,
                e6,
              )
              refl,
          st6,
          (ready, st3, refl, st5),
        )

    not_ours :
        (s : S) (errorfunc : ℤ) (top v : V)
        → value_at (stack s) (negsuc 0) ≡ some top
        → is_handler static_error_handler (lua.function_of top) ≡ false
        → ErrorFunction (stack s) errorfunc v
        → is_handler static_error_handler (lua.function_of v) ≡ false
        → is_ours lua l static_error_handler s errorfunc ≡ some false
    unfolding is_ours is_zero
    not_ours s errorfunc top v there foreign (inl (none_given, is_nil)) other =
        rw (is_ours, lua_tocfunction_dll-some lua l u s (negsuc 0) top there, foreign, none_given)
          refl
    not_ours s errorfunc top v there foreign (inr (given, at_v)) other =
        rw
          (
            is_ours,
            lua_tocfunction_dll-some lua l u s (negsuc 0) top there,
            foreign,
            given,
            lua_tocfunction_dll-some lua l u s errorfunc v at_v,
            other,
          )
          refl

  -- After `LoadLuaFunctions`, which was given each hook it asked for, `Call` of a function with its arguments on top of the stack, neither of
  -- which is the debugger's error handler, comes back with no null pointer: the function ran with the
  -- handler below it, which has the error function of the call, and the code is that of this run;
  -- what it left stands where the function stood, all below is as it was, and the handler is gone.
  pub call-Runs :
      (hook : CreateHook) (symbols : Symbols) (l : Loaded) (s : S) (below args : List V)
      (f top v : V) (nresults errorfunc : ℤ)
      → load_lua_functions hook symbols ≡ some l
      → hooks_made hook symbols ≡ true
      → stack s ≡ below ++ f ∷ args
      → value_at (stack s) (negsuc 0) ≡ some top
      → is_handler static_error_handler (lua.function_of top) ≡ false
      → ErrorFunction (stack s) errorfunc v
      → is_handler static_error_handler (lua.function_of v) ≡ false
      → (code : ℕ) × (left : S) × (results : List V) × (call lua l static_error_handler s
            (length args)
            nresults
            errorfunc
          ≡ some (code, left))
        × (stack left ≡ below ++ results)
        × Runs below f args v nresults code results
  unfolding call
  call-Runs hook symbols l s below args f top v nresults errorfunc loaded made e there foreign given
        other =
      let u = load_lua_functions-Safe hook symbols l loaded made in
      let (code, left, results, ran, st, rest) =
        call_handled-Runs l u s below args f v nresults errorfunc e given in
      let room : leb (length args + 1) (length (stack s)) ≡ true =
        ground (arith, ap length e, length-append below (f ∷ args)) in
      (
        code,
        left,
        results,
        rw
            (
              call,
              not_ours l u s errorfunc top v there foreign given other,
              lua_gettop_dll-length lua l u s,
              room,
            )
            ran,
        st,
        rest,
      )
