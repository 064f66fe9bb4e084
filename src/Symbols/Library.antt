-- ===== src/Symbols/Library.antt =====
-- What PostLoadLibrary leaves.
use vecoda.Base.{◌≢◌, List, All}
use vecoda.LuaDll.Functions.{Loaded}
use vecoda.LuaDll.Functions.Calls.{wrappers, callee, null_call}

-- No function of an interface that the debugger calls goes through a null pointer.
abbrev pub AreSafe : List Loaded → Type 0
AreSafe interfaces = All (λ l. All (λ f. callee l f ≢ null_call) wrappers) interfaces
