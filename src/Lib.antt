-- ===== src/Lib.antt =====
-- vecoda: a debugger for Lua programs. The library LuaInject, loaded into the debugged process,
-- hooks the Lua library there (LuaInject/LuaInject); the launcher attaches it and carries its
-- messages (launcher/launcher); scripts of a debug adapter drive both (script).
--
-- This library models the core of the backend, the class `DebugBackend`, and the layout of values
-- on its channels:
--
--   Protocol           LuaInject/LuaInject/Protocol.h: the numbers of events, commands, reasons
--   Script             DebugBackend::Script: the breakpoints of one script
--   LuaDll             LuaDll.h, LuaDll.cpp, LuaTypes.h: the fields of `lua_Debug`, the hook modes
--   LuaDll/Functions   LoadLuaFunctions: which function of the Lua library is found for which member
--                      of `LuaInterface`, and how HOOK_FUNCTION replaces some;
--                      LuaDll/Functions/Calls: which member each `..._dll` calls
--   LuaDll/Stack       the `..._dll` that move values on the stack of a Lua state
--   Symbols            LuaDll.cpp: ReplaceExtension, GetFilePath, LocateSymbolFile, ScanForSignature,
--                      LoadSymbolsRecursively, PostLoadLibrary
--   Backend            the state of DebugBackend (DebugBackend.h)
--   Backend/Vms        AttachState, DetachState
--   Backend/Scripts    RegisterScript (both), GetScriptIndex, GetFileTitle
--   Backend/Breakpoints  ToggleBreakpoint, DeleteAllBreakpoints, SetHaveActiveBreakpoints,
--                      GetHaveActiveBreakpoints, BreakpointsActiveForScript, ActiveLuaHookInAllVms
--   Backend/Stack      GetUnifiedStack, SendBreakEvent
--   Backend/Step       StepInto, StepOver, StepOut, Continue, Break
--   Backend/Hook       UpdateHookMode, StackHasBreakpoint
--   Backend/Hook/Callback  HookCallback, BreakFromScript, WaitForContinue, Message
--   Backend/Commands   CommandThreadProc, IgnoreException, WaitForAttach; how a command is
--                      read (Commands/Reads)
--   Backend/Errors     PostLoadScript, SendExceptionEvent, ErrorHandler
--   Backend/Call       Call, which runs a function of the program with the error handler
--   Backend/Intercepts LuaDll.cpp: the functions that run in place of those of the Lua library;
--                      RegisterClassName; calls (Intercepts/Calls)
--   Backend/Evaluation CreateEnvironment, CreateChainedTable, CopyLocal, CopyUpvalue, IndexChained,
--                      NewIndexChained, SetLocals, SetUpValues; Evaluate (Evaluation/Chunk)
--   Backend/Values     GetValueAsText, GetTableAsText, CacheTable, ClearCache, GetAsciiString,
--                      GetClassNameForUserdata; GetSpecialNode and ExpandTable (Values/Expand)
--   Backend/Waits      WaitForEvent, beside the command thread that serves the front end
--   Backend/Runs       sequences of these, with runs within the waits of a debug event
--   Wire               Channel.cpp and launcher/launcher/ReadWrite.cpp: numbers and strings
--   Tcp                launcher/launcher/TcpChannel.cpp: Read, NReadUInt32, Disconnect; Write (Tcp/Write)
--   Tests              one program with two Lua states, and a small Lua for expressions
--
-- A method is a function from the state to the state. The record `Backend` keeps the vector of
-- machines, the map from Lua states to machines, and the machines themselves as a store of objects
-- by address, since the vector and the map share them. A command of the front end (Step,
-- Breakpoints) and an event of Lua (Hook) change the same state; Hook uses Scripts to find the
-- script of an event, Vms to attach a state that is not known, Stack to tell the front end of a
-- stop. What is sent to the front end is appended to `sent`, one entry for each write.
--
-- Undefined behaviour, such as an access through a null pointer or an index out of range, is the
-- result `none`. An assertion is not checked, as in a release build. The loops over the machines
-- pass over an address with no machine; where the machines are in step (`IsLinked`) there is none.
--
-- Bounds and fuel: lines, counts and indices are natural numbers; where the code computes on 32
-- bits, as in `line - 1`, the wrap-around is written out. GetUnifiedStack runs on fuel, two more
-- than the number of script frames, since each round takes one of them; Backend/Stack/Bounds shows
-- that this is enough. The search for symbols needs as much fuel as there are modules, and one.
-- GetValueAsText runs on fuel too; Backend/Values/Depth says how much is enough. The array of the
-- unified stack has 100 entries; a break event whose stack has more is undefined, and so is one with a
-- name of 256 or more characters, which strncpy leaves without an end.
--
-- Outside of the library, as arguments: the Lua library (the interfaces `LuaHooks` for its hooks
-- and `LuaStack` for its stacks, and `View` for what it answers during a callback), Windows and
-- the debug-help library (`Process` in the search for symbols, and the native stack), the pipe
-- (the interface `Transport`), what other threads do while the hook waits (`meanwhile`), what
-- Evaluate and ExpandTable answer a command, if they come back (`answer`), plain tables and values
-- of Lua (`LuaValues`, `LuaTables`), global variables (`Globals`), how Lua loads and runs a text
-- (`load`, `pcall`) and what happens to the backend meanwhile (`inside`), what tables hold and
-- metamethods return (`Heap`), and what `recv` and `send` answer (`Reply`, `Sending`). In
-- the hook and in runs the waits end, and what follows them is modelled; Backend/Waits has the wait
-- itself, between the thread that waits and the command thread.
--
-- MinHook, which makes a hook or does not, is `CreateHook`, also an argument. What an evaluation that a command asks
-- for does to the rest of the backend is not in the command loop; that GetValueAsText refuses a value
-- where Lua's stack has no room, and metamethods that change tables, are left out; so are the
-- messages of LoadLuaFunctions, and a machine that is freed while its hook waits.
--
-- Not modelled: how threads are made and ended; what runs in place of lua_pcallk; the text of the
-- XML, which TinyXML prints; functions that nothing calls; how functions of the Lua library and of
-- Windows are patched, the injection and the named pipe, which are calls of Windows, MinHook and
-- debug-help; the Lua scripts of the adapter; the copies of bee.lua, TinyXML and MinHook, which
-- are other projects'.
pub mod Backend
pub mod Base
pub mod LuaDll
pub mod Protocol
pub mod Script
pub mod Symbols
pub mod Tcp
pub mod Tests
pub mod Wire
