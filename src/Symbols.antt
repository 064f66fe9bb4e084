-- ===== src/Symbols.antt =====
-- The search for the symbols of a Lua library in LuaInject/LuaInject/LuaDll.cpp: the paths of symbol
-- files, LoadSymbolsRecursively over the imports of a module, and PostLoadLibrary. What Windows and
-- the debug-help library answer is the record `Process`; a module is its handle.
pub mod Signature
pub mod Library
pub mod Found
pub mod Visits
pub mod Reach
use vecoda.Base.{
  ℕ, zero, suc, ◌+◌, ◌-◌, ◌==◌, Bool, true, false, not, ◌&&◌, ◌||◌, List, [], ◌∷◌, ◌++◌, Option,
  none, some, if◌then◌else◌, ltb, take, length, Text, is_some, find_text, insert_text,
}
use mathlib.Core.Option
use vecoda.Base.CString.{codes, strrchr, starts_with}
use vecoda.Backend.Commands.{has_text}
use vecoda.Backend.Scripts.{get_file_title, max_index}
use vecoda.LuaDll.Functions.{Loaded, CreateHook, load_lua_functions}

-- `ReplaceExtension`.
unfoldable pub replace_extension : Text → Text → Text
replace_extension file extension = elim (strrchr 46 file) [
  | none ↦ file ++ extension
  | some i ↦ take (i + 1) file ++ extension
]

-- `GetFilePath`, with the slash.
unfoldable pub get_file_path : Text → Text
get_file_path file = elim (max_index (strrchr 92 file) (strrchr b'/' file)) [
  | none ↦ []
  | some i ↦ take (i + 1) file
]

-- `LocateSymbolFile`: the file that the module names, or one of its title beside the module.
unfoldable pub locate_symbol_file : (Text → Bool) → Text → Text → Option Text
unfolding get_file_path get_file_title
locate_symbol_file exists image cv =
    let beside = get_file_path image ++ get_file_title cv in
    if exists cv then some cv else (if exists beside then some beside else none)

-- The loop of `ScanForSignature` over so many places, in the bytes that can be read.
unfoldable pub scan : ℕ → Text → Text → Bool
scan zero image signature = false
scan (suc n) [] signature = false
scan (suc n) (c ∷ cs) signature =
    let rest = scan n cs signature in
    if ltb (length (c ∷ cs)) (length signature)
    then false
    else (if starts_with signature (c ∷ cs) then true else rest)

unfoldable pub scan_for_signature : ℕ → Text → Text → Bool
unfolding scan
scan_for_signature size image signature = scan (size - length signature) image signature

-- What kind of symbols a module has, its file of symbols and its own file.
pub data SymType : Type 0 where
  sym_none sym_export sym_other : SymType

abbrev pub is_none : SymType → Bool
is_none sym_none = true
is_none other = false

abbrev pub is_poor : SymType → Bool
is_poor sym_other = false
is_poor other = true

pub record SymInfo : Type 0 where
  pub sym_type : SymType
  pub cv_data : Text
  pub image_name : Text

-- A base of 0 is a module whose symbols cannot be loaded.
pub record Process : Type 0 where
  pub own : ℕ
  pub base_name : ℕ → Text
  pub file_name : ℕ → Text
  pub load_module : ℕ → Text → ℕ
  pub module_info : ℕ → Option SymInfo
  pub symbols_of : ℕ → List (Text × ℕ)
  pub has_lua : ℕ → Bool
  pub size : ℕ → ℕ
  pub image : ℕ → Text
  pub imports : ℕ → List Text
  pub module_of : Text → Option ℕ
  pub exists : Text → Bool
  pub sym_initialize : Bool
  pub create_hook : ℕ → CreateHook

-- `loadedModules`, `symbols`, `g_warnedAboutPdb`, `g_warnedAboutLua` and what the front end is told.
pub record Search : Type 0 where
  pub loaded : List Text
  pub symbols : List (Text × ℕ)
  pub warned_about_pdb : List Text
  pub warned_about_lua : List Text
  pub messages : List Text

unfoldable pub gather_symbols : List (Text × ℕ) → List (Text × ℕ) → List (Text × ℕ)
unfolding insert_text
gather_symbols [] m = m
gather_symbols ((k, a) ∷ new) m = gather_symbols new (insert_text k a m)

module _ (w : Process) where
  -- The base that the symbols of a module are loaded at, and what is known of it: those of its file,
  -- or, if there are none, of the file with another extension.
  unfoldable pub opened_symbols : ℕ → ℕ × Option SymInfo
  unfolding replace_extension
  opened_symbols m =
      let base = w.load_module m (w.file_name m) in
      let pdb = replace_extension (w.file_name m) (codes "pdb") in
      let other = w.load_module m pdb in
      let second : ℕ × Option SymInfo = (other, if other == 0 then none else w.module_info other) in
      elim (w.module_info base) [
        | none ↦ (base, none)
        | some info ↦ if is_none info.sym_type && w.exists pdb then second else (base, some info)
      ]

  -- The warning about a file of symbols that does not fit.
  unfoldable pub warn_about_pdb : Text → Option SymInfo → Search → Search
  unfolding locate_symbol_file has_text
  warn_about_pdb file none s = s
  warn_about_pdb file (some info) s =
      let text : List Text = elim (locate_symbol_file w.exists info.image_name info.cv_data) [
        | none ↦ []
        | some found ↦
            (codes "Warning 1002: Symbol file '"
              ++ (found
                  ++ (codes "' located but it does not match module '" ++ (file ++ codes "'"))))
            ∷ []
      ] in
      if has_text file s.warned_about_pdb
      then s
      else (if ltb 0 (length info.cv_data) && is_poor info.sym_type
          then record s {
            messages = s.messages ++ text;
            warned_about_pdb = file ∷ s.warned_about_pdb;
          }
          else s)

  -- The warning about a module with Lua in it and no symbols of Lua.
  unfoldable pub warn_about_lua : ℕ → Text → ℕ → Search → Search
  unfolding scan_for_signature has_text
  warn_about_lua m file base s =
      let found = not (base == 0) && w.has_lua base in
      let suspect = scan_for_signature (w.size m) (w.image m) (codes "$Lua:") in
      let text =
        (codes "Warning 1001: '"
          ++ (file
              ++ codes
                  "' appears to contain Lua functions however no Lua functions could located with the symbolic information"))
        ∷ [] in
      if has_text file s.warned_about_lua then s else record s {
        messages = if not found && suspect then s.messages ++ text else s.messages;
        warned_about_lua = file ∷ s.warned_about_lua;
      }

  -- A module that is new, up to its imports.
  unfoldable pub examine : ℕ → Search → Search
  unfolding opened_symbols warn_about_pdb warn_about_lua gather_symbols
  examine m s =
      let file = w.file_name m in
      let (base, info) = opened_symbols m in
      let t = warn_about_pdb file info (record s { loaded = w.base_name m ∷ s.loaded }) in
      warn_about_lua m file base (record t {
        symbols = if base == 0 then t.symbols else gather_symbols (w.symbols_of base) t.symbols;
      })

  -- The loop over the imports; one that is not loaded is passed over.
  unfoldable pub each_import : (ℕ → Search → Option Search) → List Text → Search → Option Search
  each_import visit [] s = some s
  each_import visit (name ∷ names) s = elim (w.module_of name) [
    | none ↦ each_import visit names s
    | some m ↦ Option.bind (visit m s) (each_import visit names)
  ]

  unfoldable pub load_symbols_recursively : ℕ → ℕ → Search → Option Search
  unfolding has_text examine each_import
  load_symbols_recursively zero m s = none
  load_symbols_recursively (suc fuel) m s =
      let deeper = each_import (load_symbols_recursively fuel) (w.imports m) (examine m s) in
      if has_text (w.base_name m) s.loaded then some s else deeper

-- `g_loadedModules`, `g_initializedDebugHelp`, the warnings, and `g_interfaces`.
pub record Loader : Type 0 where
  pub loaded_modules : List Text
  pub initialized : Bool
  pub warned_pdb : List Text
  pub warned_lua : List Text
  pub told : List Text
  pub interfaces : List Loaded

-- A search, with nothing loaded yet, and what is left of it; the symbols found go to
-- `LoadLuaFunctions`.
abbrev pub start_search : Loader → Search
start_search s = record {
  loaded = [];
  symbols = [];
  warned_about_pdb = s.warned_pdb;
  warned_about_lua = s.warned_lua;
  messages = s.told;
}

abbrev pub with_found : List Loaded → Option Loaded → List Loaded
with_found interfaces none = interfaces
with_found interfaces (some l) = interfaces ++ l ∷ []

-- The module is entered.
abbrev pub entered : Process → ℕ → Loader → Loader
entered w m s = record s { loaded_modules = w.base_name m ∷ s.loaded_modules }

-- The hooks are those for the index of the interface, which is the next one.
abbrev pub end_search : Process → Loader → Search → Loader
end_search w s r = record s {
  initialized = true;
  warned_pdb = r.warned_about_pdb;
  warned_lua = r.warned_about_lua;
  told = r.messages;
  interfaces =
      with_found s.interfaces
        (load_lua_functions (w.create_hook (length s.interfaces)) (λ k. find_text k r.symbols));
}

unfoldable pub post_load_library : Process → ℕ → ℕ → Loader → Option Loader
unfolding has_text load_symbols_recursively load_lua_functions
post_load_library w fuel m s =
    let t = entered w m s in
    let searched =
      Option.map (end_search w t) (load_symbols_recursively w fuel m (start_search t)) in
    if m == w.own || has_text (w.base_name m) s.loaded_modules
    then some s
    else (if s.initialized || w.sym_initialize then searched else some t)
