-- ===== src/Tests/Values.antt =====
-- A small Lua, for what is evaluated: a value is a list of codes, nil the empty one and a string one
-- behind a 1, and a table is a function; the globals are a table.
use vecoda.Base.{
  ◌≡◌, refl, ◌≢◌, Bool, true, false, not, [], ◌∷◌, Text, text_eq, text_eq-eq, text_eq_refl,
  if◌then◌else◌, arith, ap, Bool-cases, inl, inr,
}
use vecoda.LuaDll.Tables.{LuaValues, LuaTables}
use vecoda.Backend.Evaluation.{Globals}

abbrev pub no_value : Text → Bool
no_value [] = true
no_value (c ∷ cs) = false

pub no_value-eq : (v : Text) → no_value v ≡ true → v ≡ []
no_value-eq [] h = refl
no_value-eq (c ∷ cs) h = ground arith

abbrev pub behind_one : Text → Text
behind_one [] = []
behind_one (c ∷ cs) = cs

instance abbrev pub values : LuaValues Text
values = record {
  nil = [];
  is_nil = no_value;
  rawequal = text_eq;
  string = λ s. 1 ∷ s;
  is_nil-nil = refl;
  is_nil-eq = no_value-eq;
  rawequal_refl = text_eq_refl;
  rawequal-eq = text_eq-eq;
  string-injective = λ s t e. ap behind_one e;
}

abbrev pub set_at : (Text → Text) → Text → Text → Text → Text
set_at t k v j = if text_eq k j then v else t j

pub differs : (k j : Text) → k ≢ j → text_eq k j ≡ false
differs k j n = elim (Bool-cases (text_eq k j)) [
  | inl e ↦ absurd (n (text_eq-eq k j e))
  | inr e ↦ e
]

pub only_keys :
    (t : Text → Text) (k : Text)
    → no_value (if no_value k then [] else t k) ≡ false
    → not (no_value k) ≡ true
only_keys t [] h = ground arith
only_keys t (c ∷ cs) h = refl

instance abbrev pub tables : LuaTables Text (Text → Text)
tables = record {
  is_key = λ k. not (no_value k);
  newtable = λ k. [];
  rawget = λ t k. if no_value k then [] else t k;
  rawset = set_at;
  is_key-string = λ s. refl;
  is_key-rawget = only_keys;
  rawget-newtable = λ k. ground arith;
  rawget-rawset = λ t k v key. ground (arith, text_eq_refl k);
  rawget-rawset_ne = λ t k j v key other. rw (differs k j other) refl;
}

instance abbrev pub globals : Globals Text (Text → Text)
globals = record { gettable = λ g k. g k; settable = set_at }
