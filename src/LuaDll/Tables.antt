-- ===== src/LuaDll/Tables.antt =====
-- The values and plain tables of the Lua library, as the backend uses them when it evaluates: the
-- interface of what the library's manual says of `lua_rawget`, `lua_rawset` and `lua_rawequal`.
use vecoda.Base.{◌≡◌, ◌≢◌, Bool, true, false, Text}

-- `nil` and the strings are values.
pub record LuaValues (V : Type 0) : Type 0 where
  pub nil : V
  pub is_nil : V → Bool
  pub rawequal : V → V → Bool
  pub string : Text → V
  pub is_nil-nil : is_nil nil ≡ true
  pub is_nil-eq : (v : V) → is_nil v ≡ true → v ≡ nil
  pub rawequal_refl : (v : V) → rawequal v v ≡ true
  pub rawequal-eq : (v w : V) → rawequal v w ≡ true → v ≡ w
  pub string-injective : (s t : Text) → string s ≡ string t → s ≡ t

-- Plain tables, without a metatable. A key is a value other than nil and NaN; a table has nil where
-- nothing is set.
pub record LuaTables (V T : Type 0) ⦃value : LuaValues V⦄ : Type 0 where
  pub is_key : V → Bool
  pub newtable : T
  pub rawget : T → V → V
  pub rawset : T → V → V → T
  pub is_key-string : (s : Text) → is_key (value.string s) ≡ true
  pub is_key-rawget : (t : T) (k : V) → value.is_nil (rawget t k) ≡ false → is_key k ≡ true
  pub rawget-newtable : (k : V) → rawget newtable k ≡ value.nil
  pub rawget-rawset : (t : T) (k v : V) → is_key k ≡ true → rawget (rawset t k v) k ≡ v
  pub rawget-rawset_ne :
      (t : T) (k j v : V) → is_key k ≡ true → k ≢ j → rawget (rawset t k v) j ≡ rawget t j
