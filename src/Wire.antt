-- ===== src/Wire.antt =====
-- LuaInject/LuaInject/Channel.cpp and launcher/launcher/ReadWrite.cpp: how values are laid out on
-- a channel. Both ends use this layout; `size` is the width of a `size_t`, which the launcher
-- learns and keeps as `m_size`. The named pipe below is a library's: it is the interface
-- `Transport`, which a message queue meets.
pub mod RoundTrip
use vecoda.Base.{
  ℕ, zero, suc, ◌+◌, ◌*◌, ◌/◌, ◌%◌, ◌^◌, ◌≡◌, Bool, true, false, List, [], ◌∷◌, ◌++◌, Option, none,
  some, ◌==◌, if◌then◌else◌, Text, length,
}
use mathlib.Core.Option
use vecoda.Base.CString.{c_string}
use vecoda.Backend.{Field, uint32, uint, string}

-- A channel: `Write` and `Read` of a buffer, of which no one is empty here. `Carries c ms` says
-- that the buffers `ms` have been written and not read. What is written can be read, in order.
pub record Transport (C : Type 0) : Type 1 where
  pub write : C → Text → C × Bool
  pub read : C → ℕ → C × Option Text
  pub Carries : C → List Text → Type 0
  pub write-Carries :
      (c : C) (m : Text) (ms : List Text)
      → Carries c ms
      → ((write c m).1 ≡ true) × Carries (write c m).0 (ms ++ m ∷ [])
  pub read-Carries :
      (c : C) (m : Text) (ms : List Text)
      → Carries c (m ∷ ms)
      → ((read c (length m)).1 ≡ some m) × Carries (read c (length m)).0 ms

-- A number in memory, the lowest byte first.
unfoldable pub to_bytes : ℕ → ℕ → Text
to_bytes zero n = []
to_bytes (suc k) n = (n % 256) ∷ to_bytes k (n / 256)

unfoldable pub from_bytes : Text → ℕ
from_bytes [] = 0
from_bytes (b ∷ bs) = b + 256 * from_bytes bs

-- What a reader asks for.
pub data Kind : Type 0 where
  a_uint32 a_uint a_string : Kind

abbrev pub kind_of : Field → Kind
kind_of (uint32 v) = a_uint32
kind_of (uint v) = a_uint
kind_of (string t) = a_string

module _ {C : Type 0} (io : Transport C) (size : ℕ) where
  open io use {write, read}

  unfoldable pub write_uint32 : C → ℕ → C × Bool
  unfolding to_bytes
  write_uint32 c v = write c (to_bytes 4 v)

  unfoldable pub write_uint : C → ℕ → C × Bool
  unfolding to_bytes
  write_uint c v = write c (to_bytes size v)

  -- The length and then the bytes, if there are any.
  unfoldable pub write_string : C → Text → C × Bool
  unfolding write_uint32
  write_string c t =
      let n = length t % 2 ^ 32 in
      let (d, ok) = write_uint32 c n in
      if ok then (if n == 0 then (d, true) else write d t) else (d, false)

  unfoldable pub write_bool : C → Bool → C × Bool
  unfolding write_uint32
  write_bool c b = write_uint32 c (if b then 1 else 0)

  unfoldable pub read_uint32 : C → C × Option ℕ
  unfolding from_bytes
  read_uint32 c = let (d, bytes) = read c 4 in (d, Option.map from_bytes bytes)

  unfoldable pub read_uint : C → C × Option ℕ
  unfolding from_bytes
  read_uint c = let (d, bytes) = read c size in (d, Option.map from_bytes bytes)

  -- The bytes that follow a length. They pass through a `char*`, so a 0 ends the text.
  unfoldable pub read_text : C → Option ℕ → C × Option Text
  unfolding c_string
  read_text c none = (c, none)
  read_text c (some n) =
      let (d, bytes) = read c n in if n == 0 then (c, some []) else (d, Option.map c_string bytes)

  unfoldable pub read_string : C → C × Option Text
  unfolding read_uint32 read_text
  read_string c = let (d, n) = read_uint32 c in read_text d n

  unfoldable pub read_bool : C → C × Option Bool
  unfolding read_uint32
  read_bool c =
      let (d, v) = read_uint32 c in (d, Option.map (λ n. if n == 0 then false else true) v)

  unfoldable pub write_field : C → Field → C × Bool
  unfolding write_uint32 write_uint write_string
  write_field c (uint32 v) = write_uint32 c v
  write_field c (uint v) = write_uint c v
  write_field c (string t) = write_string c t

  unfoldable pub read_field : C → Kind → C × Option Field
  unfolding read_uint32 read_uint read_string
  read_field c a_uint32 = let (d, v) = read_uint32 c in (d, Option.map uint32 v)
  read_field c a_uint = let (d, v) = read_uint c in (d, Option.map uint v)
  read_field c a_string = let (d, v) = read_string c in (d, Option.map string v)

  -- A row of writes, whose results the backend does not look at.
  unfoldable pub write_fields : C → List Field → C
  unfolding write_field
  write_fields c [] = c
  write_fields c (f ∷ fs) = write_fields (write_field c f).0 fs

  -- A row of reads, up to the first that fails.
  unfoldable pub read_fields : C → List Kind → C × Option (List Field)
  unfolding read_field
  read_fields c [] = (c, some [])
  read_fields c (k ∷ ks) =
      let (d, f) = read_field c k in
      let (e, fs) = read_fields d ks in
      elim f [ none ↦ (d, none) | some v ↦ (e, Option.map (◌∷◌ v) fs) ]
