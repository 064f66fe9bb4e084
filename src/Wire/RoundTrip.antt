-- ===== src/Wire/RoundTrip.antt =====
-- What one end of a channel writes, the other end reads.
use vecoda.Base.{
  ℕ, zero, suc, ◌*◌, ◌/◌, ◌%◌, ◌^◌, ◌<◌, ◌≡◌, refl, ap, sym, ◌∙◌, Bool, true, false, List, [], ◌∷◌,
  ◌++◌, some, ◌==◌, if◌then◌else◌, Text, length, arith, map, mem, All,
}
use mathlib.Core.List.{append-nil, append_assoc}
use mathlib.Core.Option
use mathlib.Core.Path.{subst}
use native.Mathlib.Nat.{pow-succ'}
use vecoda.Base.CString.{c_string}
use vecoda.Backend.{Field, uint32, uint, string}
use vecoda.Wire.{
  Transport, to_bytes, from_bytes, kind_of, write_uint32, write_uint, write_string, read_uint32,
  read_uint, read_text, read_string, write_field, read_field, write_fields, read_fields,
}

length-to_bytes : (k n : ℕ) → length (to_bytes k n) ≡ k
unfolding to_bytes
length-to_bytes zero n = refl
length-to_bytes (suc k) n = ap suc (length-to_bytes k (n / 256))

below_div : (n m : ℕ) → n < 256 * m → n / 256 < m
below_div n m h = omega arith

suc_not_zero : (n : ℕ) → (suc n == 0) ≡ false
suc_not_zero n = ground arith

fits_mod : (n : ℕ) → n < 2 ^ 32 → n % 2 ^ 32 ≡ n
fits_mod n h = omega arith

from_bytes-to_bytes : (k n : ℕ) → n < 256 ^ k → from_bytes (to_bytes k n) ≡ n
unfolding to_bytes from_bytes
from_bytes-to_bytes zero n h = omega arith
from_bytes-to_bytes (suc k) n h =
    let below = below_div n (256 ^ k) (subst (λ m. n < m) (pow-succ' 256 k) h) in
    rw (from_bytes-to_bytes k (n / 256) below) (omega arith)

c_string_lem : (t : Text) → mem 0 t ≡ false → c_string t ≡ t
unfolding c_string
c_string_lem [] h = refl
c_string_lem (c ∷ cs) h = ground (arith, c_string_lem cs)

-- The buffers in which a field travels.
abbrev messages : ℕ → Field → List Text
messages size (uint32 v) = to_bytes 4 v ∷ []
messages size (uint v) = to_bytes size v ∷ []
messages size (string []) = to_bytes 4 0 ∷ []
messages size (string (c ∷ cs)) = to_bytes 4 (length (c ∷ cs)) ∷ (c ∷ cs) ∷ []

-- What fits its field: numbers of its width, and texts of a length that fits with no 0 in them.
abbrev pub Fits : ℕ → Field → Type 0
Fits size (uint32 v) = v < 2 ^ 32
Fits size (uint v) = v < 256 ^ size
Fits size (string t) = (length t < 2 ^ 32) × (mem 0 t ≡ false)

module _ {C : Type 0} (io : Transport C) (size : ℕ) where
  open io use {Carries, write-Carries, read-Carries}

  abbrev pub packets : List Field → List Text
  packets [] = []
  packets (f ∷ fs) = messages size f ++ packets fs

  abbrev Sent : C × Bool → List Text → Type 0
  Sent r ms = (r.1 ≡ true) × Carries r.0 ms

  Sent-then :
      (r : C × Bool) (g : C → C × Bool) (ms : List Text)
      → r.1 ≡ true
      → Sent (g r.0) ms
      → Sent (if r.1 then g r.0 else (r.0, false)) ms
  Sent-then r g ms ok k = rw ok k

  write_string-Carries :
      (c : C) (x : ℕ) (xs : Text) (ms : List Text)
      → length (x ∷ xs) < 2 ^ 32
      → Carries c ms
      → Sent (write_string io size c (x ∷ xs)) (ms ++ to_bytes 4 (length (x ∷ xs)) ∷ (x ∷ xs) ∷ [])
  unfolding write_string write_uint32
  write_string-Carries c x xs ms h k =
      let n = length (x ∷ xs) in
      let first = write-Carries c (to_bytes 4 n) ms k in
      let last = write-Carries _ (x ∷ xs) (ms ++ to_bytes 4 n ∷ []) first.1 in
      subst
        (λ m.
          Sent
            (let (d, ok) = write_uint32 io size c m in
              if ok then (if m == 0 then (d, true) else io.write d (x ∷ xs)) else (d, false))
            (ms ++ to_bytes 4 n ∷ (x ∷ xs) ∷ []))
        (sym (fits_mod n h))
        (Sent-then _ (λ d. if n == 0 then (d, true) else io.write d (x ∷ xs)) _ first.0
          (rw (suc_not_zero (length xs)) (
            last.0,
            subst (Carries _) (append_assoc ms (to_bytes 4 n ∷ []) ((x ∷ xs) ∷ [])) last.1,
          )))

  write_field-Carries :
      (c : C) (f : Field) (ms : List Text)
      → Fits size f
      → Carries c ms
      → Sent (write_field io size c f) (ms ++ messages size f)
  unfolding write_field write_string write_uint32 write_uint
  write_field-Carries c (uint32 v) ms h k = write-Carries c (to_bytes 4 v) ms k
  write_field-Carries c (uint v) ms h k = write-Carries c (to_bytes size v) ms k
  write_field-Carries c (string []) ms h k =
      let r = write-Carries c (to_bytes 4 0) ms k in
      Sent-then _ (λ d. (d, true)) (ms ++ to_bytes 4 0 ∷ []) r.0 (refl, r.1)
  write_field-Carries c (string (x ∷ xs)) ms h k = write_string-Carries c x xs ms h.0 k

  pub read_uint32-Carries :
      (c : C) (v : ℕ) (ms : List Text)
      → v < 2 ^ 32
      → Carries c (to_bytes 4 v ∷ ms)
      → ((read_uint32 io size c).1 ≡ some v) × Carries (read_uint32 io size c).0 ms
  unfolding read_uint32 to_bytes
  read_uint32-Carries c v ms h k =
      let r = read-Carries c (to_bytes 4 v) ms k in
      (ap (Option.map from_bytes) r.0 ∙ ap some (from_bytes-to_bytes 4 v h), r.1)

  read_string-Carries :
      (c : C) (t : Text) (ms : List Text)
      → Fits size (string t)
      → Carries c (messages size (string t) ++ ms)
      → ((read_string io size c).1 ≡ some t) × Carries (read_string io size c).0 ms
  unfolding read_string read_text
  read_string-Carries c [] ms h k =
      let first = read_uint32-Carries c 0 ms (omega arith) k in
      subst
        (λ o.
          let r = read_text io size (read_uint32 io size c).0 o in (r.1 ≡ some []) × Carries r.0 ms)
        (sym first.0) (refl, first.1)
  read_string-Carries c (x ∷ xs) ms h k =
      let first = read_uint32-Carries c (length (x ∷ xs)) ((x ∷ xs) ∷ ms) h.0 k in
      let d = (read_uint32 io size c).0 in
      let last = read-Carries d (x ∷ xs) ms first.1 in
      subst (λ o. let r = read_text io size d o in (r.1 ≡ some (x ∷ xs)) × Carries r.0 ms)
        (sym first.0)
        (rw (suc_not_zero (length xs))
          (ap (Option.map c_string) last.0 ∙ ap some (c_string_lem (x ∷ xs) h.1), last.1))

  read_field-Carries :
      (c : C) (f : Field) (ms : List Text)
      → Fits size f
      → Carries c (messages size f ++ ms)
      → ((read_field io size c (kind_of f)).1 ≡ some f)
        × Carries (read_field io size c (kind_of f)).0 ms
  unfolding read_field read_uint
  read_field-Carries c (uint32 v) ms h k =
      let r = read_uint32-Carries c v ms h k in (ap (Option.map uint32) r.0, r.1)
  read_field-Carries c (uint v) ms h k =
      let r =
        subst (λ n. ((io.read c n).1 ≡ some (to_bytes size v)) × Carries (io.read c n).0 ms)
          (length-to_bytes size v) (read-Carries c (to_bytes size v) ms k) in
      (
        ap (λ o. Option.map uint (Option.map from_bytes o)) r.0
            ∙ ap (λ n. some (uint n)) (from_bytes-to_bytes size v h),
        r.1,
      )
  read_field-Carries c (string t) ms h k =
      let r = read_string-Carries c t ms h k in (ap (Option.map string) r.0, r.1)

  pub write_fields-Carries :
      (c : C) (fs : List Field) (ms : List Text)
      → All (Fits size) fs
      → Carries c ms
      → Carries (write_fields io size c fs) (ms ++ packets fs)
  unfolding write_fields
  write_fields-Carries c [] ms h k = subst (Carries c) (sym (append-nil ms)) k
  write_fields-Carries c (f ∷ fs) ms h k =
      let d = (write_field io size c f).0 in
      subst (Carries (write_fields io size d fs)) (append_assoc ms (messages size f) (packets fs))
        (write_fields-Carries d fs (ms ++ messages size f) h.1 (write_field-Carries c f ms h.0 k).1)

  pub read_fields-Carries :
      (c : C) (fs : List Field)
      → All (Fits size) fs
      → Carries c (packets fs)
      → (read_fields io size c (map kind_of fs)).1 ≡ some fs
  unfolding read_fields
  read_fields-Carries c [] h k = refl
  read_fields-Carries c (f ∷ fs) h k =
      let r = read_field-Carries c f (packets fs) h.0 k in
      rw (r.0, read_fields)
        (ap (Option.map (λ vs. f ∷ vs))
          (read_fields-Carries (read_field io size c (kind_of f)).0 fs h.1 r.1))

  -- On a channel with nothing left to read, a row of fields that fit, written and then read by
  -- their kinds, is read back as it was: every read succeeds and the values are those written.
  pub read_fields-write_fields :
      (c : C) (fs : List Field)
      → All (Fits size) fs
      → Carries c []
      → (read_fields io size (write_fields io size c fs) (map kind_of fs)).1 ≡ some fs
  read_fields-write_fields c fs h k =
      read_fields-Carries (write_fields io size c fs) fs h (write_fields-Carries c fs [] h k)
