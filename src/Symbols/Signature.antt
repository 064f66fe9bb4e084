-- ===== src/Symbols/Signature.antt =====
-- What `ScanForSignature` finds.
use vecoda.Base.{
  ℕ, zero, suc, ◌+◌, ◌-◌, ◌≡◌, ◌≤◌, ◌<◌, ◌≢◌, ◌↔◌, refl, true, [], ◌∷◌, arith, Bool-cases, inl, inr,
  Text, length, drop,
}
use vecoda.Base.CString.{starts_with}
use vecoda.Symbols.{scan, scan_for_signature}

starts_with-≤ : (p s : Text) → starts_with p s ≡ true → length p ≤ length s
unfolding starts_with
starts_with-≤ [] s h = omega arith
starts_with-≤ (x ∷ p) [] h = absurd (ground (arith, h))
starts_with-≤ (x ∷ p) (y ∷ s) h = ground (arith, starts_with-≤ p s, h)

length-drop : (i : ℕ) (s : Text) → length (drop i s) ≤ length s
length-drop zero s = omega arith
length-drop (suc i) [] = omega arith
length-drop (suc i) (x ∷ s) = ground (arith, length-drop i s)

no_byte : (s : Text) → length s ≤ 0 → s ≡ []
no_byte [] h = refl
no_byte (c ∷ s) h = absurd (ground (arith, h))

-- The signature stands at one of so many places.
abbrev pub StandsBefore : ℕ → Text → Text → Type 0
StandsBefore n image signature = (i : ℕ) × (i < n) × (starts_with signature (drop i image) ≡ true)

module _ (signature : Text) (some_byte : signature ≢ []) where
  scan-StandsBefore :
      (n : ℕ) (image : Text) → scan n image signature ≡ true → StandsBefore n image signature
  unfolding scan
  scan-StandsBefore zero image h = absurd (ground (arith, h))
  scan-StandsBefore (suc n) [] h = absurd (ground (arith, h))
  scan-StandsBefore (suc n) (c ∷ cs) h = elim (Bool-cases (starts_with signature (c ∷ cs))) [
    | inl here ↦ (0, omega arith, here)
    | inr other ↦
        let (i, less, at) = scan-StandsBefore n cs (ground (arith, h, other)) in
        (suc i, omega (arith, less), at)
  ]

  StandsBefore-scan :
      (n : ℕ) (image : Text) → StandsBefore n image signature → scan n image signature ≡ true
  unfolding scan
  StandsBefore-scan zero image (i, less, at) = absurd (omega (arith, less))
  StandsBefore-scan (suc n) [] (i, less, at) = absurd (
      some_byte (
        no_byte signature
          (omega (arith, starts_with-≤ signature (drop i []) at, length-drop i []))))
  StandsBefore-scan (suc n) (c ∷ cs) (zero, less, at) =
      ground (arith, at, starts_with-≤ signature (c ∷ cs) at)
  StandsBefore-scan (suc n) (c ∷ cs) (suc i, less, at) =
      let room : length signature ≤ length cs =
        omega (arith, starts_with-≤ signature (drop i cs) at, length-drop i cs) in
      let later = StandsBefore-scan n cs (i, omega (arith, less), at) in
      elim (Bool-cases (starts_with signature (c ∷ cs))) [
        | inl here ↦ ground (arith, here, room)
        | inr other ↦ ground (arith, other, room, later)
      ]

  -- ScanForSignature finds a signature that is not empty exactly if it stands, in what can be read,
  -- at a place that leaves room for it before the last byte of the module: one that ends with the
  -- module is not found.
  pub scan_for_signature_iff :
      (size : ℕ) (image : Text)
      → (scan_for_signature size image signature ≡ true)
        ↔ ((i : ℕ) × (i + length signature < size) × (starts_with signature (drop i image) ≡ true))
  unfolding scan_for_signature
  scan_for_signature_iff size image = (
    λ h.
        let (i, less, at) = scan-StandsBefore (size - length signature) image h in
        (i, omega (arith, less), at),
    λ (i, less, at). StandsBefore-scan (size - length signature) image (i, omega (arith, less), at),
  )
