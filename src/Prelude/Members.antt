-- ===== src/Prelude/Members.antt =====
-- Membership in lists of numbers, and the removal of one.
use Prim.Native.Nat.{ℕ, ◌+◌}
use mathlib.Core.Path.{◌≡◌}
use mathlib.Core.Logic.{◌≢◌, ◌⊎◌, inl, inr}
use mathlib.Core.List.{List, [], ◌∷◌}
use native.Mathlib.Omega.{arith}
use ucorebook_code.Prelude.Tests.{◌==◌, if◌then◌else◌, Bool-cases}
use ucorebook_code.Prelude.Lists.{length}

abbrev pub In : ℕ → List ℕ → Type 0
In x [] = ⊥
In x (y ∷ ys) = (x ≡ y) ⊎ In x ys

-- Without the first occurrence.
abbrev pub without : ℕ → List ℕ → List ℕ
without x [] = []
without x (y ∷ ys) = if y == x then ys else y ∷ without x ys

pub In-without : (a : ℕ) (xs : List ℕ) (x : ℕ) → x ≢ a → In x xs → In x (without a xs)
In-without a [] x n h = elim h [ ]
In-without a (y ∷ ys) x n (inl e) = ground arith
In-without a (y ∷ ys) x n (inr h) =
    let ih = In-without a ys x n h in
    elim (Bool-cases (y == a)) [ inl t ↦ rw t h | inr t ↦ rw t (inr ih) ]

pub without-In : (a : ℕ) (xs : List ℕ) (x : ℕ) → In x (without a xs) → In x xs
without-In a [] x h = elim h [ ]
without-In a (y ∷ ys) x h = elim (Bool-cases (y == a)) [
  | inl t ↦ inr (rw t at h)
  | inr t ↦ let h' = rw t at h in elim h' [ inl e ↦ inl e | inr h ↦ inr (without-In a ys x h) ]
]

pub length-without : (a : ℕ) (xs : List ℕ) → In a xs → length (without a xs) + 1 ≡ length xs
length-without a [] h = elim h [ ]
length-without a (y ∷ ys) (inl e) = ground arith
length-without a (y ∷ ys) (inr h) = let ih = length-without a ys h in ground arith

pub In-cases : (x : ℕ) (xs : List ℕ) → In x xs ⊎ (In x xs → ⊥)
In-cases x [] = inr (λ h. h)
In-cases x (y ∷ ys) = elim (Bool-cases (x == y)) [
  | inl t ↦ inl (inl (ground arith))
  | inr t ↦ elim (In-cases x ys) [
    | inl h ↦ inl (inr h)
    | inr n ↦ inr (λ h. elim h [ inl e ↦ ground arith | inr h ↦ n h ])
  ]
]
