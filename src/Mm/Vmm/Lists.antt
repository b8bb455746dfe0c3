-- ===== src/Mm/Vmm/Lists.antt =====
-- Lists of areas sorted by their start: an area put in its place or taken out.
pub use ucorebook_code.Prelude.{In-without, without-In, length-without}
use ucorebook_code.Prelude.{
  ℕ, ◌+◌, ◌<◌, ◌≡◌, inl, inr, refl, ap, Bool-cases, ltb, ◌==◌, List, [], ◌∷◌, ◌++◌, arith, length,
}
use ucorebook_code.Mm.Tree.{insert_by, without, IsIncreasing}
use ucorebook_code.Mm.Vmm.{Vma}
use ucorebook_code.Mm.Vmm.Order.{In, IsOrdered, IsOrdered-weaken}

pub In-insert_by : (key : ℕ → ℕ) (a : ℕ) (xs : List ℕ) (x : ℕ) → In x xs → In x (insert_by key a xs)
In-insert_by key a [] x h = elim h [ ]
In-insert_by key a (y ∷ ys) x h = elim (Bool-cases (ltb (key a) (key y))) [
  | inl t ↦ rw t (inr h)
  | inr t ↦ rw t (elim h [ inl e ↦ inl e | inr h ↦ inr (In-insert_by key a ys x h) ])
]

pub length-insert_by :
    (key : ℕ → ℕ) (a : ℕ) (xs : List ℕ) → length (insert_by key a xs) ≡ length xs + 1
length-insert_by key a [] = refl
length-insert_by key a (y ∷ ys) = let ih = length-insert_by key a ys in ground arith

pub without-IsOrdered :
    (f : ℕ → Vma) (lo a : ℕ) (xs : List ℕ) → IsOrdered f lo xs → IsOrdered f lo (without a xs)
without-IsOrdered f lo a [] o = tt
without-IsOrdered f lo a (y ∷ ys) (l, s, o) = elim (Bool-cases (y == a)) [
  | inl t ↦ rw t (IsOrdered-weaken f ys (f y).vm_end lo (omega arith) o)
  | inr t ↦ rw t (l, s, without-IsOrdered f (f y).vm_end a ys o)
]

pub IsIncreasing-left :
    (key : ℕ → ℕ) (xs ys : List ℕ) → IsIncreasing key (xs ++ ys) → IsIncreasing key xs
IsIncreasing-left key [] ys h = tt
IsIncreasing-left key (x ∷ []) ys h = tt
IsIncreasing-left key (x ∷ y ∷ xs) ys (l, h) = (l, IsIncreasing-left key (y ∷ xs) ys h)

pub IsIncreasing-above :
    (key : ℕ → ℕ) (x : ℕ) (xs : List ℕ) (y : ℕ) (ys : List ℕ)
    → IsIncreasing key (x ∷ xs ++ y ∷ ys)
    → key x < key y
IsIncreasing-above key x [] y ys (l, h) = l
IsIncreasing-above key x (z ∷ xs) y ys (l, h) =
    let k = IsIncreasing-above key z xs y ys h in omega arith

pub IsIncreasing-tail :
    (key : ℕ → ℕ) (x : ℕ) (xs : List ℕ) → IsIncreasing key (x ∷ xs) → IsIncreasing key xs
IsIncreasing-tail key x [] h = tt
IsIncreasing-tail key x (y ∷ xs) (l, h) = h

pub insert_by-last :
    (key : ℕ → ℕ) (xs : List ℕ) (y : ℕ) (ys : List ℕ)
    → IsIncreasing key (xs ++ y ∷ ys)
    → insert_by key y xs ≡ xs ++ y ∷ []
insert_by-last key [] y ys h = refl
insert_by-last key (x ∷ xs) y ys h =
    let k = IsIncreasing-above key x xs y ys h in
    let ih = insert_by-last key xs y ys (IsIncreasing-tail key x (xs ++ y ∷ ys) h) in ground arith

pub ++-assoc-one : (xs : List ℕ) (y : ℕ) (ys : List ℕ) → (xs ++ y ∷ []) ++ ys ≡ xs ++ y ∷ ys
++-assoc-one [] y ys = refl
++-assoc-one (x ∷ xs) y ys = ap (λ zs. x ∷ zs) (++-assoc-one xs y ys)

pub ++-nil : (xs : List ℕ) → xs ++ [] ≡ xs
++-nil [] = refl
++-nil (x ∷ xs) = ap (λ zs. x ∷ zs) (++-nil xs)
