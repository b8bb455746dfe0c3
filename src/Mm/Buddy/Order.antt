-- ===== src/Mm/Buddy/Order.antt =====
-- The order of a block with room for some pages.
use ucorebook_code.Prelude.{
  ℕ, zero, suc, ◌+◌, ◌^◌, ◌≤◌, ◌<◌, ◌≡◌, Bool-cases, true, false, leb, Option, none, some, arith,
  ℕ_discrete, inl, inr,
}
use ucorebook_code.Mm.Buddy.{getorder_from, getorder}

le_of_test : (a b : ℕ) → leb a b ≡ true → a ≤ b
le_of_test a b e = ground arith

lt_of_test : (a b : ℕ) → leb a b ≡ false → b < a
lt_of_test a b e = ground arith

-- The least order that is enough, or none of them is.
abbrev pub IsLeast : ℕ → ℕ → ℕ → Option ℕ → Type 0
IsLeast lo hi n none = (j : ℕ) → lo ≤ j → j < hi → 2 ^ j < n
IsLeast lo hi n (some k) =
    (lo ≤ k) × (k < hi) × (n ≤ 2 ^ k) × ((j : ℕ) → lo ≤ j → j < k → 2 ^ j < n)

IsLeast-step :
    (rounds order n : ℕ) (o : Option ℕ)
    → 2 ^ order < n
    → IsLeast (order + 1) (order + 1 + rounds) n o
    → IsLeast order (order + suc rounds) n o
IsLeast-step rounds order n none h l =
    λ j a b. elim (ℕ_discrete j order) [ yes e ↦ rw e h | no ne ↦ l j (omega arith) (omega arith) ]
IsLeast-step rounds order n (some k) h (lo, hi, room, low) = (
  omega arith,
  omega arith,
  room,
  λ j a b. elim (ℕ_discrete j order) [ yes e ↦ rw e h | no ne ↦ low j (omega arith) b ],
)

getorder_from-IsLeast :
    (rounds order n : ℕ) → IsLeast order (order + rounds) n (getorder_from rounds order n)
unfolding getorder_from
getorder_from-IsLeast zero order n = λ j a b. absurd (omega arith)
getorder_from-IsLeast (suc rounds) order n = elim (Bool-cases (leb n (2 ^ order))) [
  | inl t ↦
      rw t (omega arith, omega arith, le_of_test n (2 ^ order) t, λ j a b. absurd (omega arith))
  | inr f ↦ rw f (
      IsLeast-step rounds order n _ (lt_of_test n (2 ^ order) f)
        (getorder_from-IsLeast rounds (order + 1) n))
]

-- `getorder` gives the least order up to 10 whose blocks have room for `n` pages, and panics exactly
-- where no order has.
pub getorder-IsLeast : (n : ℕ) → IsLeast 0 11 n (getorder n)
unfolding getorder
getorder-IsLeast n = getorder_from-IsLeast 11 0 n
