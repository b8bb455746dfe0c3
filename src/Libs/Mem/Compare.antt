-- ===== src/Libs/Mem/Compare.antt =====
-- What `memcmp` compares.
use ucorebook_code.Prelude.{
  ℕ, zero, suc, ◌+◌, ◌<◌, ◌≡◌, ◌≢◌, refl, ==_self, arith, ◌⊎◌, inl, inr, ℕ_discrete,
}
use ucorebook_code.Prelude.Int.{ℤ, pos, sub_ℕ}
use ucorebook_code.Libs.Mem.{Memory, memcmp}

-- The blocks agree in their first `n` bytes.
abbrev pub SameBytes : ℕ → ℕ → ℕ → Memory → Type 0
SameBytes s1 s2 n m = (i : ℕ) → i < n → m (s1 + i) ≡ m (s2 + i)

-- The blocks agree up to byte `i`, where they differ, and `r` is the difference there.
pub record IsFirstDiff (s1 s2 n i : ℕ) (m : Memory) (r : ℤ) : Type 0 where
  pub within : i < n
  pub before : SameBytes s1 s2 i m
  pub differ : m (s1 + i) ≢ m (s2 + i)
  pub result : r ≡ sub_ℕ (m (s1 + i)) (m (s2 + i))

SameBytes-suc :
    (s1 s2 n : ℕ) (m : Memory)
    → m s1 ≡ m s2
    → SameBytes (s1 + 1) (s2 + 1) n m
    → SameBytes s1 s2 (suc n) m
SameBytes-suc s1 s2 n m e h zero hi = ground arith
SameBytes-suc s1 s2 n m e h (suc i) hi = ground (arith, h i)

IsFirstDiff-suc :
    (s1 s2 n i : ℕ) (m : Memory) (r : ℤ)
    → m s1 ≡ m s2
    → IsFirstDiff (s1 + 1) (s2 + 1) n i m r
    → IsFirstDiff s1 s2 (suc n) (suc i) m r
IsFirstDiff-suc s1 s2 n i m r e f =
    let a : s1 + 1 + i ≡ s1 + suc i = omega arith in
    let b : s2 + 1 + i ≡ s2 + suc i = omega arith in
    record {
      within = omega (arith, f.within);
      before = SameBytes-suc s1 s2 i m e f.before;
      differ = rw (a, b) at f.differ;
      result = rw (a, b) at f.result;
    }

-- `memcmp` gives 0 on blocks that agree, and otherwise the difference of the first two bytes that
-- do not.
pub memcmp_cases :
    (s1 s2 n : ℕ) (m : Memory)
    → ((memcmp s1 s2 n m ≡ pos 0) × SameBytes s1 s2 n m)
      ⊎ ((i : ℕ) × IsFirstDiff s1 s2 n i m (memcmp s1 s2 n m))
unfolding memcmp
memcmp_cases s1 s2 zero m = inl (refl, λ i h. absurd (omega arith))
memcmp_cases s1 s2 (suc n) m = elim (ℕ_discrete (m s1) (m s2)) [
  | no ne ↦ inr (
    0,
    record {
      within = omega arith;
      before = λ i h. absurd (omega arith);
      differ = ground arith;
      result = ground arith;
    },
  )
  | yes e ↦ elim (memcmp_cases (s1 + 1) (s2 + 1) n m) [
    | inl (r, same) ↦ inl (ground arith, SameBytes-suc s1 s2 n m e same)
    | inr (i, f) ↦ inr (suc i, rw (e, ==_self (m s2)) (IsFirstDiff-suc s1 s2 n i m _ e f))
  ]
]
