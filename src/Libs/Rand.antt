-- ===== src/Libs/Rand.antt =====
-- libs/hash.c and libs/rand.c. The state of the generator, `next`, is passed along.
use ucorebook_code.Prelude.{ℕ, ◌+◌, ◌-◌, ◌*◌, ◌/◌, ◌%◌, ◌^◌, ◌≤◌, ◌<◌, arith}

-- Multiplication on 32-bit words, and the high `bits` of the product.
unfoldable pub hash32 : ℕ → ℕ → ℕ
hash32 val bits = val * 0x9e370001 % 2 ^ 32 / 2 ^ (32 - bits)

-- The number, and the state after.
unfoldable pub rand : ℕ → ℕ × ℕ
rand next =
    let next' = (next * 0x5DEECE66D + 0xB) % 2 ^ 64 % 2 ^ 48 in
    (next' / 2 ^ 12 % (0x7fffffff + 1), next')

unfoldable pub srand : ℕ → ℕ
srand seed = seed

-- A random number is at most RAND_MAX, and the state has 48 bits.
pub rand_lem : (next : ℕ) → ((rand next).0 ≤ 0x7fffffff) × ((rand next).1 < 2 ^ 48)
unfolding rand
rand_lem next = (omega arith, omega arith)
