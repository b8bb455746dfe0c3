-- ===== src/Libs/Mem/Blocks.antt =====
-- What filling and copying leave in memory, byte by byte.
use ucorebook_code.Prelude.{
  ℕ, zero, suc, ◌+◌, ◌-◌, ◌≤◌, ◌≡◌, Bool, ◌&&◌, ltb, leb, if◌then◌else◌, update, arith, ◌⊎◌,
}
use ucorebook_code.Libs.Mem.{Memory, memset, copy_forward, copy_backward, memmove, memcpy}

-- `p <= a && a < p + n`
abbrev pub in_block : ℕ → ℕ → ℕ → Bool
in_block p n a = leb p a && ltb a (p + n)

-- `memset` gives every byte of the block the value and changes no other byte.
pub memset_lem :
    (p c n : ℕ) (m : Memory) (a : ℕ) → memset p c n m a ≡ (if in_block p n a then c else m a)
unfolding memset update
memset_lem p c zero m a = ground arith
memset_lem p c (suc n) m a = ground (arith, memset_lem (p + 1) c n (update m p c) a)

-- Copying upwards is right where the destination does not start inside the rest of the source.
copy_forward_lem :
    (d s n : ℕ) (m : Memory) (a : ℕ)
    → (d ≤ s) ⊎ (s + n ≤ d)
    → copy_forward d s n m a ≡ (if in_block d n a then m (s + (a - d)) else m a)
unfolding copy_forward update
copy_forward_lem d s zero m a h = ground arith
copy_forward_lem d s (suc n) m a h =
    ground (arith, copy_forward_lem (d + 1) (s + 1) n (update m d (m s)) a)

copy_backward_lem :
    (d s n : ℕ) (m : Memory) (a : ℕ)
    → s ≤ d
    → copy_backward (d + n) (s + n) n m a ≡ (if in_block d n a then m (s + (a - d)) else m a)
unfolding copy_backward update
copy_backward_lem d s zero m a h = ground arith
copy_backward_lem d s (suc n) m a h =
    let ed : d + suc n - 1 ≡ d + n = omega arith in
    let es : s + suc n - 1 ≡ s + n = omega arith in
    rw (ed, es) (ground (arith, copy_backward_lem d s n (update m (d + n) (m (s + n))) a))

-- After `memmove` the destination holds what the source held before the call, however the two
-- overlap, and every other byte is as it was.
pub memmove_lem :
    (dst src n : ℕ) (m : Memory) (a : ℕ)
    → memmove dst src n m a ≡ (if in_block dst n a then m (src + (a - dst)) else m a)
unfolding memmove
memmove_lem dst src n m a =
    ground (arith, copy_forward_lem dst src n m a, copy_backward_lem dst src n m a)

-- `memcpy` does the same where the destination does not start inside the source.
pub memcpy_lem :
    (dst src n : ℕ) (m : Memory) (a : ℕ)
    → (dst ≤ src) ⊎ (src + n ≤ dst)
    → memcpy dst src n m a ≡ (if in_block dst n a then m (src + (a - dst)) else m a)
unfolding memcpy
memcpy_lem dst src n m a h = copy_forward_lem dst src n m a h
