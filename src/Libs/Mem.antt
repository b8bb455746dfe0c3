-- ===== src/Libs/Mem.antt =====
-- The memory functions of libs/string.c. Memory is a function from addresses to bytes; no block
-- reaches the end of the address space.
pub mod Blocks
pub mod Compare
use ucorebook_code.Prelude.{
  ℕ, zero, suc, ◌+◌, ◌-◌, Bool, true, false, not, ◌&&◌, ltb, ◌==◌, if◌then◌else◌, update,
}
use ucorebook_code.Prelude.Int.{ℤ, pos, sub_ℕ}

abbrev pub Memory : Type 0
Memory = ℕ → ℕ

-- `while (n -- > 0) *p ++ = c;`
unfoldable pub memset : ℕ → ℕ → ℕ → Memory → Memory
unfolding update
memset p c zero m = m
memset p c (suc n) m = memset (p + 1) c n (update m p c)

-- `while (n -- > 0) *d ++ = *s ++;`
unfoldable pub copy_forward : ℕ → ℕ → ℕ → Memory → Memory
unfolding update
copy_forward d s zero m = m
copy_forward d s (suc n) m = copy_forward (d + 1) (s + 1) n (update m d (m s))

-- `while (n -- > 0) *-- d = *-- s;`, with `d` and `s` behind the blocks.
unfoldable pub copy_backward : ℕ → ℕ → ℕ → Memory → Memory
unfolding update
copy_backward d s zero m = m
copy_backward d s (suc n) m = copy_backward (d - 1) (s - 1) n (update m (d - 1) (m (s - 1)))

unfoldable pub memmove : ℕ → ℕ → ℕ → Memory → Memory
unfolding copy_forward copy_backward
memmove dst src n m =
    if ltb src dst && ltb dst (src + n)
    then copy_backward (dst + n) (src + n) n m
    else copy_forward dst src n m

unfoldable pub memcpy : ℕ → ℕ → ℕ → Memory → Memory
unfolding copy_forward
memcpy dst src n m = copy_forward dst src n m

unfoldable pub memcmp : ℕ → ℕ → ℕ → Memory → ℤ
memcmp s1 s2 zero m = pos 0
memcmp s1 s2 (suc n) m =
    let rest = memcmp (s1 + 1) (s2 + 1) n m in
    if not (m s1 == m s2) then sub_ℕ (m s1) (m s2) else rest
