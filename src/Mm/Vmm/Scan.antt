-- ===== src/Mm/Vmm/Scan.antt =====
-- kern/mm/vmm.c: the calls that look through the areas and leave them as they are:
-- `get_unmapped_area`, `user_mem_check` and the checks of `do_pgfault` before it fills in the page.
use Prim.Native.Nat.{bit_or}
use ucorebook_code.Prelude.{
  ℕ, zero, suc, ◌+◌, ◌-◌, ◌%◌, ◌/◌, Bool, true, false, not, ◌&&◌, ◌||◌, ltb, leb, ◌==◌,
  if◌then◌else◌, List, [], ◌∷◌, Option, none, some, ◌>>=◌,
}
use ucorebook_code.Mm.Vmm.{
  Vma, Mm, pgsize, word, userbase, usertop, user_access, vm_read, vm_write, vm_exec, vm_stack, has,
  find_vma,
}

-- The areas from the last to the first.
unfoldable pub backwards : List ℕ → List ℕ → List ℕ
backwards [] acc = acc
backwards (x ∷ xs) acc = backwards xs (x ∷ acc)

-- Down from `start`, over the areas that are left.
unfoldable pub area_below : (ℕ → Vma) → ℕ → ℕ → List ℕ → ℕ
area_below f len start [] = if leb userbase start then start else 0
area_below f len start (x ∷ xs) = elim (leb (f x).vm_end start) [
  | true ↦ start
  | false ↦ elim (ltb (f x).vm_start (start + len)) [
    | false ↦ area_below f len start xs
    | true ↦ elim (leb (f x).vm_start len) [
      | true ↦ 0
      | false ↦ area_below f len ((f x).vm_start - len) xs
    ]
  ]
]

unfoldable pub get_unmapped_area : ℕ → Mm → ℕ
get_unmapped_area len m =
    if len == 0 || ltb usertop len
    then 0
    else area_below m.vmas len (usertop - len) (backwards m.mmap_list [])

-- Whether the area at hand may be used at `start` for the access.
unfoldable pub may_use : Bool → ℕ → Option ℕ → Mm → Bool
may_use write start none m = false
may_use write start (some x) m =
    let v = m.vmas x in
    not (ltb start v.vm_start)
    && (has v.vm_flags (if write then vm_write else vm_read)
        && not (write && (has v.vm_flags vm_stack && ltb start (v.vm_start + pgsize))))

unfoldable pub end_of : Option ℕ → Mm → ℕ
end_of none m = 0
end_of (some x) m = (m.vmas x).vm_end

-- A round of the loop, with the area that was found; `rest` is the rounds from its end on.
unfoldable pub check_found :
    (ℕ → Mm → Option (Bool × Mm)) → Bool → ℕ → Option ℕ × Mm → Option (Bool × Mm)
check_found rest write start (o, m) = elim (may_use write start o m) [
  | false ↦ some (false, m)
  | true ↦ rest (end_of o m) m
]

-- The loop; `none` where there are too few rounds.
unfoldable pub check_from : ℕ → Bool → ℕ → ℕ → Mm → Option (Bool × Mm)
check_from zero write start end' m = if ltb start end' then none else some (true, m)
check_from (suc fuel) write start end' m = elim (ltb start end') [
  | false ↦ some (true, m)
  | true ↦
      check_found (λ start' m'. check_from fuel write start' end' m') write start (find_vma start m)
]

-- The check in a user space. A round moves on by one byte at least, so that `len` of them are enough.
unfoldable pub check_space : ℕ → ℕ → Bool → Mm → Option (Bool × Mm)
check_space addr len write m = elim (user_access addr ((addr + len) % word)) [
  | false ↦ some (false, m)
  | true ↦ check_from len write addr ((addr + len) % word) m
]

abbrev pub kernbase : ℕ
kernbase = 0xC0000000

abbrev pub kerntop : ℕ
kerntop = 0xF8000000

-- `KERN_ACCESS`
unfoldable pub kern_access : ℕ → ℕ → Bool
kern_access start end' = leb kernbase start && (ltb start end' && leb end' kerntop)

-- A kernel thread has no space.
unfoldable pub user_mem_check : ℕ → ℕ → Bool → Option Mm → Option (Bool × Option Mm)
user_mem_check addr len write none = some (kern_access addr ((addr + len) % word), none)
user_mem_check addr len write (some m) = do
  (b, m') ← check_space addr len write m
  some (b, some m')

-- What `do_pgfault` asks of the area that it found; `code` has its two low bits: 1 where the page is
-- present, 2 for a write.
unfoldable pub pgfault_allowed : ℕ → ℕ → Option ℕ → Mm → Bool
pgfault_allowed code addr none m = false
pgfault_allowed code addr (some x) m =
    let v = m.vmas x in
    let is_write = not (code % 4 / 2 == 0) in
    not (ltb addr v.vm_start)
    && (not (has v.vm_flags vm_stack && ltb addr (v.vm_start + pgsize))
        && (if is_write
            then has v.vm_flags vm_write
            else code % 4 == 0 && has v.vm_flags (bit_or vm_read vm_exec)))
