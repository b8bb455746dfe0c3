-- ===== src/Mm/Vmm/Mapped.antt =====
-- kern/mm/vmm.c: what `mm_map` does to the flags of the addresses, on every branch.
use ucorebook_code.Prelude.{ℕ, ◌≤◌, ◌<◌, ◌≡◌, ◌≢◌, ◌⊎◌, Option, none, some, if◌then◌else◌}
use ucorebook_code.Prelude.Errno.{Result, ok, err, e_inval, e_no_mem}
use ucorebook_code.Mm.Vmm.{Vma, Mm}
use ucorebook_code.Mm.Vmm.Agree.{Agree}
use ucorebook_code.Mm.Vmm.Refine.{IsSpace, mapped, in_range}
use ucorebook_code.Mm.Vmm.Map.{without_share}

-- The addresses of the range have the flags, and the others have those they had.
pub record IsMapped (start end' flags : ℕ) (m m' : Mm) : Type 0 where
  pub space : IsSpace m'
  pub flags_of :
      (addr : ℕ) → mapped m' addr ≡ (if in_range start end' addr then some flags else mapped m addr)

-- The same addresses have the same flags.
abbrev pub IsUnchanged : Mm → Mm → Type 0
IsUnchanged m m' = IsSpace m' × ((addr : ℕ) → mapped m' addr ≡ mapped m addr)

-- What `mm_map` may end with, for a user range.
abbrev pub IsMapOutcome : ℕ → ℕ → ℕ → Mm → Option ℕ → Result ℕ × Mm → Type 0
IsMapOutcome start end' flags m mem r =
    ((a : ℕ) × (mem ≡ some a)
      × (r.0 ≡ ok a)
      × ((addr : ℕ) → start ≤ addr → addr < end' → mapped m addr ≡ none)
      × IsMapped start end' (without_share flags) m r.1)
    ⊎ ((r.0 ≡ err e_inval)
        × ((addr : ℕ) × (start ≤ addr) × (addr < end') × (mapped m addr ≢ none))
        × IsUnchanged m r.1)
    ⊎ ((r.0 ≡ err e_no_mem) × (mem ≡ none) × IsUnchanged m r.1)

abbrev fresh_area : ℕ → ℕ → ℕ → Vma
fresh_area start end' flags = record {
  vm_start = start;
  vm_end = end';
  vm_flags = flags;
  shmem = none;
  shmem_off = 0;
}
