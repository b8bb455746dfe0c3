-- ===== src/File/Slots.antt =====
-- Finding a slot and a file in the table.
use ucorebook_code.Prelude.{
  ℕ, zero, suc, ◌+◌, ◌≤◌, ◌<◌, ◌≡◌, refl, true, false, ltb, ◌==◌, ◌&&◌, Option, none, some, arith,
  update, ℕ_discrete, inl, inr, ◌⊎◌, Bool-cases,
}
use ucorebook_code.Prelude.Int.{ℤ, pos, negsuc}
use ucorebook_code.Prelude.Errno.{Result, ok, err, e_max_open, e_busy, e_inval}
use ucorebook_code.File.{
  Table, is_opened, is_init, is_unused, take_slot, find_unused, take_found, testfd, filemap_alloc,
  fd2file,
}
use ucorebook_code.File.Invariant.{IsExact, take_lem}

-- The lowest free slot from `i` on, among `n`.
pub find_unused_cases :
    (n i : ℕ) (t : Table)
    → ((j : ℕ) × (find_unused n i t ≡ some j)
        × (i ≤ j)
        × (j < i + n)
        × (is_unused (t.files j).status ≡ true)
        × ((k : ℕ) → i ≤ k → k < j → is_unused (t.files k).status ≡ false))
      ⊎ ((find_unused n i t ≡ none)
          × ((k : ℕ) → i ≤ k → k < i + n → is_unused (t.files k).status ≡ false))
unfolding find_unused
find_unused_cases zero i t = inr (refl, λ k h h'. absurd (omega arith))
find_unused_cases (suc n) i t = elim (Bool-cases (is_unused (t.files i).status)) [
  | inl u ↦ inl (i, rw u, omega arith, omega arith, u, λ k h h'. absurd (omega arith))
  | inr u ↦ elim (find_unused_cases n (i + 1) t) [
    | inl (j, e, lo, hi, free, low) ↦ inl (
      j,
      rw u e,
      omega arith,
      omega arith,
      free,
      λ k h h'. elim (ℕ_discrete k i) [ yes same ↦ rw same u | no ne ↦ low k (omega arith) h' ],
    )
    | inr (e, full) ↦ inr (
      rw u e,
      λ k h h'. elim (ℕ_discrete k i) [
        | yes same ↦ rw same u
        | no ne ↦ full k (omega arith) (omega arith)
      ],
    )
  ]
]

-- A slot that was taken is being opened.
abbrev pub IsTaken : ℕ → Result ℕ → Table → Type 0
IsTaken nentry (ok j) t = (j < nentry) × (is_init (t.files j).status ≡ true)
IsTaken nentry (err e) t = Unit {0}

-- The slot was free.
abbrev pub WasUnused : Result ℕ → Table → Type 0
WasUnused (ok j) t = is_unused (t.files j).status ≡ true
WasUnused (err e) t = Unit {0}

-- No slot that was in use has changed.
abbrev pub KeepsUsed : Table → Table → Type 0
KeepsUsed t t' = (k : ℕ) → is_unused (t.files k).status ≡ false → t'.files k ≡ t.files k

-- The call does not panic, leaves a valid table, a slot that it gives was free and
-- is being opened, and the slots in use are as they were.
abbrev pub TakesSlot : ℕ → (ℕ → ℕ) → Table → Option (Result ℕ × Table) → Type 0
TakesSlot nentry held t o =
    (r : Result ℕ) × (t' : Table) × (o ≡ some (r, t'))
    × IsExact nentry held t'
    × IsTaken nentry r t'
    × WasUnused r t
    × KeepsUsed t t'

take_slot-init :
    (i : ℕ) (t : Table) {t' : Table} → take_slot i t ≡ some t' → is_init (t'.files i).status ≡ true
unfolding take_slot update is_init
take_slot-init i t e = ground arith

take_slot-KeepsUsed :
    (i : ℕ) (t : Table) {t' : Table}
    → is_unused (t.files i).status ≡ true
    → take_slot i t ≡ some t'
    → KeepsUsed t t'
unfolding take_slot update
take_slot-KeepsUsed i t u e k used = ground arith

take_found_lem :
    (nentry i : ℕ) (held : ℕ → ℕ) (t : Table)
    → IsExact nentry held t
    → i < nentry
    → is_unused (t.files i).status ≡ true
    → TakesSlot nentry held t (take_found (some i) t)
unfolding take_found
take_found_lem nentry i held t v h u =
    let (t', e, v') = take_lem nentry i h held t v u in
    (ok i, t', rw e refl, v', (h, take_slot-init i t e), u, take_slot-KeepsUsed i t u e)

-- Allocation never panics; with a descriptor asked for it takes that slot or fails.
pub filemap_alloc_lem :
    (nentry : ℕ) (fd : Option ℤ) (held : ℕ → ℕ) (t : Table)
    → IsExact nentry held t
    → TakesSlot nentry held t (filemap_alloc nentry fd t)
unfolding filemap_alloc take_found testfd
filemap_alloc_lem nentry none held t v = elim (find_unused_cases nentry 0 t) [
  | inl (j, e, lo, hi, free, low) ↦ rw e (take_found_lem nentry j held t v (omega arith) free)
  | inr (e, full) ↦ rw e (err e_max_open, t, refl, v, tt, tt, λ k _. refl)
]
filemap_alloc_lem nentry (some (negsuc n)) held t v = (err e_inval, t, refl, v, tt, tt, λ k _. refl)
filemap_alloc_lem nentry (some (pos n)) held t v = elim (Bool-cases (ltb n nentry)) [
  | inr out ↦ rw out (err e_inval, t, refl, v, tt, tt, λ k _. refl)
  | inl within ↦ elim (Bool-cases (is_unused (t.files n).status)) [
    | inl free ↦ rw (within, free) (take_found_lem nentry n held t v (ground arith) free)
    | inr used ↦ rw (within, used) (err e_busy, t, refl, v, tt, tt, λ k _. refl)
  ]
]

-- A descriptor that is accepted names an open file in the table.
pub fd2file_cases :
    (nentry : ℕ) (fd : ℤ) (t : Table)
    → (fd2file nentry fd t ≡ none)
      ⊎ ((i : ℕ) × (fd2file nentry fd t ≡ some i)
          × (fd ≡ pos i)
          × (i < nentry)
          × (is_opened (t.files i).status ≡ true))
unfolding fd2file testfd
fd2file_cases nentry (negsuc n) t = inl refl
fd2file_cases nentry (pos n) t =
    elim (Bool-cases
      (testfd nentry (pos n) && (is_opened (t.files n).status && (t.files n).fd == n))) [
        | inl yes_fd ↦ inr (n, rw yes_fd, refl, ground arith, ground arith)
        | inr no_fd ↦ inl (rw no_fd)
      ]
