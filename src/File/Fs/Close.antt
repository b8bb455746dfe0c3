-- ===== src/File/Fs/Close.antt =====
-- Closing the files of a process, at exec and at exit.
use ucorebook_code.Prelude.{
  ℕ, zero, suc, ◌+◌, ◌≤◌, ◌<◌, ◌≡◌, ◌≢◌, true, false, Bool-cases, Option, some, arith, update,
  ℕ_discrete, inl, inr, ◌⊎◌, ◌∙◌, refl,
}
use ucorebook_code.File.{Status, Table, is_opened, is_closed, is_init, is_unused, filemap_close}
use ucorebook_code.File.Fs.Valid.{IsValid, close_lem}
use ucorebook_code.File.Fs.{Fs, drop_pwd, close_if_open, destroy_from, fs_destroy}

-- The slots below `lo` and from `hi` on are as they were.
abbrev KeepsOutside : ℕ → ℕ → Table → Table → Type 0
KeepsOutside lo hi t t' = (k : ℕ) → (k < lo) ⊎ (hi ≤ k) → t'.files k ≡ t.files k

close-other :
    (i : ℕ) (t : Table) {t' : Table} (k : ℕ)
    → k ≢ i
    → filemap_close i t ≡ some t'
    → t'.files k ≡ t.files k
unfolding filemap_close update is_opened
close-other i t k ne e = ground arith

close-not_opened :
    (i : ℕ) (t : Table) {t' : Table}
    → filemap_close i t ≡ some t'
    → is_opened (t'.files i).status ≡ false
unfolding filemap_close update is_opened
close-not_opened i t e = ground arith

-- The last count goes with the descriptor.
close-unused :
    (i : ℕ) (t : Table) {t' : Table}
    → (t.files i).open_count ≡ 1
    → filemap_close i t ≡ some t'
    → is_unused (t'.files i).status ≡ true
unfolding filemap_close update is_opened is_unused
close-unused i t c e = ground arith

out_of_range : (k i n : ℕ) → k ≡ i → (k < i) ⊎ (i + suc n ≤ k) → ⊥
out_of_range k i n e (inl l) = absurd (omega arith)
out_of_range k i n e (inr l) = absurd (omega arith)

widen : (k i n : ℕ) → (k < i) ⊎ (i + suc n ≤ k) → (k < i + 1) ⊎ (i + 1 + n ≤ k)
widen k i n (inl l) = inl (omega arith)
widen k i n (inr l) = inr (omega arith)

module _ (nentry : ℕ) where
  -- Slot `i` is not open afterwards, and the others are as they were.
  abbrev ClosesSlot : ℕ → (ℕ → ℕ) → Table → Option Table → Type 0
  ClosesSlot i held t o =
      (t' : Table) × (o ≡ some t')
      × IsValid nentry held t'
      × (is_opened (t'.files i).status ≡ false)
      × ((k : ℕ) → k ≢ i → t'.files k ≡ t.files k)

  close_if_open-ClosesSlot :
      (i : ℕ) (held : ℕ → ℕ) (t : Table)
      → i < nentry
      → IsValid nentry held t
      → ClosesSlot i held t (close_if_open i t)
  unfolding close_if_open
  close_if_open-ClosesSlot i held t h v = elim (Bool-cases (is_opened (t.files i).status)) [
    | inl o ↦
        let (t', e, v') = close_lem nentry i h held t v o in
        (t', rw o e, v', close-not_opened i t e, λ k ne. close-other i t k ne e)
    | inr shut ↦ (t, rw shut refl, v, shut, λ k ne. refl)
  ]

  -- None of the slots from `lo` on, below `hi`, is open afterwards; the others are as they were.
  abbrev pub ClosesAll : ℕ → ℕ → (ℕ → ℕ) → Table → Option Table → Type 0
  ClosesAll lo hi held t o =
      (t' : Table) × (o ≡ some t')
      × IsValid nentry held t'
      × ((k : ℕ) → lo ≤ k → k < hi → is_opened (t'.files k).status ≡ false)
      × KeepsOutside lo hi t t'

  -- No call is under way and no file is being opened.
  abbrev pub IsQuiet : Table → Type 0
  IsQuiet t =
      IsValid nentry (λ i. 0) t × ((k : ℕ) → k < nentry → is_init (t.files k).status ≡ false)

  not_opened-unused :
      (i : ℕ) (t : Table)
      → i < nentry
      → IsQuiet t
      → is_opened (t.files i).status ≡ false
      → is_unused (t.files i).status ≡ true
  unfolding is_opened is_unused is_init is_closed
  not_opened-unused i t h (v, ready) shut = ground (arith, v.closing i h, ready i h)

  close_if_open-unused :
      (i : ℕ) (t : Table) {t' : Table}
      → i < nentry
      → IsQuiet t
      → close_if_open i t ≡ some t'
      → is_unused (t'.files i).status ≡ true
  unfolding close_if_open
  close_if_open-unused i t {t'} h q e = elim (Bool-cases (is_opened (t.files i).status)) [
    | inl o ↦
        let once : (t.files i).open_count ≡ 1 = ground (arith, o, q.0.counted i h) in
        close-unused i t once (rw o at e)
    | inr shut ↦
        let kept : some t ≡ some t' = rw shut at e in
        let same : t ≡ t' = cc in rw (← same) (not_opened-unused i t h q shut)
  ]

  -- Every slot from `lo` on, below `hi`, is free afterwards.
  abbrev FreesAll : ℕ → ℕ → Table → Option Table → Type 0
  FreesAll lo hi t o =
      (t' : Table) × (o ≡ some t')
      × IsQuiet t'
      × ((k : ℕ) → lo ≤ k → k < hi → is_unused (t'.files k).status ≡ true)
      × KeepsOutside lo hi t t'

  unused-not_init : (s : Status) → is_unused s ≡ true → is_init s ≡ false
  unfolding is_unused is_init
  unused-not_init s u = ground arith

  -- One slot closed, the table is as quiet as before.
  close-IsQuiet :
      (i : ℕ) (t t' : Table)
      → i < nentry
      → IsQuiet t
      → IsValid nentry (λ i. 0) t'
      → is_unused (t'.files i).status ≡ true
      → ((k : ℕ) → k ≢ i → t'.files k ≡ t.files k)
      → IsQuiet t'
  close-IsQuiet i t t' h q v u same = (
    v,
    λ k l. elim (ℕ_discrete k i) [
      | yes here ↦ rw here (unused-not_init (t'.files i).status u)
      | no ne ↦ rw (same k ne) (q.1 k l)
    ],
  )

  destroy_from-FreesAll :
      (n i : ℕ) (t : Table) → i + n ≤ nentry → IsQuiet t → FreesAll i (i + n) t (destroy_from n i t)
  unfolding destroy_from
  destroy_from-FreesAll zero i t h q = (t, refl, q, λ k l l'. absurd (omega arith), λ k l. refl)
  destroy_from-FreesAll (suc n) i t h q =
      let (t₁, e₁, v₁, shut, same) = close_if_open-ClosesSlot i (λ i. 0) t (omega arith) q.0 in
      let free : is_unused (t₁.files i).status ≡ true =
        close_if_open-unused i t (omega arith) q e₁ in
      let q₁ : IsQuiet t₁ = close-IsQuiet i t t₁ (omega arith) q v₁ free same in
      let (t₂, e₂, q₂, all, keep) = destroy_from-FreesAll n (i + 1) t₁ (omega arith) q₁ in
      (
        t₂,
        rw (e₁, free, e₂) refl,
        q₂,
        λ k l l'. elim (ℕ_discrete k i) [
          | yes here ↦
              let below : t₂.files k ≡ t₁.files k = keep k (inl (omega arith)) in
              rw (below, here) free
          | no ne ↦ all k (omega arith) (omega arith)
        ],
        λ k out.
            let apart : k ≢ i = λ e. out_of_range k i n e out in
            keep k (widen k i n out) ∙ same k apart,
      )

  -- At the last exit of a process's threads, with no call under way on a file and none being opened,
  -- `fs_destroy` does not panic and leaves every slot free.
  pub fs_destroy_total :
      (fs : Fs)
      → fs.fs_count ≡ 0
      → IsQuiet fs.filemap
      → (fs' : Fs) × (fs_destroy nentry fs ≡ some fs')
        × ((k : ℕ) → k < nentry → is_unused (fs'.filemap.files k).status ≡ true)
  unfolding fs_destroy
  fs_destroy_total fs c q =
      let (t, e, q', all, keep) = destroy_from-FreesAll nentry 0 fs.filemap (omega arith) q in
      (
        record (drop_pwd fs) { filemap = t },
        rw (c, e) refl,
        λ k l. all k (omega arith) (omega arith),
      )
