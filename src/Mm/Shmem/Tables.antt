-- ===== src/Mm/Shmem/Tables.antt =====
-- kern/mm/shmem.c: a table for an address that has none yet is put in its place in the list.
use ucorebook_code.Prelude.{
  ℕ, ◌+◌, ◌%◌, ◌≤◌, ◌<◌, ◌≡◌, ◌⊎◌, inl, inr, refl, sym, ap, Bool-cases, ltb, List, [], ◌∷◌, none,
  some, arith, update, update_self, update_ne, In,
}
use native.Mathlib.Nat.{mod-eq_of_lt}
use ucorebook_code.Mm.Vmm.{word}
use ucorebook_code.Mm.Tree.{insert_by}
use ucorebook_code.Mm.Vmm.Lists.{In-insert_by}
use ucorebook_code.Mm.Vmm.Agree.{Agree, IsOrdered-Agree}
use ucorebook_code.Mm.Vmm.Place.{
  key_of, Apart, insert_by-IsOrdered, insert_after-find_prev, check_prev-find_prev,
  check_next-find_prev,
}
use ucorebook_code.Mm.Shmem.{Shmn, Shmem, span, as_area, areas, holds, find_in_list, insert_shmn}
use ucorebook_code.Mm.Shmem.Entries.{AllSpans, IsShmem}

abbrev table_at : ℕ → Shmn
table_at start = record { start = start; end = (start + span) % word; entry = λ i. 0 }

abbrev with_table : ℕ → ℕ → Shmem → Shmem
with_table a start m = record m { shmns = update m.shmns a (table_at start) }

-- Whole spans that do not both have the address do not meet.
span_apart :
    (s start addr : ℕ)
    → s % span ≡ 0
    → start % span ≡ 0
    → start ≤ addr
    → addr < start + span
    → (addr < s) ⊎ (s + span ≤ addr)
    → (s + span ≤ start) ⊎ (start + span ≤ s)
span_apart s start addr a b c d (inl e) = inr (omega arith)
span_apart s start addr a b c d (inr e) = inl (omega arith)

module _ (m : Shmem) (a start addr : ℕ) (sp : start % span ≡ 0) (lo : start ≤ addr)
    (hi : addr < start + span) (room : start + span < word) where
  abbrev m' : Shmem
  m' = with_table a start m

  Agree-areas : (xs : List ℕ) → (In a xs → ⊥) → Agree (areas m) (areas m') xs
  unfolding areas
  Agree-areas [] n = tt
  Agree-areas (x ∷ xs) n = (
    ap as_area (update_ne m.shmns (table_at start) (λ e. n (inl (sym e)))),
    Agree-areas xs (λ h. n (inr h)),
  )

  AllSpans-update : (xs : List ℕ) → (In a xs → ⊥) → AllSpans m.shmns xs → AllSpans m'.shmns xs
  AllSpans-update [] n s = tt
  AllSpans-update (x ∷ xs) n (s, t, ss) =
      rw (update_ne m.shmns (table_at start) (λ e. n (inl (sym e))))
        (s, t, AllSpans-update xs (λ h. n (inr h)) ss)

  end_eq : (start + span) % word ≡ start + span
  end_eq = mod-eq_of_lt room

  Apart-areas :
      (xs : List ℕ)
      → (In a xs → ⊥)
      → AllSpans m.shmns xs
      → find_in_list m.shmns xs addr ≡ none
      → Apart (areas m') a xs
  unfolding areas as_area find_in_list holds
  Apart-areas [] n s e = tt
  Apart-areas (x ∷ xs) n (s, t, ss) e = elim (Bool-cases (holds addr (m.shmns x))) [
    | inl h ↦ absurd (let e' = rw h at e in cc)
    | inr h ↦
        let out : (addr < (m.shmns x).start) ⊎ ((m.shmns x).start + span ≤ addr) = ground arith in
        let ap' = span_apart (m.shmns x).start start addr s sp lo hi out in
        (
          rw
              (
                update_ne m.shmns (table_at start) (λ q. n (inl (sym q))),
                update_self m.shmns a (table_at start),
                end_eq,
                t,
              )
              ap',
          Apart-areas xs (λ j. n (inr j)) ss (rw h at e),
        )
  ]

AllSpans-insert_by :
    (f : ℕ → Shmn) (key : ℕ → ℕ) (a : ℕ) (xs : List ℕ)
    → (f a).start % span ≡ 0
    → (f a).end ≡ (f a).start + span
    → AllSpans f xs
    → AllSpans f (insert_by key a xs)
AllSpans-insert_by f key a [] s t h = (s, t, tt)
AllSpans-insert_by f key a (x ∷ xs) s t (b, c, h) = elim (Bool-cases (ltb (key a) (key x))) [
  | inl q ↦ rw q (s, t, (b, c, h))
  | inr q ↦ rw q (b, c, AllSpans-insert_by f key a xs s t h)
]

new_bounds :
    (m : Shmem) (a start : ℕ)
    → start + span < word
    → ((update m.shmns a (table_at start) a).start ≡ start)
      × ((update m.shmns a (table_at start) a).end
          ≡ (update m.shmns a (table_at start) a).start + span)
new_bounds m a start room = rw (update_self m.shmns a (table_at start)) (refl, mod-eq_of_lt room)

new_area :
    (m : Shmem) (a start : ℕ)
    → start + span < word
    → (areas (with_table a start m) a).vm_start < (areas (with_table a start m) a).vm_end
unfolding areas as_area
new_area m a start room = let (s, t) = new_bounds m a start room in omega arith

start_eq :
    (m : Shmem) (a start : ℕ)
    → ((with_table a start m).shmns a).start ≡ (areas (with_table a start m) a).vm_start
unfolding areas as_area
start_eq m a start = refl

-- The new table is linked in without a failing assertion, and the tables are in order again.
pub insert_shmn_lem :
    (m : Shmem) (a start addr : ℕ)
    → IsShmem m
    → (In a m.shmn_list → ⊥)
    → start % span ≡ 0
    → start ≤ addr
    → addr < start + span
    → start + span < word
    → find_in_list m.shmns m.shmn_list addr ≡ none
    → (m' : Shmem) × (insert_shmn a (with_table a start m) ≡ some m')
      × IsShmem m'
      × (m'.shmn_list ≡ insert_by (key_of (areas (with_table a start m))) a m.shmn_list)
unfolding insert_shmn areas
insert_shmn_lem m a start addr i n sp lo hi room e =
    let f = areas (with_table a start m) in
    let agree = Agree-areas m a start addr sp lo hi room m.shmn_list n in
    let o = IsOrdered-Agree (areas m) f 0 m.shmn_list agree i.ordered in
    let apart = Apart-areas m a start addr sp lo hi room m.shmn_list n i.spans e in
    let spans = AllSpans-update m a start addr sp lo hi room m.shmn_list n i.spans in
    let (s, t) = new_bounds m a start room in
    let long : (f a).vm_start < (f a).vm_end = new_area m a start room in
    let put = insert_after-find_prev f 0 a m.shmn_list o in
    (
      record (with_table a start m) { shmn_list = insert_by (key_of f) a m.shmn_list },
      rw
          (
            start_eq m a start,
            check_prev-find_prev f 0 a m.shmn_list long apart o,
            check_next-find_prev f 0 a m.shmn_list long apart o,
            put,
          )
          refl,
      record {
        ordered = insert_by-IsOrdered f 0 a m.shmn_list (omega arith) long apart o;
        spans =
            AllSpans-insert_by (update m.shmns a (table_at start)) (key_of f) a m.shmn_list
              (rw s sp) t spans;
        in_cache = λ x q. In-insert_by (key_of f) a m.shmn_list x (i.in_cache x q);
        bounded = i.bounded;
      },
      refl,
    )
