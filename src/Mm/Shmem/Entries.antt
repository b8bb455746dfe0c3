-- ===== src/Mm/Shmem/Entries.antt =====
-- kern/mm/shmem.c: the tables do not meet, and the table of an address is found whatever the cache is.
use ucorebook_code.Prelude.{
  ℕ, ◌+◌, ◌%◌, ◌≤◌, ◌≡◌, inl, inr, refl, sym, true, false, Bool-cases, Option-cases, ltb, leb, List,
  [], ◌∷◌, some, arith, ◌&&◌, In,
}
use ucorebook_code.Mm.Vmm.{usertop}
use ucorebook_code.Mm.Vmm.Order.{IsOrdered, start-In}
use ucorebook_code.Mm.Shmem.{
  Shmn, Shmem, span, as_area, areas, holds, find_in_list, find_cached, cache_shmn, find_shmn,
}

-- The tables are in order and cover whole spans of the memory, and the cache has one of them.
abbrev pub AllSpans : (ℕ → Shmn) → List ℕ → Type 0
AllSpans f [] = Unit {0}
AllSpans f (x ∷ xs) = ((f x).start % span ≡ 0) × ((f x).end ≡ (f x).start + span) × AllSpans f xs

pub record IsShmem (m : Shmem) : Type 0 where
  pub ordered : IsOrdered (areas m) 0 m.shmn_list
  pub spans : AllSpans m.shmns m.shmn_list
  pub in_cache : (x : ℕ) → m.shmn_cache ≡ some x → In x m.shmn_list
  pub bounded : m.len ≤ usertop

find_in_list-In :
    (m : Shmem) (lo : ℕ) (xs : List ℕ) (x addr : ℕ)
    → IsOrdered (areas m) lo xs
    → In x xs
    → holds addr (m.shmns x) ≡ true
    → find_in_list m.shmns xs addr ≡ some x
unfolding find_in_list holds areas as_area
find_in_list-In m lo [] x addr o i h = elim i [ ]
find_in_list-In m lo (y ∷ ys) x addr (l, s, o) (inl e) h = let h' = rw e at h in rw (e, h') refl
find_in_list-In m lo (y ∷ ys) x addr (l, s, o) (inr i) h =
    let k = start-In (areas m) ys (m.shmns y).end x o i in
    let n : (leb (m.shmns y).start addr && ltb addr (m.shmns y).end) ≡ false = ground arith in
    rw n (find_in_list-In m (m.shmns y).end ys x addr o i h)

In-find_in_list :
    (f : ℕ → Shmn) (xs : List ℕ) (x addr : ℕ)
    → find_in_list f xs addr ≡ some x
    → In x xs × (holds addr (f x) ≡ true)
unfolding find_in_list
In-find_in_list f [] x addr e = cc
In-find_in_list f (y ∷ ys) x addr e = elim (Bool-cases (holds addr (f y))) [
  | inl t ↦ let same : y ≡ x = ground arith in (inl (sym same), rw (← same) t)
  | inr t ↦ let (i, h) = In-find_in_list f ys x addr (rw t at e) in (inr i, h)
]

find_cached_lem :
    (m : Shmem) (addr x : ℕ)
    → IsShmem m
    → find_cached addr m ≡ some x
    → find_in_list m.shmns m.shmn_list addr ≡ some x
unfolding find_cached
find_cached_lem m addr x i e = elim (Option-cases m.shmn_cache) [
  | inl q ↦ absurd (let e' = rw q at e in cc)
  | inr (y, q) ↦
      let e' = rw q at e in
      let same : y ≡ x = ground arith in
      let h : holds addr (m.shmns x) ≡ true = rw (← same) (ground arith) in
      find_in_list-In m 0 m.shmn_list x addr i.ordered (i.in_cache x (rw (← same) q)) h
]

-- `find_shmn` gives the table of the list that has the address, also where it comes from the cache.
pub find_shmn_lem :
    (m : Shmem) (addr : ℕ)
    → IsShmem m
    → find_shmn addr m ≡ cache_shmn (find_in_list m.shmns m.shmn_list addr) m
unfolding find_shmn
find_shmn_lem m addr i = elim (Option-cases (find_cached addr m)) [
  | inl e ↦ rw (find_shmn, e) refl
  | inr (x, e) ↦ rw (find_shmn, e, find_cached_lem m addr x i e) refl
]
