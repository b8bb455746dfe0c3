-- ===== src/Mm/Buddy/Conserve.antt =====
-- No page is lost or gained by an allocation.
use native.Mathlib.Nat.{pow-succ'}
use ucorebook_code.Prelude.{
  ℕ, zero, suc, ◌+◌, ◌-◌, ◌*◌, ◌^◌, ◌≤◌, ◌<◌, ◌≡◌, refl, true, false, ltb, leb, ◌&&◌, ◌==◌,
  Bool-cases, if◌then◌else◌, List, [], ◌∷◌, Option, none, some, arith, update, ℕ_discrete, inl, inr,
  ◌⊎◌,
}
use ucorebook_code.Mm.Buddy.{
  Page, Pmm, max_order, put, split, take_block, alloc_from, buddy_alloc_pages_sub, nr_free_below,
  buddy_nr_free_pages,
}

one_more : (a b : ℕ) → (a + 1) * b ≡ a * b + b
one_more a b = grind arith

one_less : (a b : ℕ) → 1 ≤ a → (a - 1) * b + b ≡ a * b
one_less zero b h = absurd (omega arith)
one_less (suc a) b h = grind arith

twice : (n : ℕ) → 2 ^ n + 2 ^ n ≡ 2 ^ suc n
twice n = let e = pow-succ' 2 n in omega arith

-- A block put in a list adds its pages.
nr_free_below-put :
    (n order p : ℕ) (m : Pmm)
    → nr_free_below n (put order p m) ≡ nr_free_below n m + (if ltb order n then 2 ^ order else 0)
unfolding nr_free_below put update
nr_free_below-put zero order p m = ground arith
nr_free_below-put (suc n) order p m = elim (ℕ_discrete order n) [
  | yes e ↦ ground (arith, e, one_more (m.areas n).nr_free (2 ^ n), nr_free_below-put n order p m)
  | no ne ↦ ground (arith, nr_free_below-put n order p m)
]

nr_free_below-put_in :
    (n order p : ℕ) (m : Pmm)
    → order < n
    → nr_free_below n (put order p m) ≡ nr_free_below n m + 2 ^ order
nr_free_below-put_in n order p m h = ground (arith, nr_free_below-put n order p m)

nr_free_below-split :
    (n rounds cur page : ℕ) (m : Pmm)
    → rounds ≤ cur
    → cur ≤ n
    → nr_free_below n (split rounds cur page m) + 2 ^ (cur - rounds) ≡ nr_free_below n m + 2 ^ cur
unfolding split
nr_free_below-split n zero cur page m h h' = let z : cur - 0 ≡ cur = omega arith in rw z refl
nr_free_below-split n (suc rounds) zero page m h h' = absurd (omega arith)
nr_free_below-split n (suc rounds) (suc c) page m h h' =
    let below : suc c - 1 ≡ c = omega arith in
    let left : suc c - suc rounds ≡ c - rounds = omega arith in
    let one = nr_free_below-put_in n c (page + 2 ^ c) m (omega arith) in
    let rest =
      nr_free_below-split n rounds c page (put c (page + 2 ^ c) m) (omega arith) (omega arith) in
    let double = twice c in rw (below, left) (omega arith)

-- Every list that holds a block is counted.
abbrev pub IsCounted : Pmm → Type 0
IsCounted m =
    (i p : ℕ) (rest : List ℕ)
    → i ≤ max_order
    → (m.areas i).free_list ≡ p ∷ rest
    → 1 ≤ (m.areas i).nr_free

-- One list without its first block.
abbrev dropped : ℕ → List ℕ → Pmm → Pmm
dropped cur rest m = record m {
  areas = update m.areas cur (record { free_list = rest; nr_free = (m.areas cur).nr_free - 1 });
}

nr_free_below-above :
    (n cur : ℕ) (rest : List ℕ) (m : Pmm)
    → n ≤ cur
    → nr_free_below n (dropped cur rest m) ≡ nr_free_below n m
unfolding nr_free_below update
nr_free_below-above zero cur rest m h = refl
nr_free_below-above (suc n) cur rest m h =
    ground (arith, nr_free_below-above n cur rest m (omega arith))

nr_free_below-drop :
    (n cur : ℕ) (rest : List ℕ) (m : Pmm)
    → cur < n
    → 1 ≤ (m.areas cur).nr_free
    → nr_free_below n (dropped cur rest m) + 2 ^ cur ≡ nr_free_below n m
unfolding nr_free_below update
nr_free_below-drop zero cur rest m h c = absurd (omega arith)
nr_free_below-drop (suc n) cur rest m h c = elim (ℕ_discrete cur n) [
  | yes e ↦
      ground (arith, e, nr_free_below-above n cur rest m, one_less (m.areas cur).nr_free (2 ^ n) c)
  | no ne ↦ ground (arith, nr_free_below-drop n cur rest m (omega arith) c)
]

-- The marks of the pages do not count.
nr_free_below-pages :
    (n : ℕ) (m : Pmm) (pages : ℕ → Page)
    → nr_free_below n (record m { pages = pages }) ≡ nr_free_below n m
unfolding nr_free_below
nr_free_below-pages zero m pages = refl
nr_free_below-pages (suc n) m pages = rw (nr_free_below-pages n m pages) refl

abbrev Takes : ℕ → Pmm → Option ℕ × Pmm → Type 0
Takes order m (none, m') = m' ≡ m
Takes order m (some p, m') =
    (nr_free_below 11 m' + 2 ^ order ≡ nr_free_below 11 m) × ((m'.pages p).is_free ≡ false)

same_count : (a b c k : ℕ) → a ≡ b → b + k ≡ c → a + k ≡ c
same_count a b c k e e' = omega arith

marked :
    (pages : ℕ → Page) (p : ℕ)
    → (update pages p (record (pages p) { is_free = false }) p).is_free ≡ false
unfolding update
marked pages p = ground arith

take_block-Takes :
    (cur order p : ℕ) (rest : List ℕ) (m : Pmm)
    → order ≤ cur
    → cur ≤ max_order
    → 1 ≤ (m.areas cur).nr_free
    → Takes order m (some p, (take_block cur order p rest m).1)
unfolding take_block
take_block-Takes cur order p rest m h h' c =
    let m₂ = split (cur - order) cur p (dropped cur rest m) in
    let left : cur - (cur - order) ≡ order = omega arith in
    let a =
      nr_free_below-split 11 (cur - order) cur p (dropped cur rest m) (omega arith) (omega arith) in
    let b = nr_free_below-drop 11 cur rest m (omega arith) c in
    let a' : nr_free_below 11 m₂ + 2 ^ order ≡ nr_free_below 11 (dropped cur rest m) + 2 ^ cur =
      (rw left at a) in
    (
      same_count _ _ _ _
          (nr_free_below-pages 11 m₂ (update m₂.pages p (record (m₂.pages p) { is_free = false })))
          (omega arith),
      marked m₂.pages p,
    )

-- To split on a list and keep the equation.
list_cases : (l : List ℕ) → (l ≡ []) ⊎ ((p : ℕ) × (rest : List ℕ) × (l ≡ p ∷ rest))
list_cases [] = inl refl
list_cases (p ∷ rest) = inr (p, rest, refl)

alloc_from-Takes :
    (rounds cur order : ℕ) (m : Pmm)
    → IsCounted m
    → order ≤ cur
    → cur + rounds ≤ 11
    → Takes order m (alloc_from rounds cur order m)
unfolding alloc_from
alloc_from-Takes zero cur order m v h h' = refl
alloc_from-Takes (suc rounds) cur order m v h h' = elim (list_cases (m.areas cur).free_list) [
  | inl e ↦
      rw (alloc_from, e) (alloc_from-Takes rounds (cur + 1) order m v (omega arith) (omega arith))
  | inr (p, rest, e) ↦
      let some_left : 1 ≤ (m.areas cur).nr_free = v cur p rest (omega arith) e in
      rw (alloc_from, e) (take_block-Takes cur order p rest m h (omega arith) some_left)
]

-- Each halving puts the half behind the page in front of the list of its order.
abbrev with_halves : ℕ → ℕ → ℕ → Pmm → ℕ → List ℕ
with_halves low cur page m i =
    if leb low i && ltb i cur then (page + 2 ^ i) ∷ (m.areas i).free_list else (m.areas i).free_list

put-lists :
    (order p i : ℕ) (m : Pmm)
    → ((put order p m).areas i).free_list
      ≡ (if i == order then p ∷ (m.areas i).free_list else (m.areas i).free_list)
unfolding put update
put-lists order p i m = ground arith

split-lists :
    (rounds cur page i : ℕ) (m : Pmm)
    → rounds ≤ cur
    → ((split rounds cur page m).areas i).free_list ≡ with_halves (cur - rounds) cur page m i
unfolding split
split-lists zero cur page i m h = ground arith
split-lists (suc rounds) zero page i m h = absurd (omega arith)
split-lists (suc rounds) (suc c) page i m h =
    let below : suc c - 1 ≡ c = omega arith in
    let left : suc c - suc rounds ≡ c - rounds = omega arith in
    let ih = split-lists rounds c page i (put c (page + 2 ^ c) m) (omega arith) in
    let one = put-lists c (page + 2 ^ c) i m in
    let main : ((split rounds c page (put c (page + 2 ^ c) m)).areas i).free_list
        ≡ with_halves (c - rounds) (suc c) page m i =
      elim (ℕ_discrete i c) [
        | yes e ↦ ground (arith, ih, one, e)
        | no ne ↦ ground (arith, ih, one)
      ] in
    rw (split, below, left) main

-- All orders from `order` on and below `cur` have no block.
abbrev pub AreEmpty : ℕ → ℕ → Pmm → Type 0
AreEmpty order cur m = (i : ℕ) → order ≤ i → i < cur → (m.areas i).free_list ≡ []

-- The lists after a block of order `cur` was taken for one of order `order`: its list without it, and
-- the halves behind the block in the lists between, which were empty.
abbrev pub lists_after : ℕ → ℕ → ℕ → List ℕ → Pmm → ℕ → List ℕ
lists_after order cur p rest m i =
    if i == cur
    then rest
    else if leb order i && ltb i cur
    then (p + 2 ^ i) ∷ []
    else (m.areas i).free_list

take_block-lists :
    (cur order p i : ℕ) (rest : List ℕ) (m : Pmm)
    → order ≤ cur
    → AreEmpty order cur m
    → ((take_block cur order p rest m).1.areas i).free_list ≡ lists_after order cur p rest m i
unfolding take_block update
take_block-lists cur order p i rest m h none_below =
    let left : cur - (cur - order) ≡ order = omega arith in
    let halves = split-lists (cur - order) cur p i (dropped cur rest m) (omega arith) in
    let halves' = rw left at halves in
    elim (Bool-cases (leb order i && ltb i cur)) [
      | inl t ↦ let e = none_below i (ground arith) (ground arith) in ground (arith, halves', e)
      | inr t ↦ ground (arith, halves')
    ]

-- What the allocator does to its lists: it takes the first block of the least order that has one.
abbrev pub TakesLeast : ℕ → Pmm → Option ℕ × Pmm → Type 0
TakesLeast order m (none, m') = AreEmpty order (max_order + 1) m
TakesLeast order m (some p, m') =
    (cur : ℕ) × (rest : List ℕ) × (order ≤ cur)
    × (cur ≤ max_order)
    × AreEmpty order cur m
    × ((m.areas cur).free_list ≡ p ∷ rest)
    × ((i : ℕ) → (m'.areas i).free_list ≡ lists_after order cur p rest m i)

alloc_from-TakesLeast :
    (rounds cur order : ℕ) (m : Pmm)
    → order ≤ cur
    → cur + rounds ≡ max_order + 1
    → AreEmpty order cur m
    → TakesLeast order m (alloc_from rounds cur order m)
unfolding alloc_from
alloc_from-TakesLeast zero cur order m h h' n = λ i a b. n i a (omega arith)
alloc_from-TakesLeast (suc rounds) cur order m h h' n = elim (list_cases (m.areas cur).free_list) [
  | inl e ↦
      rw (alloc_from, e)
        (alloc_from-TakesLeast rounds (cur + 1) order m (omega arith) (omega arith)
          (λ i a b. elim (ℕ_discrete i cur) [ yes q ↦ rw q e | no ne ↦ n i a (omega arith) ]))
  | inr (p, rest, e) ↦
      rw (alloc_from, e)
        (cur, rest, h, omega arith, n, e, λ i. take_block-lists cur order p i rest m h n)
]

-- What the allocator says of its free pages before and after.
abbrev pub Allocates : ℕ → Pmm → Option ℕ × Pmm → Type 0
Allocates order m (none, m') = (m' ≡ m) × TakesLeast order m (none, m')
Allocates order m (some p, m') =
    (buddy_nr_free_pages m' + 2 ^ order ≡ buddy_nr_free_pages m)
    × ((m'.pages p).is_free ≡ false)
    × TakesLeast order m (some p, m')

of_Takes :
    (order : ℕ) (m : Pmm) (o : Option ℕ) (m' : Pmm)
    → Takes order m (o, m')
    → TakesLeast order m (o, m')
    → Allocates order m (o, m')
unfolding buddy_nr_free_pages
of_Takes order m none m' h l = (h, l)
of_Takes order m (some p) m' h l = (h.0, h.1, l)

-- For an order up to 10, if every list that holds a block is counted, `buddy_alloc_pages_sub` does
-- not panic. If all lists from that order on are empty it gives no block and changes nothing.
-- Otherwise it takes the first block of the least order that has one: that block leaves its list, the
-- list of each order between gets exactly the half of the split that lies 2^i pages behind the block,
-- all other lists stay as they are, the block given is marked as taken, and the number of free pages
-- drops by exactly 2^order.
pub buddy_alloc_pages_sub-Allocates :
    (order : ℕ) (m : Pmm)
    → order ≤ 10
    → IsCounted m
    → (out : Option ℕ × Pmm) × (buddy_alloc_pages_sub order m ≡ some out) × Allocates order m out
unfolding buddy_alloc_pages_sub
buddy_alloc_pages_sub-Allocates order m h v =
    let ready : leb order max_order ≡ true = ground arith in
    let out = alloc_from (max_order + 1 - order) order order m in
    (
      out,
      rw ready refl,
      of_Takes order m out.0 out.1
          (alloc_from-Takes (max_order + 1 - order) order order m v (omega arith) (omega arith))
          (alloc_from-TakesLeast (max_order + 1 - order) order order m (omega arith) (omega arith)
            (λ i a b. absurd (omega arith))),
    )
