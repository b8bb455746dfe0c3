-- ===== src/Sfs/Bitmap/Alloc.antt =====
-- Which block `bitmap_alloc` gives.
use ucorebook_code.Prelude.{
  ℕ, zero, suc, ◌+◌, ◌*◌, ◌/◌, ◌%◌, ◌<◌, ◌≤◌, ◌≡◌, ◌≢◌, refl, ◌∙◌, Bool, true, false, Bool-cases,
  ltb, Option, some, arith, inl, inr, ◌⊎◌, ℕ_discrete,
}
use ucorebook_code.Prelude.Errno.{e_no_mem, Result, ok, err}
use ucorebook_code.Sfs.Bitmap.{
  Bitmap, word_bits, flip, is_nonzero, find_bit, take_bit, alloc_from, bitmap_alloc,
}
use ucorebook_code.Sfs.Bitmap.Bits.{
  IsValid, is_free, is_nonzero-clear, is_nonzero-set, is_free_at, flip_at, flip-off, flip_other,
}

-- The lowest set bit from `offset` on, among `n`.
find_bit_cases :
    (n offset : ℕ) (word : ℕ → Bool)
    → ((j : ℕ) × (find_bit n offset word ≡ some j)
        × (offset ≤ j)
        × (j < offset + n)
        × (word j ≡ true)
        × ((k : ℕ) → offset ≤ k → k < j → word k ≡ false))
      ⊎ ((k : ℕ) → offset ≤ k → k < offset + n → word k ≡ false)
unfolding find_bit
find_bit_cases zero i word = inr (λ k h h'. absurd (omega arith))
find_bit_cases (suc n) i word = elim (Bool-cases (word i)) [
  | inl u ↦ inl (i, rw u refl, omega arith, omega arith, u, λ k h h'. absurd (omega arith))
  | inr u ↦ elim (find_bit_cases n (i + 1) word) [
    | inl (j, e, lo, hi, set, low) ↦ inl (
      j,
      rw u e,
      omega arith,
      omega arith,
      set,
      λ k h h'. elim (ℕ_discrete k i) [ yes same ↦ rw same u | no ne ↦ low k (omega arith) h' ],
    )
    | inr full ↦ inr (λ k h h'. elim (ℕ_discrete k i) [
      | yes same ↦ rw same u
      | no ne ↦ full k (omega arith) (omega arith)
    ])
  ]
]

-- The lowest free bit from word `ix` on is taken, or there is none in these words.
abbrev Takes : ℕ → ℕ → Bitmap → Option (Result ℕ × Bitmap) → Type 0
Takes n ix b o =
    ((j : ℕ) × (offset : ℕ) × (ix ≤ j)
      × (j < ix + n)
      × (offset < word_bits)
      × (o ≡ some (ok (j * word_bits + offset), record b { map = flip j offset b.map }))
      × (b.map j offset ≡ true)
      × ((j' k : ℕ)
          → ix ≤ j'
          → k < word_bits
          → j' * word_bits + k < j * word_bits + offset
          → b.map j' k ≡ false))
    ⊎ ((o ≡ some (err e_no_mem, b))
        × ((j' k : ℕ) → ix ≤ j' → j' < ix + n → k < word_bits → b.map j' k ≡ false))

-- A word that is not 0 gives its lowest set bit.
take_first :
    (n ix : ℕ) (b : Bitmap)
    → is_nonzero word_bits (b.map ix) ≡ true
    → Takes (suc n) ix b (take_bit ix (find_bit word_bits 0 (b.map ix)) b)
unfolding take_bit
take_first n ix b e = elim (find_bit_cases word_bits 0 (b.map ix)) [
  | inl (j, e', lo, hi, set, low) ↦ inl (
    ix,
    j,
    omega arith,
    omega arith,
    omega arith,
    rw e' refl,
    set,
    λ j' k h h' l. let same : j' ≡ ix = omega arith in rw same (low k (omega arith) (omega arith)),
  )
  | inr full ↦
      let (k, h, t) = is_nonzero-set word_bits (b.map ix) e in
      absurd (ground (arith, t, full k (omega arith) (omega arith)))
]

skip :
    (n ix : ℕ) (b : Bitmap)
    → is_nonzero word_bits (b.map ix) ≡ false
    → (o : Option (Result ℕ × Bitmap)) → Takes n (ix + 1) b o
    → Takes (suc n) ix b o
skip n ix b e o (inl (j, offset, lo, hi, small, e', set, low)) = inl (
  j,
  offset,
  omega arith,
  omega arith,
  small,
  e',
  set,
  λ j' k h h' l. elim (ℕ_discrete j' ix) [
    | yes same ↦ rw same (is_nonzero-clear word_bits (b.map ix) k e (omega arith))
    | no ne ↦ low j' k (omega arith) h' l
  ],
)
skip n ix b e o (inr (e', full)) = inr (
  e',
  λ j' k h h' l. elim (ℕ_discrete j' ix) [
    | yes same ↦ rw same (is_nonzero-clear word_bits (b.map ix) k e l)
    | no ne ↦ full j' k (omega arith) (omega arith) l
  ],
)

alloc_from-Takes : (n ix : ℕ) (b : Bitmap) → Takes n ix b (alloc_from n ix b)
unfolding alloc_from
alloc_from-Takes zero ix b = inr (refl, λ j' k h h' l. absurd (omega arith))
alloc_from-Takes (suc n) ix b = elim (Bool-cases (is_nonzero word_bits (b.map ix))) [
  | inl set ↦ rw set (take_first n ix b set)
  | inr all ↦ rw all (skip n ix b all (alloc_from n (ix + 1) b) (alloc_from-Takes n (ix + 1) b))
]

-- What `bitmap_alloc` does to the free blocks: the lowest is taken and no other changes, or none is free.
abbrev pub TakesLowest : Bitmap → Option (Result ℕ × Bitmap) → Type 0
TakesLowest b o =
    ((i : ℕ) × (b' : Bitmap) × (o ≡ some (ok i, b'))
      × (i < b.nbits)
      × (is_free b i ≡ true)
      × ((k : ℕ) → k < i → is_free b k ≡ false)
      × (is_free b' i ≡ false)
      × ((k : ℕ) → k ≢ i → is_free b' k ≡ is_free b k)
      × IsValid b')
    ⊎ ((o ≡ some (err e_no_mem, b)) × ((k : ℕ) → k < b.nbits → is_free b k ≡ false))

-- Taking a bit marks no bit free.
flip-IsValid :
    (b : Bitmap) (ix offset : ℕ)
    → IsValid b
    → ix < b.nwords
    → offset < word_bits
    → b.map ix offset ≡ true
    → IsValid (record b { map = flip ix offset b.map })
flip-IsValid b ix offset v h h' set = record {
  holds = v.holds;
  leftover = λ j k l l' m. ground (arith, flip_at ix offset b.map j k, v.leftover j k l l' m);
}

set-within :
    (b : Bitmap) (j offset : ℕ)
    → IsValid b
    → j < b.nwords
    → offset < word_bits
    → b.map j offset ≡ true
    → j * word_bits + offset < b.nbits
set-within b j offset v h h' set = elim (Bool-cases (ltb (j * word_bits + offset) b.nbits)) [
  | inl t ↦ ground arith
  | inr f ↦ absurd (ground (arith, v.leftover j offset h h' (ground arith)))
]

word_within : (b : Bitmap) (k : ℕ) → IsValid b → k < b.nbits → k / word_bits < b.nwords
word_within b k v h = let room = v.holds in omega arith

-- On a valid map `bitmap_alloc` never panics: it takes the lowest free block and changes no other, or
-- fails when no block is free.
pub bitmap_alloc-TakesLowest : (b : Bitmap) → IsValid b → TakesLowest b (bitmap_alloc b)
unfolding bitmap_alloc is_free
bitmap_alloc-TakesLowest b v = elim (alloc_from-Takes b.nwords 0 b) [
  | inl (j, offset, lo, hi', small, e, set, low) ↦
      let hi : j < b.nwords = omega arith in
      inl (
        j * word_bits + offset,
        record b { map = flip j offset b.map },
        e,
        set-within b j offset v hi small set,
        is_free_at b j offset small ∙ set,
        λ k h. low (k / word_bits) (k % word_bits) (omega arith) (omega arith) (omega arith),
        is_free_at (record b { map = flip j offset b.map }) j offset small
            ∙ flip-off j offset b.map set,
        λ k ne. flip_other j offset b.map k ne,
        flip-IsValid b j offset v hi small set,
      )
  | inr (e, full) ↦ inr (
    e,
    λ k h.
        let w = word_within b k v h in
        full (k / word_bits) (k % word_bits) (omega arith) (omega arith) (omega arith),
  )
]
