-- ===== src/Sfs/Bitmap/Free.antt =====
-- What `bitmap_free` does to the free blocks.
use ucorebook_code.Prelude.{
  ℕ, ◌/◌, ◌%◌, ◌<◌, ◌≤◌, ◌≡◌, ◌≢◌, refl, Bool, true, false, Bool-cases, ltb, Option, none, some,
  arith, inl, inr, ◌⊎◌, update,
}
use ucorebook_code.Sfs.Bitmap.{Bitmap, word_bits, bitmap_translate, bitmap_free}
use ucorebook_code.Sfs.Bitmap.Bits.{is_free, write_other}

-- A call that needs the block's bit: it panics on a number out of range.
translate_within :
    (i : ℕ) (b : Bitmap) → i < b.nbits → bitmap_translate i b ≡ some (i / word_bits, i % word_bits)
unfolding bitmap_translate
translate_within i b h = ground arith

-- The call panics on a number out of range and on a block that is free; otherwise the block is
-- free afterwards and no other changes.
abbrev pub Frees : ℕ → Bitmap → Option Bitmap → Type 0
Frees i b o =
    ((i < b.nbits)
      × (is_free b i ≡ false)
      × (b' : Bitmap) × (o ≡ some b')
      × (is_free b' i ≡ true)
      × ((k : ℕ) → k ≢ i → is_free b' k ≡ is_free b k))
    ⊎ ((o ≡ none) × ((b.nbits ≤ i) ⊎ (is_free b i ≡ true)))

set_here : (m : ℕ → ℕ → Bool) (j k : ℕ) → update m j (update (m j) k true) j k ≡ true
unfolding update
set_here m j k = ground arith

free_outside : (i : ℕ) (b : Bitmap) → ltb i b.nbits ≡ false → bitmap_free i b ≡ none
unfolding bitmap_free bitmap_translate
free_outside i b out = rw out refl

free_free : (i : ℕ) (b : Bitmap) → i < b.nbits → is_free b i ≡ true → bitmap_free i b ≡ none
unfolding bitmap_free is_free
free_free i b h free = rw (translate_within i b h, free) refl

free_used : (i : ℕ) (b : Bitmap) → i < b.nbits → is_free b i ≡ false → Frees i b (bitmap_free i b)
unfolding bitmap_free is_free
free_used i b h used =
    let m = update b.map (i / word_bits) (update (b.map (i / word_bits)) (i % word_bits) true) in
    inl (
      h,
      used,
      record b { map = m },
      rw (translate_within i b h, used) refl,
      set_here b.map (i / word_bits) (i % word_bits),
      λ k ne. write_other (i / word_bits) (i % word_bits) b.map true k (λ e. ne (omega arith)),
    )

-- `bitmap_free` panics on a number out of range and on a block that is free; otherwise it makes the
-- block free and changes no other.
pub bitmap_free-Frees : (i : ℕ) (b : Bitmap) → Frees i b (bitmap_free i b)
bitmap_free-Frees i b = elim (Bool-cases (ltb i b.nbits)) [
  | inr out ↦ inr (free_outside i b out, inl (ground arith))
  | inl within ↦ elim (Bool-cases (is_free b i)) [
    | inl free ↦ inr (free_free i b (ground arith) free, inr free)
    | inr used ↦ free_used i b (ground arith) used
  ]
]
