-- ===== src/Sfs/Bitmap.antt =====
-- kern/fs/sfs/bitmap.c: which blocks of a disk are free. A word of the map is the function from an
-- offset to its bit, and a set bit means free.
pub mod Bits
pub mod Alloc
pub mod Free
pub mod Create
use ucorebook_code.Prelude.{
  ℕ, zero, suc, ◌+◌, ◌-◌, ◌*◌, ◌/◌, ◌%◌, ◌^◌, Bool, true, false, not, ◌&&◌, ◌||◌, ltb, ◌==◌,
  if◌then◌else◌, Option, none, some, assert, ◌>>=◌, ◌>>◌, update,
}
use ucorebook_code.Prelude.Errno.{e_no_mem, Result, ok, err}

-- `WORD_BITS`
abbrev pub word_bits : ℕ
word_bits = 32

pub record Bitmap : Type 0 where
  pub nbits : ℕ
  pub nwords : ℕ
  pub map : ℕ → ℕ → Bool

-- `map[ix] ^= 1 << offset`
unfoldable pub flip : ℕ → ℕ → (ℕ → ℕ → Bool) → ℕ → ℕ → Bool
unfolding update
flip ix offset map = update map ix (update (map ix) offset (not (map ix offset)))

-- Whether one of the low `n` bits is set.
unfoldable pub is_nonzero : ℕ → (ℕ → Bool) → Bool
is_nonzero zero word = false
is_nonzero (suc n) word = word n || is_nonzero n word

-- The bits from `offset` on, `n` of them, marked in use.
unfoldable pub mark_leftover : ℕ → ℕ → ℕ → (ℕ → ℕ → Bool) → ℕ → ℕ → Bool
mark_leftover zero ix offset map = map
mark_leftover (suc n) ix offset map = mark_leftover n ix (offset + 1) (flip ix offset map)

-- A map whose leftover bits are still to be marked.
unfoldable pub create_with : ℕ → Bitmap → Option Bitmap
create_with nbits b =
    let ix = b.nwords - 1 in
    let overbits = nbits - ix * word_bits in
    let marked : Option Bitmap = (do
      assert (nbits / word_bits == ix)
      assert (ltb 0 overbits && ltb overbits word_bits)
      some (record b { map = mark_leftover (word_bits - overbits) ix overbits b.map })) in
    if not (nbits == b.nwords * word_bits) then marked else some b

-- `nbits` bits, and whether there was memory for the structure and for the map; the inner option is
-- `none` for NULL.
unfoldable pub bitmap_create : ℕ → Bool → Bool → Option (Option Bitmap)
bitmap_create nbits got_bitmap got_map =
    let b : Bitmap = record {
      nbits = nbits;
      nwords = (nbits + word_bits - 1) / word_bits;
      map = λ ix offset. true;
    } in
    let created : Option (Option Bitmap) = (do b' ← create_with nbits b; some (some b')) in
    do
      assert (not (nbits == 0) && ltb nbits ((nbits + word_bits) % 2 ^ 32))
      if got_bitmap && got_map then created else some none

-- The first set bit from `offset` on, among `n`.
unfoldable pub find_bit : ℕ → ℕ → (ℕ → Bool) → Option ℕ
find_bit zero offset word = none
find_bit (suc n) offset word =
    let rest = find_bit n (offset + 1) word in if word offset then some offset else rest

-- The bit that was found in a word that is not 0, taken.
unfoldable pub take_bit : ℕ → Option ℕ → Bitmap → Option (Result ℕ × Bitmap)
take_bit ix none b = none
take_bit ix (some offset) b =
    some (ok (ix * word_bits + offset), record b { map = flip ix offset b.map })

-- The words from `ix` on, `n` of them.
unfoldable pub alloc_from : ℕ → ℕ → Bitmap → Option (Result ℕ × Bitmap)
alloc_from zero ix b = some (err e_no_mem, b)
alloc_from (suc n) ix b =
    let rest = alloc_from n (ix + 1) b in
    if is_nonzero word_bits (b.map ix)
    then take_bit ix (find_bit word_bits 0 (b.map ix)) b
    else rest

unfoldable pub bitmap_alloc : Bitmap → Option (Result ℕ × Bitmap)
bitmap_alloc b = alloc_from b.nwords 0 b

-- The word and the bit in it.
unfoldable pub bitmap_translate : ℕ → Bitmap → Option (ℕ × ℕ)
bitmap_translate index b = do
  assert (ltb index b.nbits)
  some (index / word_bits, index % word_bits)

unfoldable pub bitmap_test : ℕ → Bitmap → Option Bool
bitmap_test index b = do (ix, offset) ← bitmap_translate index b; some (b.map ix offset)

unfoldable pub bitmap_free : ℕ → Bitmap → Option Bitmap
unfolding update
bitmap_free index b = do
  (ix, offset) ← bitmap_translate index b
  assert (not (b.map ix offset))
  some (record b { map = update b.map ix (update (b.map ix) offset true) })

-- The length of the map in bytes, where it is asked for, and the map.
unfoldable pub bitmap_getdata : Bitmap → ℕ × (ℕ → ℕ → Bool)
bitmap_getdata b = (4 * b.nwords, b.map)
