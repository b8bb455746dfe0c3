-- ===== src/Sfs/Bitmap/Bits.antt =====
-- The bits of the map, by word and offset and by block number.
use ucorebook_code.Prelude.{
  ℕ, zero, suc, ◌+◌, ◌*◌, ◌/◌, ◌%◌, ◌<◌, ◌≤◌, ◌≡◌, ◌≢◌, refl, Bool, true, false, not, Bool-cases,
  ◌&&◌, ◌==◌, if◌then◌else◌, arith, inl, inr, update, ℕ_discrete,
}
use ucorebook_code.Sfs.Bitmap.{Bitmap, word_bits, flip, is_nonzero}

-- The words hold all the bits, and the bits behind the last are marked in use.
pub record IsValid (b : Bitmap) : Type 0 where
  pub holds : b.nbits ≤ b.nwords * word_bits
  pub leftover :
      (ix offset : ℕ)
      → ix < b.nwords
      → offset < word_bits
      → b.nbits ≤ ix * word_bits + offset
      → b.map ix offset ≡ false

-- The free blocks, by number.
unfoldable pub is_free : Bitmap → ℕ → Bool
is_free b i = b.map (i / word_bits) (i % word_bits)

pub is_nonzero-clear :
    (n : ℕ) (word : ℕ → Bool) (k : ℕ) → is_nonzero n word ≡ false → k < n → word k ≡ false
unfolding is_nonzero
is_nonzero-clear zero word k e h = absurd (omega arith)
is_nonzero-clear (suc n) word k e h = elim (ℕ_discrete k n) [
  | yes same ↦ rw same (ground arith)
  | no ne ↦ is_nonzero-clear n word k (ground arith) (omega arith)
]

pub is_nonzero-set :
    (n : ℕ) (word : ℕ → Bool) → is_nonzero n word ≡ true → (k : ℕ) × (k < n) × (word k ≡ true)
unfolding is_nonzero
is_nonzero-set zero word e = absurd (ground arith)
is_nonzero-set (suc n) word e = elim (Bool-cases (word n)) [
  | inl t ↦ (n, omega arith, t)
  | inr f ↦ let (k, h, t) = is_nonzero-set n word (ground arith) in (k, omega arith, t)
]

-- A bit by its word and its place in it.
pub is_free_at :
    (b : Bitmap) (j offset : ℕ)
    → offset < word_bits
    → is_free b (j * word_bits + offset) ≡ b.map j offset
unfolding is_free
is_free_at b j offset h =
    let word : (j * word_bits + offset) / word_bits ≡ j = omega arith in
    let bit : (j * word_bits + offset) % word_bits ≡ offset = omega arith in
    rw (is_free, word, bit) refl

pub flip_at :
    (ix offset : ℕ) (map : ℕ → ℕ → Bool) (j k : ℕ)
    → flip ix offset map j k ≡ (if (j == ix) && (k == offset) then not (map j k) else map j k)
unfolding flip update
flip_at ix offset map j k = ground arith

pub flip-off :
    (ix offset : ℕ) (map : ℕ → ℕ → Bool)
    → map ix offset ≡ true
    → flip ix offset map ix offset ≡ false
unfolding flip update
flip-off ix offset map e = ground arith

-- A write to one bit, seen from another.
pub write_other :
    (ix offset : ℕ) (map : ℕ → ℕ → Bool) (v : Bool) (k : ℕ)
    → k ≢ ix * word_bits + offset
    → update map ix (update (map ix) offset v) (k / word_bits) (k % word_bits)
      ≡ map (k / word_bits) (k % word_bits)
unfolding update
write_other ix offset map v k ne = elim (ℕ_discrete (k / word_bits) ix) [
  | yes same ↦ let apart : (k % word_bits) ≢ offset = λ e. ne (omega arith) in ground arith
  | no differ ↦ ground arith
]

pub flip_other :
    (ix offset : ℕ) (map : ℕ → ℕ → Bool) (k : ℕ)
    → k ≢ ix * word_bits + offset
    → flip ix offset map (k / word_bits) (k % word_bits) ≡ map (k / word_bits) (k % word_bits)
unfolding flip
flip_other ix offset map k ne = write_other ix offset map (not (map ix offset)) k ne
