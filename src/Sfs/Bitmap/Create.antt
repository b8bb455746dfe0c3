-- ===== src/Sfs/Bitmap/Create.antt =====
-- What `bitmap_create` makes.
use ucorebook_code.Prelude.{
  ℕ, zero, suc, ◌+◌, ◌-◌, ◌*◌, ◌/◌, ◌%◌, ◌^◌, ◌<◌, ◌≤◌, ◌≡◌, ◌≢◌, refl, Bool, true, false, not,
  Bool-cases, ◌&&◌, ltb, leb, ◌==◌, if◌then◌else◌, Option, none, some, arith, inl, inr, ℕ_discrete,
}
use ucorebook_code.Sfs.Bitmap.{Bitmap, word_bits, flip, mark_leftover, create_with, bitmap_create}
use ucorebook_code.Sfs.Bitmap.Bits.{IsValid, is_free, flip_at}

-- Bits below the first leftover bit are as they were, and those from it on are flipped.
mark_leftover-at :
    (n ix o : ℕ) (map : ℕ → ℕ → Bool) (j k : ℕ)
    → mark_leftover n ix o map j k
      ≡ (if (j == ix) && (leb o k && ltb k (o + n)) then not (map j k) else map j k)
unfolding mark_leftover
mark_leftover-at zero ix o map j k = ground arith
mark_leftover-at (suc n) ix o map j k =
    rw (mark_leftover-at n ix (o + 1) (flip ix o map) j k) (ground (arith, flip_at ix o map j k))

-- A new map: `nbits` blocks, all free, and the bits behind them in use.
abbrev pub IsNew : ℕ → Bitmap → Type 0
IsNew nbits b =
    (b.nbits ≡ nbits)
    × (b.nwords ≡ (nbits + word_bits - 1) / word_bits)
    × IsValid b
    × ((i : ℕ) → i < nbits → is_free b i ≡ true)

abbrev fresh : ℕ → Bitmap
fresh nbits = record {
  nbits = nbits;
  nwords = (nbits + word_bits - 1) / word_bits;
  map = λ ix offset. true;
}

create_with-even :
    (nbits : ℕ)
    → nbits ≡ (nbits + word_bits - 1) / word_bits * word_bits
    → create_with nbits (fresh nbits) ≡ some (fresh nbits)
unfolding create_with
create_with-even nbits e = ground arith

fresh-IsNew :
    (nbits : ℕ)
    → nbits ≡ (nbits + word_bits - 1) / word_bits * word_bits
    → IsNew nbits (fresh nbits)
unfolding is_free
fresh-IsNew nbits e = (
  refl,
  refl,
  record { holds = omega arith; leftover = λ ix o h h' l. absurd (omega arith) },
  λ i h. refl,
)

-- The map with the bits behind the last marked.
abbrev marked : ℕ → Bitmap
marked nbits =
    let ix = (nbits + word_bits - 1) / word_bits - 1 in
    let overbits = nbits - ix * word_bits in
    record (fresh nbits) {
      map = mark_leftover (word_bits - overbits) ix overbits (λ ix offset. true);
    }

create_with-uneven :
    (nbits : ℕ)
    → 0 < nbits
    → nbits ≢ (nbits + word_bits - 1) / word_bits * word_bits
    → create_with nbits (fresh nbits) ≡ some (marked nbits)
unfolding create_with
create_with-uneven nbits h ne =
    let a : nbits / word_bits ≡ (nbits + word_bits - 1) / word_bits - 1 = omega arith in
    let lo : 0 < nbits - ((nbits + word_bits - 1) / word_bits - 1) * word_bits = omega arith in
    let hi : nbits - ((nbits + word_bits - 1) / word_bits - 1) * word_bits < word_bits =
      omega arith in
    ground arith

marked-IsNew :
    (nbits : ℕ)
    → 0 < nbits
    → nbits ≢ (nbits + word_bits - 1) / word_bits * word_bits
    → IsNew nbits (marked nbits)
unfolding is_free
marked-IsNew nbits h ne =
    let ix = (nbits + word_bits - 1) / word_bits - 1 in
    let over = nbits - ix * word_bits in
    let lo : 0 < over = omega arith in
    let hi : over < word_bits = omega arith in
    (
      refl,
      refl,
      record {
        holds = omega arith;
        leftover = λ j o h' h'' l.
            let last : j ≡ ix = omega arith in
            let above : over ≤ o = omega arith in
            ground (arith, mark_leftover-at (word_bits - over) ix over (λ ix offset. true) j o);
      },
      λ i h'. ground (
        arith,
        mark_leftover-at (word_bits - over) ix over (λ ix offset. true) (i / word_bits)
            (i % word_bits),
      ),
    )

-- The map is made; the inner option is NULL exactly where memory ran out.
abbrev pub IsCreated : ℕ → Bool → Option Bitmap → Type 0
IsCreated nbits got none = got ≡ false
IsCreated nbits got (some b) = (got ≡ true) × IsNew nbits b

create_with-IsNew :
    (nbits : ℕ)
    → 0 < nbits
    → (b : Bitmap) × (create_with nbits (fresh nbits) ≡ some b) × IsNew nbits b
create_with-IsNew nbits h =
    elim (ℕ_discrete nbits ((nbits + word_bits - 1) / word_bits * word_bits)) [
      | yes even ↦ (fresh nbits, create_with-even nbits even, fresh-IsNew nbits even)
      | no ne ↦ (marked nbits, create_with-uneven nbits h ne, marked-IsNew nbits h ne)
    ]

-- For 1 to 2 ^ 32 - 33 blocks `bitmap_create` never panics: it gives NULL exactly where memory ran
-- out, and otherwise a valid map in which every block is free.
pub bitmap_create-IsCreated :
    (nbits : ℕ) (got_bitmap got_map : Bool)
    → 0 < nbits
    → nbits + word_bits < 2 ^ 32
    → (o : Option Bitmap) × (bitmap_create nbits got_bitmap got_map ≡ some o)
      × IsCreated nbits (got_bitmap && got_map) o
unfolding bitmap_create
bitmap_create-IsCreated nbits got_bitmap got_map h h' =
    let (b, e, new) = create_with-IsNew nbits h in
    let checked : not (nbits == 0) && ltb nbits ((nbits + word_bits) % 2 ^ 32) ≡ true =
      ground arith in
    elim (Bool-cases (got_bitmap && got_map)) [
      | inl got ↦ (some b, rw (checked, got, e) refl, (got, new))
      | inr out ↦ (none, rw (checked, out) refl, out)
    ]
