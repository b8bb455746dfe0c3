-- ===== src/Tests/Sfs.antt =====
-- The map of a disk of 40 blocks, of which the first three are in use.
use ucorebook_code.Prelude.{ℕ, ◌+◌, ◌*◌, ◌≡◌, ◌&&◌, refl, true, leb, ltb, Option, none, some, arith}
use ucorebook_code.Prelude.Errno.{Result, ok}
use ucorebook_code.Sfs.Bitmap.{
  Bitmap, bitmap_create, bitmap_alloc, bitmap_free, alloc_from, take_bit, find_bit, is_nonzero,
}
use ucorebook_code.Sfs.Bitmap.Bits.{IsValid}
use ucorebook_code.Sfs.Bitmap.Alloc.{TakesLowest, bitmap_alloc-TakesLowest}
use ucorebook_code.Sfs.Bitmap.Free.{Frees, bitmap_free-Frees}
use ucorebook_code.Sfs.Bitmap.Create.{IsCreated, bitmap_create-IsCreated}

abbrev disk : Bitmap
disk = record {
  nbits = 40;
  nwords = 2;
  map = λ ix offset. leb 3 (ix * 32 + offset) && ltb (ix * 32 + offset) 40;
}

disk-IsValid : IsValid disk
disk-IsValid = record { holds = omega arith; leftover = λ ix offset h h' l. ground arith }

abbrev number : Option (Result ℕ × Bitmap) → Option (Result ℕ)
number none = none
number (some (r, b)) = some r

takes_third : number (bitmap_alloc disk) ≡ some (ok 3)
unfolding bitmap_alloc alloc_from take_bit find_bit is_nonzero
takes_third = refl

bitmap_alloc-TakesLowest_example : TakesLowest disk (bitmap_alloc disk)
bitmap_alloc-TakesLowest_example = bitmap_alloc-TakesLowest disk disk-IsValid

bitmap_free-Frees_example : Frees 2 disk (bitmap_free 2 disk)
bitmap_free-Frees_example = bitmap_free-Frees 2 disk

bitmap_create-IsCreated_example :
    (o : Option Bitmap) × (bitmap_create 40 true true ≡ some o) × IsCreated 40 (true && true) o
bitmap_create-IsCreated_example = bitmap_create-IsCreated 40 true true (omega arith) (omega arith)
