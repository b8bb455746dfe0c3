-- ===== src/Tests/Libs.antt =====
-- Strings and blocks of memory.
use ucorebook_code.Prelude.{ℕ, ◌<◌, ◌≡◌, ◌↔◌, refl, List, [], ◌∷◌, ◌++◌, some, arith}
use ucorebook_code.Prelude.Int.{ℤ, pos, neg_part}
use ucorebook_code.Libs.Str.{strlen, strcpy, strcmp}
use ucorebook_code.Libs.Str.Copy.{IsText, strlen_lem, strcpy_lem}
use ucorebook_code.Libs.Str.Compare.{IsBefore, strcmp_lem}
use ucorebook_code.Libs.Printnum.{hex_digit, printnum, pads, Prints, printnum-Prints}
use ucorebook_code.Libs.Mem.{Memory, memmove}
use ucorebook_code.Libs.Mem.Blocks.{memmove_lem}

abbrev abc : List ℕ
abc = 97 ∷ 98 ∷ 99 ∷ []

abbrev abd : List ℕ
abd = 97 ∷ 98 ∷ 100 ∷ []

abc-IsText : IsText abc
abc-IsText = omega arith

abd-IsText : IsText abd
abd-IsText = omega arith

abbrev counting : Memory
counting a = a

strcpy_runs : strcpy (1 ∷ 2 ∷ 3 ∷ 4 ∷ 5 ∷ []) (abc ++ (0 ∷ [])) ≡ some (97 ∷ 98 ∷ 99 ∷ 0 ∷ 5 ∷ [])
unfolding strcpy
strcpy_runs = refl

memmove_runs : (memmove 2 1 3 counting 2 ≡ 1) × (memmove 2 1 3 counting 4 ≡ 3)
unfolding memmove
memmove_runs = (refl, refl)

strlen_lem_example : strlen (abc ++ (0 ∷ 7 ∷ [])) ≡ some 3
strlen_lem_example = strlen_lem abc (7 ∷ []) abc-IsText

strcpy_lem_example :
    strcpy (1 ∷ 2 ∷ 3 ∷ 4 ∷ 5 ∷ []) (abc ++ (0 ∷ 7 ∷ [])) ≡ some (97 ∷ 98 ∷ 99 ∷ 0 ∷ 5 ∷ [])
strcpy_lem_example = strcpy_lem (1 ∷ 2 ∷ 3 ∷ 4 ∷ 5 ∷ []) abc (7 ∷ []) abc-IsText

strcmp_lem_example :
    (v : ℤ) × (strcmp (abc ++ (0 ∷ [])) (abd ++ (0 ∷ [])) ≡ some v)
    × ((v ≡ pos 0) ↔ (abc ≡ abd))
    × ((0 < neg_part v) ↔ IsBefore abc abd)
strcmp_lem_example = strcmp_lem abc [] abd [] abc-IsText abd-IsText

memmove_lem_example : memmove 2 1 3 counting 4 ≡ 3
memmove_lem_example = memmove_lem 2 1 3 counting 4

-- 31 in base 16, in 4 places
printed : printnum 32 31 16 4 32 ≡ some (32 ∷ 32 ∷ 49 ∷ 102 ∷ [])
unfolding printnum pads hex_digit
printed = refl

printnum-Prints_example : Prints 31 16 4 32 (printnum 32 31 16 4 32)
printnum-Prints_example = printnum-Prints 32 31 16 4 32 (omega arith) (omega arith) (omega arith)
