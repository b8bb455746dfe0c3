-- ===== src/Libs/Str/Add.antt =====
-- kern/libs/string.c: `strdup` and `stradd`. The memory that `kmalloc` gives is as long as was asked
-- for; whether there was any is an argument, and the inner option is `none` for NULL.
use ucorebook_code.Prelude.{
  ℕ, ◌≡◌, refl, Bool, if◌then◌else◌, List, [], ◌∷◌, ◌++◌, take, Option, none, some, ◌>>=◌,
}
use ucorebook_code.Libs.Str.{strlen}
use ucorebook_code.Libs.Str.Copy.{IsText, strlen_lem, take-length-append}

unfoldable pub strdup : List ℕ → Bool → Option (Option (List ℕ))
strdup src got = do len ← strlen src; some (if got then some (take len src ++ 0 ∷ []) else none)

unfoldable pub stradd : List ℕ → List ℕ → Bool → Option (Option (List ℕ))
stradd src1 src2 got = do
  len1 ← strlen src1
  len2 ← strlen src2
  some (if got then some (take len1 src1 ++ take len2 src2 ++ 0 ∷ []) else none)

-- `strdup` gives a copy of a text in memory of its own, or NULL where there is none.
pub strdup_lem :
    (s rest : List ℕ) (got : Bool)
    → IsText s
    → strdup (s ++ 0 ∷ rest) got ≡ some (if got then some (s ++ 0 ∷ []) else none)
unfolding strdup
strdup_lem s rest got h = rw (strlen_lem s rest h, take-length-append s (0 ∷ rest)) refl

-- `stradd` gives the second text behind the first in memory of its own, or NULL where there is none.
pub stradd_lem :
    (s r t q : List ℕ) (got : Bool)
    → IsText s
    → IsText t
    → stradd (s ++ 0 ∷ r) (t ++ 0 ∷ q) got ≡ some (if got then some (s ++ t ++ 0 ∷ []) else none)
unfolding stradd
stradd_lem s r t q got h h' =
    rw
      (
        strlen_lem s r h,
        strlen_lem t q h',
        take-length-append s (0 ∷ r),
        take-length-append t (0 ∷ q),
      )
      refl
