-- ===== src/Libs/Str/Copy.antt =====
-- Lengths and copies of strings.
use ucorebook_code.Prelude.{
  ℕ, zero, suc, ◌+◌, ◌≤◌, ◌<◌, ◌≡◌, refl, if◌then◌else◌, arith, ap, ◌∙◌, List, [], ◌∷◌, ◌++◌,
  length, take, drop, ltb, leb, some, none, min,
}
use ucorebook_code.Libs.Str.{
  strlen_from, strlen, strnlen_from, strnlen, strcpy, strncpy_loop, strncpy, strcat,
}

-- The bytes of a text, none of which ends it.
abbrev pub IsText : List ℕ → Type 0
IsText [] = Unit {0}
IsText (c ∷ s) = (0 < c) × IsText s

strlen_from_lem :
    (cnt : ℕ) (s rest : List ℕ)
    → IsText s
    → strlen_from cnt (s ++ (0 ∷ rest)) ≡ some (cnt + length s)
unfolding strlen_from
strlen_from_lem cnt [] rest h = ground arith
strlen_from_lem cnt (c ∷ s) rest h = ground (arith, strlen_from_lem (cnt + 1) s rest h.1)

-- `strlen` counts the bytes before the first zero.
pub strlen_lem : (s rest : List ℕ) → IsText s → strlen (s ++ (0 ∷ rest)) ≡ some (length s)
unfolding strlen
strlen_lem s rest h = strlen_from_lem 0 s rest h ∙ ground arith

strnlen_from_lem :
    (cnt n : ℕ) (s rest : List ℕ)
    → IsText s
    → strnlen_from cnt n (s ++ (0 ∷ rest)) ≡ some (cnt + min n (length s))
unfolding strnlen_from
strnlen_from_lem cnt zero s rest h = ground arith
strnlen_from_lem cnt (suc n) [] rest h = ground arith
strnlen_from_lem cnt (suc n) (c ∷ s) rest h =
    ground (arith, strnlen_from_lem (cnt + 1) n s rest h.1)

-- `strnlen` is `strlen` cut off at `len`.
pub strnlen_lem :
    (s rest : List ℕ) (len : ℕ)
    → IsText s
    → strnlen (s ++ (0 ∷ rest)) len ≡ some (min len (length s))
unfolding strnlen
strnlen_lem s rest len h = strnlen_from_lem 0 len s rest h ∙ ground arith

-- `strcpy` puts the text and its zero at the start of the destination and leaves the rest, if the
-- destination has room for both; with less room it writes past the end.
pub strcpy_lem :
    (dst s rest : List ℕ)
    → IsText s
    → strcpy dst (s ++ (0 ∷ rest))
      ≡ (if ltb (length s) (length dst) then some (s ++ (0 ∷ drop (suc (length s)) dst)) else none)
unfolding strcpy
strcpy_lem [] [] rest h = ground arith
strcpy_lem [] (c ∷ s) rest h = ground arith
strcpy_lem (d ∷ dst) [] rest h = ground arith
strcpy_lem (d ∷ dst) (c ∷ s) rest h = ground (arith, strcpy_lem dst s rest h.1)

-- The first `n` bytes of a text, with zeros after its end.
unfoldable pub padded : ℕ → List ℕ → List ℕ
padded zero s = []
padded (suc n) [] = 0 ∷ padded n []
padded (suc n) (c ∷ s) = c ∷ padded n s

strncpy_loop_lem :
    (n : ℕ) (dst s rest : List ℕ)
    → IsText s
    → strncpy_loop n dst (s ++ (0 ∷ rest))
      ≡ (if leb n (length dst) then some (padded n s ++ drop n dst) else none)
unfolding strncpy_loop padded
strncpy_loop_lem zero dst s rest h = ground arith
strncpy_loop_lem (suc n) [] s rest h = ground arith
strncpy_loop_lem (suc n) (d ∷ dst) [] rest h = ground (arith, strncpy_loop_lem n dst [] rest h)
strncpy_loop_lem (suc n) (d ∷ dst) (c ∷ s) rest h =
    ground (arith, strncpy_loop_lem n dst s rest h.1)

-- `strncpy` writes exactly `len` bytes: the text cut off at `len`, or the text and zeros up to
-- `len`; with less room than `len` it writes past the end.
pub strncpy_lem :
    (dst s rest : List ℕ) (len : ℕ)
    → IsText s
    → strncpy dst (s ++ (0 ∷ rest)) len
      ≡ (if leb len (length dst) then some (padded len s ++ drop len dst) else none)
unfolding strncpy
strncpy_lem dst s rest len h = strncpy_loop_lem len dst s rest h

pub take-length-append : (s r : List ℕ) → take (length s) (s ++ r) ≡ s
take-length-append [] r = refl
take-length-append (c ∷ s) r = ap (◌∷◌ c) (take-length-append s r)

drop-length-append : (s r : List ℕ) → drop (length s) (s ++ r) ≡ r
drop-length-append [] r = refl
drop-length-append (c ∷ s) r = drop-length-append s r

-- `strcat` puts the second text and a zero behind the first, if the first object has room.
pub strcat_lem :
    (t r s rest : List ℕ)
    → IsText t
    → IsText s
    → length s ≤ length r
    → strcat (t ++ (0 ∷ r)) (s ++ (0 ∷ rest)) ≡ some (t ++ (s ++ (0 ∷ drop (length s) r)))
unfolding strcat
strcat_lem t r s rest ht hs room = ground (
  arith,
  strlen_lem t r ht,
  take-length-append t (0 ∷ r),
  drop-length-append t (0 ∷ r),
  strcpy_lem (0 ∷ r) s rest hs,
)
