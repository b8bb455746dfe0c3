-- ===== src/Libs/Str.antt =====
-- The string functions of libs/string.c. A pointer is the list of the bytes from it to the end of
-- its object; a read or a write past the end gives `none`. Source and destination are different
-- objects. Where libs/x86.h has an assembly version, this is the portable one.
pub mod Copy
pub mod Compare
pub mod Search
pub mod Add
use ucorebook_code.Prelude.{
  ℕ, zero, suc, ◌+◌, Bool, true, false, not, ◌&&◌, ◌==◌, if◌then◌else◌, List, [], ◌∷◌, ◌++◌, Option,
  none, some, ◌>>=◌, take, drop,
}
use ucorebook_code.Prelude.Int.{ℤ, pos, sub_ℕ}

strlen_from : ℕ → List ℕ → Option ℕ
strlen_from cnt [] = none
strlen_from cnt (c ∷ s) = if c == 0 then some cnt else strlen_from (cnt + 1) s

unfoldable pub strlen : List ℕ → Option ℕ
unfolding strlen_from
strlen s = strlen_from 0 s

-- The second argument is `len - cnt`.
strnlen_from : ℕ → ℕ → List ℕ → Option ℕ
strnlen_from cnt zero s = some cnt
strnlen_from cnt (suc n) [] = none
strnlen_from cnt (suc n) (c ∷ s) = if c == 0 then some cnt else strnlen_from (cnt + 1) n s

unfoldable pub strnlen : List ℕ → ℕ → Option ℕ
unfolding strnlen_from
strnlen s len = strnlen_from 0 len s

-- The object at `dst` after the call.
unfoldable pub strcpy : List ℕ → List ℕ → Option (List ℕ)
strcpy [] src = none
strcpy (d ∷ dst) [] = none
strcpy (d ∷ dst) (c ∷ src) =
    let rest = strcpy dst src in if c == 0 then some (c ∷ dst) else (do out ← rest; some (c ∷ out))

-- `src` stops at its end and is read again.
strncpy_loop : ℕ → List ℕ → List ℕ → Option (List ℕ)
strncpy_loop zero dst src = some dst
strncpy_loop (suc n) [] src = none
strncpy_loop (suc n) (d ∷ dst) [] = none
strncpy_loop (suc n) (d ∷ dst) (c ∷ src) = do
  out ← strncpy_loop n dst (if c == 0 then c ∷ src else src)
  some (c ∷ out)

unfoldable pub strncpy : List ℕ → List ℕ → ℕ → Option (List ℕ)
unfolding strncpy_loop
strncpy dst src len = strncpy_loop len dst src

unfoldable pub strcat : List ℕ → List ℕ → Option (List ℕ)
strcat dst src = do n ← strlen dst; out ← strcpy (drop n dst) src; some (take n dst ++ out)

unfoldable pub strcmp : List ℕ → List ℕ → Option ℤ
strcmp [] s2 = none
strcmp (c ∷ s1) [] = none
strcmp (c ∷ s1) (d ∷ s2) =
    let rest = strcmp s1 s2 in if not (c == 0) && c == d then rest else some (sub_ℕ c d)

strncmp_loop : ℕ → List ℕ → List ℕ → Option ℤ
strncmp_loop zero s1 s2 = some (pos 0)
strncmp_loop (suc n) [] s2 = none
strncmp_loop (suc n) (c ∷ s1) [] = none
strncmp_loop (suc n) (c ∷ s1) (d ∷ s2) =
    let rest = strncmp_loop n s1 s2 in if not (c == 0) && c == d then rest else some (sub_ℕ c d)

unfoldable pub strncmp : List ℕ → List ℕ → ℕ → Option ℤ
unfolding strncmp_loop
strncmp s1 s2 n = strncmp_loop n s1 s2

-- The inner option is the returned pointer, `none` for NULL.
unfoldable pub strchr : List ℕ → ℕ → Option (Option (List ℕ))
strchr [] c = none
strchr (x ∷ s) c =
    let rest = strchr s c in
    if x == 0 then some none else if x == c then some (some (x ∷ s)) else rest

unfoldable pub strfind : List ℕ → ℕ → Option (List ℕ)
strfind [] c = none
strfind (x ∷ s) c =
    let rest = strfind s c in if x == 0 then some (x ∷ s) else if x == c then some (x ∷ s) else rest
