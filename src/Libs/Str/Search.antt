-- ===== src/Libs/Str/Search.antt =====
-- Finding a byte in a string.
use ucorebook_code.Prelude.{
  ℕ, ◌≡◌, ◌≢◌, arith, ◌⊎◌, inl, inr, ℕ_discrete, List, [], ◌∷◌, ◌++◌, some, none, ap,
}
use ucorebook_code.Libs.Str.{strchr, strfind}
use ucorebook_code.Libs.Str.Copy.{IsText}

-- The byte does not stand in the text.
abbrev pub IsAbsent : ℕ → List ℕ → Type 0
IsAbsent c [] = Unit {0}
IsAbsent c (x ∷ s) = (x ≢ c) × IsAbsent c s

-- `p` is where the byte first stands in the text.
pub record IsFirst (c : ℕ) (s rest p : List ℕ) : Type 0 where
  pub front : List ℕ
  pub back : List ℕ
  pub split : s ≡ front ++ (c ∷ back)
  pub absent : IsAbsent c front
  pub found : p ≡ c ∷ (back ++ (0 ∷ rest))

-- If the byte stands in the text, `strchr` and `strfind` both give the first place; if not,
-- `strchr` gives NULL and `strfind` the end of the text.
pub search_lem :
    (c : ℕ) (s rest : List ℕ)
    → IsText s
    → (IsAbsent c s
        × (strchr (s ++ (0 ∷ rest)) c ≡ some none)
        × (strfind (s ++ (0 ∷ rest)) c ≡ some (0 ∷ rest)))
      ⊎ ((p : List ℕ) × IsFirst c s rest p
          × (strchr (s ++ (0 ∷ rest)) c ≡ some (some p))
          × (strfind (s ++ (0 ∷ rest)) c ≡ some p))
unfolding strchr strfind
search_lem c [] rest h = inl (tt, ground arith, ground arith)
search_lem c (x ∷ s) rest h = elim (ℕ_discrete x c) [
  | yes e ↦ inr (
    x ∷ (s ++ (0 ∷ rest)),
    record { front = []; back = s; split = ground arith; absent = tt; found = ground arith },
    ground arith,
    ground arith,
  )
  | no ne ↦ elim (search_lem c s rest h.1) [
    | inl (a, e, f) ↦ inl ((ne, a), ground arith, ground arith)
    | inr (p, first, e, f) ↦ inr (
      p,
      record {
        front = x ∷ first.front;
        back = first.back;
        split = ap (◌∷◌ x) first.split;
        absent = (ne, first.absent);
        found = first.found;
      },
      ground arith,
      ground arith,
    )
  ]
]
