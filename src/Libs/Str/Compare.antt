-- ===== src/Libs/Str/Compare.antt =====
-- The order of strings.
use ucorebook_code.Prelude.{
  ℕ, zero, suc, ◌<◌, ◌≡◌, refl, ◌==◌, if◌then◌else◌, arith, ◌⊎◌, ◌↔◌, ap, ◌∙◌, List, [], ◌∷◌, ◌++◌,
  take, some, sym,
}
use ucorebook_code.Prelude.Int.{ℤ, pos, sub_ℕ, neg_part}
use ucorebook_code.Libs.Str.{strcmp, strncmp_loop, strncmp}
use ucorebook_code.Libs.Str.Copy.{IsText}

-- The difference at the first place where the texts differ, the end counting as 0.
unfoldable pub diff : List ℕ → List ℕ → ℤ
diff [] [] = pos 0
diff [] (d ∷ t) = sub_ℕ 0 d
diff (c ∷ s) [] = sub_ℕ c 0
diff (c ∷ s) (d ∷ t) = if c == d then diff s t else sub_ℕ c d

-- The order of dictionaries.
abbrev pub IsBefore : List ℕ → List ℕ → Type 0
IsBefore s [] = ⊥
IsBefore [] (d ∷ t) = Unit {0}
IsBefore (c ∷ s) (d ∷ t) = (c < d) ⊎ ((c ≡ d) × IsBefore s t)

diff-zero : (s t : List ℕ) → IsText s → IsText t → diff s t ≡ pos 0 → s ≡ t
unfolding diff
diff-zero [] [] hs ht e = refl
diff-zero [] (d ∷ t) hs ht e = absurd (ground arith)
diff-zero (c ∷ s) [] hs ht e = absurd (ground arith)
diff-zero (c ∷ s) (d ∷ t) hs ht e = ground (arith, diff-zero s t hs.1 ht.1)

diff_self : (s : List ℕ) → diff s s ≡ pos 0
unfolding diff
diff_self [] = refl
diff_self (c ∷ s) = ground (arith, diff_self s)

diff-IsBefore : (s t : List ℕ) → IsText s → IsText t → 0 < neg_part (diff s t) → IsBefore s t
unfolding diff
diff-IsBefore [] [] hs ht e = absurd (omega arith)
diff-IsBefore [] (d ∷ t) hs ht e = tt
diff-IsBefore (c ∷ s) [] hs ht e = absurd (ground arith)
diff-IsBefore (c ∷ s) (d ∷ t) hs ht e = ground (arith, diff-IsBefore s t hs.1 ht.1)

before-diff : (s t : List ℕ) → IsText s → IsText t → IsBefore s t → 0 < neg_part (diff s t)
unfolding diff
before-diff s [] hs ht e = absurd e
before-diff [] (d ∷ t) hs ht e = ground arith
before-diff (c ∷ s) (d ∷ t) hs ht e = ground (arith, before-diff s t hs.1 ht.1)

strcmp-diff :
    (s r t q : List ℕ)
    → IsText s
    → IsText t
    → strcmp (s ++ (0 ∷ r)) (t ++ (0 ∷ q)) ≡ some (diff s t)
unfolding strcmp diff
strcmp-diff [] r [] q hs ht = ground arith
strcmp-diff [] r (d ∷ t) q hs ht = ground arith
strcmp-diff (c ∷ s) r [] q hs ht = ground arith
strcmp-diff (c ∷ s) r (d ∷ t) q hs ht = ground (arith, strcmp-diff s r t q hs.1 ht.1)

-- `strcmp` returns a number that is 0 exactly on equal texts and negative exactly where the first
-- comes before the second in the order of dictionaries.
pub strcmp_lem :
    (s r t q : List ℕ)
    → IsText s
    → IsText t
    → (v : ℤ) × (strcmp (s ++ (0 ∷ r)) (t ++ (0 ∷ q)) ≡ some v)
      × ((v ≡ pos 0) ↔ (s ≡ t))
      × ((0 < neg_part v) ↔ IsBefore s t)
strcmp_lem s r t q hs ht = (
  diff s t,
  strcmp-diff s r t q hs ht,
  (diff-zero s t hs ht, λ e. ap (diff s) (sym e) ∙ diff_self s),
  (diff-IsBefore s t hs ht, before-diff s t hs ht),
)

strncmp_loop-diff :
    (n : ℕ) (s r t q : List ℕ)
    → IsText s
    → IsText t
    → strncmp_loop n (s ++ (0 ∷ r)) (t ++ (0 ∷ q)) ≡ some (diff (take n s) (take n t))
unfolding strncmp_loop diff
strncmp_loop-diff zero s r t q hs ht = refl
strncmp_loop-diff (suc n) [] r [] q hs ht = ground arith
strncmp_loop-diff (suc n) [] r (d ∷ t) q hs ht = ground arith
strncmp_loop-diff (suc n) (c ∷ s) r [] q hs ht = ground arith
strncmp_loop-diff (suc n) (c ∷ s) r (d ∷ t) q hs ht =
    ground (arith, strncmp_loop-diff n s r t q hs.1 ht.1)

IsText-take : (n : ℕ) (s : List ℕ) → IsText s → IsText (take n s)
IsText-take zero s h = tt
IsText-take (suc n) [] h = tt
IsText-take (suc n) (c ∷ s) h = (h.0, IsText-take n s h.1)

-- `strncmp` does the same for the texts cut off at `n`.
pub strncmp_lem :
    (s r t q : List ℕ) (n : ℕ)
    → IsText s
    → IsText t
    → (v : ℤ) × (strncmp (s ++ (0 ∷ r)) (t ++ (0 ∷ q)) n ≡ some v)
      × ((v ≡ pos 0) ↔ (take n s ≡ take n t))
      × ((0 < neg_part v) ↔ IsBefore (take n s) (take n t))
unfolding strncmp
strncmp_lem s r t q n hs ht =
    let us = IsText-take n s hs in
    let ut = IsText-take n t ht in
    (
      diff (take n s) (take n t),
      strncmp_loop-diff n s r t q hs ht,
      (diff-zero _ _ us ut, λ e. ap (diff (take n s)) (sym e) ∙ diff_self (take n s)),
      (diff-IsBefore _ _ us ut, before-diff _ _ us ut),
    )
