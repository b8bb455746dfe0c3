-- ===== src/Libs/Printnum.antt =====
-- `printnum` of libs/printfmt.c. The function recurses on fuel.
use native.Mathlib.Nat.{div-lt_self, div-add-mod', mod-lt, mod-eq_of_lt}
use ucorebook_code.Prelude.{
  ℕ, zero, suc, ◌+◌, ◌-◌, ◌*◌, ◌/◌, ◌%◌, ◌≤◌, ltb, ◌==◌, ◌⊎◌, ◌<◌, ◌≡◌, refl, ap, ◌∙◌, Bool-cases,
  leb, leb→le, if◌then◌else◌, List, [], ◌∷◌, ◌++◌, map, length, length-append, Option, none, some,
  ◌>>=◌, arith, inl, inr,
}
use ucorebook_code.Libs.Strtol.{value, digit_char, AllBelow}

unfoldable pub pads : ℕ → ℕ → List ℕ
pads zero padc = []
pads (suc n) padc = padc ∷ pads n padc

-- `"0123456789abcdef"[mod]`, with the byte that ends the string; `none` is past its end.
unfoldable pub hex_digit : ℕ → Option ℕ
hex_digit d =
    if ltb d 10
    then some (48 + d)
    else if ltb d 16
    then some (97 + (d - 10))
    else if d == 16
    then some 0
    else none

-- The bytes that are put, in order. A width of 0 stands for any that is not positive.
unfoldable pub printnum : ℕ → ℕ → ℕ → ℕ → ℕ → Option (List ℕ)
unfolding pads
printnum zero num base width padc = none
printnum (suc fuel) num base width padc =
    let rest = printnum fuel (num / base) base (width - 1) padc in
    do
      front ← if leb base num then rest else some (pads (width - 1) padc)
      c ← hex_digit (num % base)
      some (front ++ c ∷ [])

hex_digit-digit_char : (d : ℕ) → d < 16 → hex_digit d ≡ some (digit_char d)
unfolding hex_digit digit_char
hex_digit-digit_char d h = ground arith

value-append :
    (base val : ℕ) (ds : List ℕ) (d : ℕ)
    → value base val (ds ++ d ∷ []) ≡ value base val ds * base + d
unfolding value
value-append base val [] d = refl
value-append base val (x ∷ ds) d = value-append base (val * base + x) ds d

AllBelow-append :
    (base : ℕ) (ds : List ℕ) (d : ℕ) → AllBelow base ds → d < base → AllBelow base (ds ++ d ∷ [])
AllBelow-append base [] d all h = (h, tt)
AllBelow-append base (x ∷ ds) d all h = (all.0, AllBelow-append base ds d all.1 h)

-- At least one digit, and none but a lone zero begins with a zero.
abbrev pub IsNumeral : List ℕ → Type 0
IsNumeral [] = ⊥
IsNumeral (d ∷ ds) = (0 < d) ⊎ (ds ≡ [])

IsNumeral-append :
    (base : ℕ) (ds : List ℕ) (d : ℕ) → IsNumeral ds → 0 < value base 0 ds → IsNumeral (ds ++ d ∷ [])
unfolding value
IsNumeral-append base [] d n h = absurd n
IsNumeral-append base (x ∷ ds) d (inl p) h = inl p
IsNumeral-append base (x ∷ ds) d (inr e) h = let h' = rw e at h in inl (grind arith)

-- Padding up to the width, and the one numeral of the number in the base.
abbrev pub Prints : ℕ → ℕ → ℕ → ℕ → Option (List ℕ) → Type 0
Prints num base width padc o =
    (ds : List ℕ) × (o ≡ some (pads (width - length ds) padc ++ map digit_char ds))
    × (value base 0 ds ≡ num)
    × AllBelow base ds
    × IsNumeral ds

first_digit : (base num : ℕ) → 0 * base + num ≡ num
first_digit base num = grind arith

one_digit :
    (num base width padc : ℕ)
    → num < base
    → Prints num base width padc (some (pads (width - 1) padc ++ digit_char num ∷ []))
unfolding value
one_digit num base width padc h = (num ∷ [], refl, first_digit base num, (h, tt), inr refl)

map-snoc :
    (ps ds : List ℕ) (d : ℕ)
    → ps ++ map digit_char ds ++ digit_char d ∷ [] ≡ ps ++ map digit_char (ds ++ d ∷ [])
map-snoc [] [] d = refl
map-snoc [] (x ∷ ds) d = ap (λ t. digit_char x ∷ t) (map-snoc [] ds d)
map-snoc (p ∷ ps) ds d = ap (λ t. p ∷ t) (map-snoc ps ds d)

positive : (num base : ℕ) → 2 ≤ base → base ≤ num → 0 < num
positive num base h h' = omega arith

quotient_positive : (num base q r : ℕ) → q * base + r ≡ num → r < base → base ≤ num → 0 < q
quotient_positive num base zero r e h h' = absurd (grind arith)
quotient_positive num base (suc q) r e h h' = omega arith

-- In a base from 2 to 16, with more fuel than the number, `printnum` ends, reads its table of digits
-- within bounds, and prints padding up to the width and then the digits of the number: at least one,
-- each below the base, standing for the number, and with no zero in front but for 0 itself.
pub printnum-Prints :
    (fuel num base width padc : ℕ)
    → 2 ≤ base
    → base ≤ 16
    → num < fuel
    → Prints num base width padc (printnum fuel num base width padc)
unfolding printnum
printnum-Prints zero num base width padc h b h' = absurd (omega arith)
printnum-Prints (suc fuel) num base width padc h b h' = elim (Bool-cases (leb base num)) [
  | inr small ↦
      let below : num < base = ground arith in
      let same : num % base ≡ num = mod-eq_of_lt below in
      rw (small, same, hex_digit-digit_char num (omega arith)) (one_digit num base width padc below)
  | inl large ↦
      let reached = leb→le base num large in
      let (ds, e, v, all, n) =
        printnum-Prints fuel (num / base) base (width - 1) padc h b
          (let l = div-lt_self (positive num base h reached) h in omega arith) in
      let last : num % base < base = mod-lt num (omega arith) in
      let byte : hex_digit (num % base) ≡ some (digit_char (num % base)) =
        hex_digit-digit_char (num % base) (omega arith) in
      let q : 0 < num / base =
        quotient_positive num base (num / base) (num % base) (div-add-mod' num base) last reached in
      let width' : width - 1 - length ds ≡ width - length (ds ++ (num % base) ∷ []) =
        omega (arith, length-append ds ((num % base) ∷ [])) in
      (
        ds ++ (num % base) ∷ [],
        rw (large, e, byte)
            (ap some
              (rw (← width') (map-snoc (pads (width - 1 - length ds) padc) ds (num % base)))),
        value-append base 0 ds (num % base)
            ∙ ap (λ q. q * base + num % base) v
            ∙ div-add-mod' num base,
        AllBelow-append base ds (num % base) all last,
        IsNumeral-append base ds (num % base) n (rw v q),
      )
]
