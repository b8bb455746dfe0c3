-- ===== src/Libs/Strtol.antt =====
-- `strtol` of libs/string.c. A pointer is the list of the bytes from it to the end of its object. The
-- 32-bit `long` is kept as its bit pattern, and wraps around.
use ucorebook_code.Prelude.{
  ℕ, ◌+◌, ◌-◌, ◌*◌, ◌%◌, ◌^◌, ◌≤◌, ◌<◌, ◌≡◌, ◌≢◌, ◌⊎◌, Bool, true, false, ◌&&◌, ◌||◌, leb, ltb,
  ◌==◌, if◌then◌else◌, List, [], ◌∷◌, ◌++◌, map, Option, none, some, ◌>>=◌,
}

-- `while (*s == ' ' || *s == '\t') s ++;`
unfoldable pub skip_blanks : List ℕ → Option (List ℕ)
skip_blanks [] = none
skip_blanks (c ∷ s) = let rest = skip_blanks s in if c == 32 || c == 9 then rest else some (c ∷ s)

-- Whether there was a minus sign.
unfoldable pub skip_sign : List ℕ → Option (Bool × List ℕ)
skip_sign [] = none
skip_sign (c ∷ s) =
    if c == 43 then some (false, s) else if c == 45 then some (true, s) else some (false, c ∷ s)

-- `s[1] == 'x'`, where `s[0]` is '0'.
unfoldable pub hex_follows : List ℕ → Option Bool
hex_follows (z ∷ x ∷ s) = some (x == 120)
hex_follows _ = none

unfoldable pub skip_byte : List ℕ → List ℕ
skip_byte [] = []
skip_byte (c ∷ s) = s

-- The base, and the text behind its prefix.
unfoldable pub skip_prefix : ℕ → List ℕ → Option (ℕ × List ℕ)
skip_prefix base [] = none
skip_prefix base (c ∷ s) =
    if (base == 0 || base == 16) && c == 48
    then (do
      hex ← hex_follows (c ∷ s)
      some (if hex then (16, skip_byte s) else if base == 0 then (8, s) else (base, c ∷ s)))
    else some (if base == 0 then 10 else base, c ∷ s)

unfoldable pub digit : ℕ → Option ℕ
digit c =
    if leb 48 c && leb c 57
    then some (c - 48)
    else if leb 97 c && leb c 122
    then some (c - 97 + 10)
    else if leb 65 c && leb c 90
    then some (c - 65 + 10)
    else none

abbrev pub word : ℕ
word = 2 ^ 32

unfoldable pub strtol_digits : ℕ → ℕ → List ℕ → Option (ℕ × List ℕ)
strtol_digits base val [] = none
strtol_digits base val (c ∷ s) = elim (digit c) [
  | none ↦ some (val, c ∷ s)
  | some dig ↦ elim (leb base dig) [
    | true ↦ some (val, c ∷ s)
    | false ↦ strtol_digits base ((val * base + dig) % word) s
  ]
]

unfoldable pub negate : Bool → ℕ → ℕ
negate neg val = if neg then (word - val) % word else val

-- The number, and what `endptr` is set to.
unfoldable pub strtol : List ℕ → ℕ → Option (ℕ × List ℕ)
strtol s base = do
  s₁ ← skip_blanks s
  (neg, s₂) ← skip_sign s₁
  (b, s₃) ← skip_prefix base s₂
  (val, s₄) ← strtol_digits b 0 s₃
  some (negate neg val, s₄)

-- The number that digits stand for, behind `val`.
unfoldable pub value : ℕ → ℕ → List ℕ → ℕ
value base val [] = val
value base val (d ∷ ds) = value base (val * base + d) ds

-- The byte that stands for a digit.
unfoldable pub digit_char : ℕ → ℕ
digit_char d = if ltb d 10 then 48 + d else 87 + d

abbrev pub AllBelow : ℕ → List ℕ → Type 0
AllBelow b [] = Unit {0}
AllBelow b (d ∷ ds) = (d < b) × AllBelow b ds

-- A byte that ends a number: no digit at all, or none of the base.
abbrev pub Stops : ℕ → ℕ → Type 0
Stops base c = (digit c ≡ none) ⊎ ((dig : ℕ) × (digit c ≡ some dig) × (base ≤ dig))

pub data Sign : Type 0 where
  bare plus minus : Sign

abbrev pub sign_bytes : Sign → List ℕ
sign_bytes bare = []
sign_bytes plus = 43 ∷ []
sign_bytes minus = 45 ∷ []

abbrev pub is_minus : Sign → Bool
is_minus minus = true
is_minus _ = false

-- How the base of a number is found: a base without a prefix rule, "0x", "0", or none of the two with
-- the base argument 0 or 16.
pub data Form : Type 0 where
  plain hex octal decimal bare_hex : Form

abbrev pub prefix : Form → List ℕ
prefix hex = 48 ∷ 120 ∷ []
prefix octal = 48 ∷ []
prefix _ = []

-- The base that the digits are in, where `base` is the argument.
abbrev pub radix : Form → ℕ → ℕ
radix plain base = base
radix octal base = 8
radix decimal base = 10
radix _ base = 16

-- With which argument, and before which first digit, the form is the one that is found.
abbrev pub IsForm : Form → ℕ → ℕ → Type 0
IsForm plain base d = (base ≢ 0) × (base ≢ 16) × (base ≤ 36)
IsForm hex base d = (base ≡ 0) ⊎ (base ≡ 16)
IsForm octal base d = base ≡ 0
IsForm decimal base d = (base ≡ 0) × (0 < d)
IsForm bare_hex base d = (base ≡ 16) × (0 < d)

-- The blanks, the sign, the prefix and the digits of a number.
abbrev pub unsigned_text : Form → List ℕ → List ℕ → List ℕ
unsigned_text form ds rest = prefix form ++ (map digit_char ds ++ rest)

abbrev pub text : List ℕ → Sign → Form → List ℕ → List ℕ → List ℕ
text blanks sign form ds rest = blanks ++ (sign_bytes sign ++ unsigned_text form ds rest)

abbrev pub AreBlanks : List ℕ → Type 0
AreBlanks [] = Unit {0}
AreBlanks (c ∷ s) = ((c == 32 || c == 9) ≡ true) × AreBlanks s
