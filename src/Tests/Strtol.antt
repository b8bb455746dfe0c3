-- ===== src/Tests/Strtol.antt =====
-- `strtol` on prefixes, blanks, signs and a digit that is none of the base.
use ucorebook_code.Prelude.{◌≡◌, refl, [], ◌∷◌, some, ◌-◌}
use ucorebook_code.Libs.Strtol.{
  strtol, negate, word, digit, skip_blanks, skip_sign, skip_prefix, hex_follows, skip_byte,
  strtol_digits,
}

-- "0x1f" with base 0
hex_read : strtol (48 ∷ 120 ∷ 49 ∷ 102 ∷ 0 ∷ []) 0 ≡ some (31, 0 ∷ [])
unfolding strtol skip_blanks skip_sign skip_prefix hex_follows skip_byte strtol_digits digit negate
hex_read = refl

-- "-017" with base 0
octal_read : strtol (45 ∷ 48 ∷ 49 ∷ 55 ∷ 0 ∷ []) 0 ≡ some (word - 15, 0 ∷ [])
unfolding strtol skip_blanks skip_sign skip_prefix hex_follows skip_byte strtol_digits digit negate
octal_read = refl
