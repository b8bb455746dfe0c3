-- ===== src/Prelude/Panic.antt =====
-- Kernel code that may stop in an `assert`: `none` is the panic.
use mathlib.Core.Path.{◌≡◌, refl}
use mathlib.Core.Bool.{Bool, true, false}
use mathlib.Core.Option.{Option, none, some}

infixl 5 ◌>>=◌ ◌>>◌
abbrev pub ◌>>=◌ {ℓ κ} : {A : Type ℓ} {B : Type κ} → Option A → (A → Option B) → Option B
none >>= f = none
some a >>= f = f a

abbrev pub ◌>>◌ {ℓ} : {B : Type ℓ} → Option (Unit {0}) → Option B → Option B
m >> k = m >>= λ _. k

-- `assert(b)`
abbrev pub assert : Bool → Option (Unit {0})
assert true = some tt
assert false = none

abbrev pub is_some {ℓ} : {A : Type ℓ} → Option A → Bool
is_some none = false
is_some (some a) = true

-- Inversion of a run that did not panic.
pub >>=-eq-some {ℓ κ} :
    {A : Type ℓ} {B : Type κ} (m : Option A) (f : A → Option B) {b : B}
    → (m >>= f) ≡ some b
    → (a : A) × (m ≡ some a) × (f a ≡ some b)
>>=-eq-some none f h = cc
>>=-eq-some (some a) f h = (a, refl, h)

pub some_of_ne_none {ℓ} : {A : Type ℓ} (m : Option A) → (m ≡ none → ⊥) → (a : A) × (m ≡ some a)
some_of_ne_none none h = absurd (h refl)
some_of_ne_none (some a) h = (a, refl)
