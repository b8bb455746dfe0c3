-- ===== src/Prelude/Store.antt =====
-- A C array or a pool of structs as a function from indices or addresses, and writes to it.
use Prim.Native.Nat.{ℕ}
use mathlib.Core.Path.{◌≡◌}
use mathlib.Core.Logic.{◌≢◌}
use native.Mathlib.Omega.{arith}
use ucorebook_code.Prelude.Tests.{◌==◌, if◌then◌else◌}

-- `f[i] = v`
unfoldable pub update {ℓ} : {A : Type ℓ} → (ℕ → A) → ℕ → A → ℕ → A
update f i v j = if j == i then v else f j

pub update_self {ℓ} : {A : Type ℓ} (f : ℕ → A) (i : ℕ) (v : A) → update f i v i ≡ v
unfolding update
update_self f i v = ground arith

pub update_ne {ℓ} : {A : Type ℓ} (f : ℕ → A) {i j : ℕ} (v : A) → j ≢ i → update f i v j ≡ f j
unfolding update
update_ne f v h = ground arith
