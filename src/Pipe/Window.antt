-- ===== src/Pipe/Window.antt =====
-- The bytes in the ring, oldest first, and what reading and writing one byte does to them.
use ucorebook_code.Prelude.{
  ℕ, zero, suc, ◌+◌, ◌-◌, ◌%◌, ◌≤◌, ◌<◌, ◌≡◌, ◌≢◌, refl, ap, ap₂, List, [], ◌∷◌, ◌++◌, arith,
  update, update_self, update_ne, length, take, drop,
}
use ucorebook_code.Pipe.{Pipe, u32_mod}

mod-ne : (i w b : ℕ) → i < w → w < i + b → i % b ≢ w % b
mod-ne i w b lt near e = grind arith

module _ (bufsize : ℕ) where
  -- The `n` bytes from position `i` on.
  abbrev pub window : (ℕ → ℕ) → ℕ → ℕ → List ℕ
  window buf i zero = []
  window buf i (suc n) = buf (i % bufsize) ∷ window buf (i + 1) n

  pub length-window : (buf : ℕ → ℕ) (i n : ℕ) → length (window buf i n) ≡ n
  length-window buf i zero = refl
  length-window buf i (suc n) = ap suc (length-window buf (i + 1) n)

  -- A write behind the window extends it.
  pub window-update :
      (buf : ℕ → ℕ) (x i n w : ℕ)
      → w ≡ i + n
      → n < bufsize
      → window (update buf (w % bufsize) x) i (suc n) ≡ window buf i n ++ (x ∷ [])
  window-update buf x i zero w e h = let e' : i ≡ w = omega arith in rw (e', update_self)
  window-update buf x i (suc n) w e h =
      ap₂ ◌∷◌ (update_ne buf x (mod-ne i w bufsize (omega arith) (omega arith)))
        (window-update buf x (i + 1) n w (omega arith) (omega arith))

-- The positions have not wrapped, and the ring holds what lies between them.
pub record IsValid (bufsize : ℕ) (p : Pipe) : Type 0 where
  pub ordered : p.p_rpos ≤ p.p_wpos
  pub fits : p.p_wpos - p.p_rpos ≤ bufsize
  pub small : p.p_wpos < u32_mod

abbrev pub contents : ℕ → Pipe → List ℕ
contents bufsize p = window bufsize p.buf p.p_rpos (p.p_wpos - p.p_rpos)

pub take_nil : (n : ℕ) → take {A = ℕ} n [] ≡ []
take_nil zero = refl
take_nil (suc n) = refl

pub drop_nil : (n : ℕ) → drop {A = ℕ} n [] ≡ []
drop_nil zero = refl
drop_nil (suc n) = refl
