-- ===== src/Mm/Vmm/Agree.antt =====
-- kern/mm/vmm.c: a write to an area that is not in the list changes nothing of the space.
use ucorebook_code.Prelude.{ℕ, ◌%◌, ◌≡◌, inl, inr, refl, sym, update, update_ne, List, [], ◌∷◌}
use ucorebook_code.Mm.Vmm.{Vma, Mm, pgsize, set_vma}
use ucorebook_code.Mm.Vmm.Order.{In, IsOrdered}
use ucorebook_code.Mm.Vmm.Find.{IsMm}
use ucorebook_code.Mm.Vmm.Place.{Apart}
use ucorebook_code.Mm.Vmm.Flags.{flags_at, covers}

-- The pages of an area are whole.
abbrev pub IsAligned : Vma → Type 0
IsAligned v = (v.vm_start % pgsize ≡ 0) × (v.vm_end % pgsize ≡ 0)

abbrev pub AllAligned : (ℕ → Vma) → List ℕ → Type 0
AllAligned f [] = Unit {0}
AllAligned f (x ∷ xs) = IsAligned (f x) × AllAligned f xs

abbrev pub Agree : (ℕ → Vma) → (ℕ → Vma) → List ℕ → Type 0
Agree f g [] = Unit {0}
Agree f g (x ∷ xs) = (g x ≡ f x) × Agree f g xs

module _ (f g : ℕ → Vma) where
  pub IsOrdered-Agree :
      (lo : ℕ) (xs : List ℕ) → Agree f g xs → IsOrdered f lo xs → IsOrdered g lo xs
  IsOrdered-Agree lo [] h o = tt
  IsOrdered-Agree lo (x ∷ xs) (e, h) (l, s, o) = rw e (l, s, IsOrdered-Agree (f x).vm_end xs h o)

  pub AllAligned-Agree : (xs : List ℕ) → Agree f g xs → AllAligned f xs → AllAligned g xs
  AllAligned-Agree [] h o = tt
  AllAligned-Agree (x ∷ xs) (e, h) (a, o) = (rw e a, AllAligned-Agree xs h o)

  pub Apart-Agree : (a : ℕ) (xs : List ℕ) → g a ≡ f a → Agree f g xs → Apart f a xs → Apart g a xs
  Apart-Agree a [] q h o = tt
  Apart-Agree a (x ∷ xs) q (e, h) (d, o) = (rw (e, q) d, Apart-Agree a xs q h o)

  pub flags_at-Agree :
      (xs : List ℕ) (addr : ℕ) → Agree f g xs → flags_at g xs addr ≡ flags_at f xs addr
  unfolding flags_at covers
  flags_at-Agree [] addr h = refl
  flags_at-Agree (x ∷ xs) addr (e, h) = rw (e, flags_at-Agree xs addr h) refl

pub Agree-update :
    (f : ℕ → Vma) (a : ℕ) (v : Vma) (xs : List ℕ) → (In a xs → ⊥) → Agree f (update f a v) xs
Agree-update f a v [] n = tt
Agree-update f a v (x ∷ xs) n =
    (update_ne f v (λ e. n (inl (sym e))), Agree-update f a v xs (λ h. n (inr h)))

pub set_vma-IsMm :
    (a : ℕ) (v : Vma) (m : Mm) → IsMm m → (In a m.mmap_list → ⊥) → IsMm (set_vma a v m)
unfolding set_vma
set_vma-IsMm a v m i n = record {
  ordered =
      IsOrdered-Agree m.vmas (update m.vmas a v) 0 m.mmap_list
        (Agree-update m.vmas a v m.mmap_list n) i.ordered;
  in_tree = i.in_tree;
  in_cache = i.in_cache;
  counted = i.counted;
}
