-- ===== src/Mm/Vmm/Hole.antt =====
-- kern/mm/vmm.c: the branch of `mm_unmap` that makes a hole in one area.
use ucorebook_code.Prelude.{
  ℕ, ◌%◌, ◌<◌, ◌≡◌, ◌≢◌, inr, refl, sym, ◌∙◌, ap, Bool, update, update_ne, update_self, List, [],
  ◌∷◌, ◌++◌, none, some, arith,
}
use ucorebook_code.Prelude.Errno.{ok}
use ucorebook_code.Mm.Tree.{Ops, IsTree}
use ucorebook_code.Mm.Vmm.{Vma, Mm, pgsize, set_vma, find_vma_list, vma_create}
use ucorebook_code.Mm.Vmm.Order.{In, EndsBy, start-In, IsOrdered-right}
use ucorebook_code.Mm.Vmm.Find.{IsMm}
use ucorebook_code.Mm.Vmm.Place.{Apart}
use ucorebook_code.Mm.Vmm.Insert.{insert_vma_struct-links, Inserted}
use ucorebook_code.Mm.Vmm.Flags.{find_vma_list-split}
use ucorebook_code.Mm.Vmm.Agree.{IsAligned, AllAligned, Agree, AllAligned-Agree}
use ucorebook_code.Mm.Vmm.Collect.{EndsBy-not_In, In-middle, AllAligned-In}
use ucorebook_code.Mm.Vmm.GiveBack.{AllAligned-insert_by}
use ucorebook_code.Mm.Vmm.Unmap.{vma_resize_eq, resized}
use ucorebook_code.Mm.Vmm.Punch.{
  IsPunched, punched-IsOrdered, punched-Apart, punched-front, punched-inside, punched-outside,
  Agree-update₂, In-++-left, In-++-right,
}
use ucorebook_code.Mm.Vmm.Refine.{IsSpace, mapped, IsUnmapped, unmapped_flags}
use ucorebook_code.Mm.Vmm.Map.{vma_resize, unmap_range, punch}

-- The area before the hole.
abbrev front_part : ℕ → Vma → Vma
front_part start v = record {
  vm_start = v.vm_start;
  vm_end = start;
  vm_flags = v.vm_flags;
  shmem = none;
  shmem_off = 0;
}

AllAligned-replace :
    (f g : ℕ → Vma) (x : ℕ) (pre ys : List ℕ)
    → AllAligned f (pre ++ x ∷ ys)
    → Agree f g pre
    → Agree f g ys
    → IsAligned (g x)
    → AllAligned g (pre ++ x ∷ ys)
AllAligned-replace f g x [] ys (a, as') hp hy b = (b, AllAligned-Agree f g ys hy as')
AllAligned-replace f g x (y ∷ pre) ys (a, as') (q, hp) hy b =
    (rw q a, AllAligned-replace f g x pre ys as' hp hy b)

module _ (start end' x a : ℕ) (m : Mm) (s : IsSpace m) (se : start < end')
    (below : (m.vmas x).vm_start < start) (above : end' < (m.vmas x).vm_end)
    (fresh : In a m.mmap_list → ⊥) where
  abbrev f : ℕ → Vma
  f = m.vmas

  abbrev rear_part : Vma
  rear_part = resized end' (f x).vm_end (f x)

  -- The store after `vma_create` and `vma_resize`.
  abbrev g : ℕ → Vma
  g = update (update f a (front_part start (f x))) x rear_part

  punch-IsPunched :
      (pre ys : List ℕ)
      → m.mmap_list ≡ pre ++ x ∷ ys
      → EndsBy f start pre
      → IsPunched f g start end' x a pre ys
  punch-IsPunched pre ys q b =
      let o = rw q at s.well_formed.ordered in
      let (lo, ends, opre, (lx', sx, oys)) = IsOrdered-right f pre 0 x ys o in
      let n_pre : In a pre → ⊥ = λ h. fresh (rw q (In-++-left pre (x ∷ ys) a h)) in
      let n_ys : In a ys → ⊥ = λ h. fresh (rw q (In-++-right pre (x ∷ ys) a (inr h))) in
      let ne : a ≢ x = λ e. fresh (rw (q, e) (In-middle f pre x ys)) in
      let x_pre : In x pre → ⊥ = EndsBy-not_In f start pre x b (omega arith) in
      let x_ys : In x ys → ⊥ = λ h. let k = start-In f ys (f x).vm_end x oys h in omega arith in
      let ga : g a ≡ front_part start (f x) =
        update_ne (update f a (front_part start (f x))) rear_part ne
        ∙ update_self f a (front_part start (f x)) in
      let gx : g x ≡ rear_part = update_self (update f a (front_part start (f x))) x rear_part in
      record {
        ordered = o;
        pre_same = Agree-update₂ f a x (front_part start (f x)) rear_part pre n_pre x_pre;
        ys_same = Agree-update₂ f a x (front_part start (f x)) rear_part ys n_ys x_ys;
        below = below;
        range = se;
        above = above;
        front = rw ga (refl, refl, refl);
        rear = rw gx (refl, refl, refl);
      }

  -- The state when the front part is linked in.
  abbrev m₂ : Mm
  m₂ = set_vma x rear_part (set_vma a (front_part start (f x)) m)

  module _ (sa : start % pgsize ≡ 0) (ea : end' % pgsize ≡ 0) where
    punch-space :
        (pre ys : List ℕ)
        → m.mmap_list ≡ pre ++ x ∷ ys
        → IsPunched f g start end' x a pre ys
        → IsMm m₂ × ((m₂.vmas a).vm_start < (m₂.vmas a).vm_end) × Apart m₂.vmas a m₂.mmap_list
    unfolding set_vma
    punch-space pre ys q p = (
      record {
        ordered = rw q (punched-IsOrdered p);
        in_tree = s.well_formed.in_tree;
        in_cache = s.well_formed.in_cache;
        counted = s.well_formed.counted;
      },
      punched-front p,
      rw q (punched-Apart p),
    )

    abbrev m₁ : Mm
    m₁ = set_vma a (front_part start (f x)) m

    resize_eq : a ≢ x → In x m.mmap_list → vma_resize x end' (m₁.vmas x).vm_end m₁ ≡ some m₂
    unfolding set_vma
    resize_eq ne i =
        let same : m₁.vmas x ≡ f x = update_ne f (front_part start (f x)) (λ e. ne (sym e)) in
        let al = AllAligned-In f x m.mmap_list s.aligned i in
        vma_resize_eq x end' (m₁.vmas x).vm_end m₁ ea (rw same al.1) (rw same (omega arith))
          (rw same above) (omega arith)
        ∙ ap (λ v. some (set_vma x (resized end' v.vm_end v) m₁)) same

    module _ (ops : Ops) (law : IsTree ops) (got : Bool) where
      punched-IsUnmapped :
          (pre ys : List ℕ) (m' : Mm)
          → m.mmap_list ≡ pre ++ x ∷ ys
          → IsPunched f g start end' x a pre ys
          → Inserted ops law a m₂ m'
          → IsUnmapped start end' m (unmap_range start end' m')
      unfolding mapped unmap_range set_vma
      punched-IsUnmapped pre ys m' q p ins =
          let i : In x m.mmap_list = rw q (In-middle f pre x ys) in
          let al = AllAligned-In f x m.mmap_list s.aligned i in
          let (r₁, r₂, r₃) = p.front in
          let (s₁, s₂, s₃) = p.rear in
          let whole : AllAligned g m.mmap_list = rw q (
            AllAligned-replace f g x pre ys (rw q at s.aligned) p.pre_same p.ys_same
              (rw (s₁, s₂) (ea, al.1))) in
          let front : IsAligned (g a) = rw (r₁, r₂) (al.0, sa) in
          let w = ins.well_formed in
          record {
            space = record {
              well_formed = record {
                ordered = w.ordered;
                in_tree = w.in_tree;
                in_cache = w.in_cache;
                counted = w.counted;
              };
              aligned = rw (ins.vmas, ins.list) (AllAligned-insert_by g a m.mmap_list front whole);
            };
            flags =
                unmapped_flags start end' m (unmap_range start end' m')
                  (λ addr h. rw (ins.vmas, ins.list, q) (punched-outside p addr h))
                  (λ addr l h. rw (ins.vmas, ins.list, q) (punched-inside p addr l h));
          }

      pub punch_lem :
          find_vma_list f m.mmap_list start ≡ some x
          → (m' : Mm) × (punch ops got start end' x
                (vma_create (some a) (f x).vm_start start (f x).vm_flags m)
              ≡ some (ok 0, m'))
            × IsUnmapped start end' m m'
      unfolding mapped punch vma_create set_vma
      punch_lem e =
          let (pre, ys, q, b, lx, fr) =
            find_vma_list-split f 0 m.mmap_list start x s.well_formed.ordered e in
          let p = punch-IsPunched pre ys q b in
          let i : In x m.mmap_list = rw q (In-middle f pre x ys) in
          let ne : a ≢ x = λ h. fresh (rw h i) in
          let (wf, na, nd) = punch-space pre ys q p in
          let (m', run, ins) = insert_vma_struct-links ops law got a m₂ wf (na, nd) in
          (
            unmap_range start end' m',
            rw (resize_eq ne i, run) refl,
            punched-IsUnmapped pre ys m' q p ins,
          )
