-- ===== src/Mm/Vmm/Find.antt =====
-- kern/mm/vmm.c: `find_vma`, whatever the cache and the tree are.
use ucorebook_code.Prelude.{ℕ, ◌≡◌, inl, inr, refl, Option-cases, Option, none, some, arith, length}
use ucorebook_code.Mm.Tree.{Tree, inorder}
use ucorebook_code.Mm.Vmm.{Mm, find_vma_list, cached, search_vma, remember, find_vma}
use ucorebook_code.Mm.Vmm.Order.{
  In, IsOrdered, or_else, find_vma_rb_lem, find_vma_list-In, In-find_vma_list,
}

-- The areas are in order, the tree has them in the same order, the cache has one of them, and the
-- count is theirs.
pub record IsMm (m : Mm) : Type 0 where
  pub ordered : IsOrdered m.vmas 0 m.mmap_list
  pub in_tree : (t : Tree) → m.mmap_tree ≡ some t → inorder t ≡ m.mmap_list
  pub in_cache : (x : ℕ) → m.mmap_cache ≡ some x → In x m.mmap_list
  pub counted : m.map_count ≡ length m.mmap_list

or_else-none : (o : Option ℕ) → or_else o none ≡ o
or_else-none none = refl
or_else-none (some x) = refl

search_vma_lem :
    (m : Mm) (addr : ℕ) → IsMm m → search_vma addr m ≡ find_vma_list m.vmas m.mmap_list addr
unfolding search_vma
search_vma_lem m addr i = elim (Option-cases m.mmap_tree) [
  | inl e ↦ rw e refl
  | inr (t, e) ↦
      let q = i.in_tree t e in
      rw (e, find_vma_rb_lem m.vmas t 0 addr none (rw q i.ordered), q) (or_else-none _)
]

cached_lem :
    (m : Mm) (addr x : ℕ)
    → IsMm m
    → cached addr m ≡ some x
    → find_vma_list m.vmas m.mmap_list addr ≡ some x
unfolding cached
cached_lem m addr x i e = elim (Option-cases m.mmap_cache) [
  | inl q ↦ absurd (let e' = rw q at e in cc)
  | inr (y, q) ↦
      let e' = rw q at e in
      let y=x : y ≡ x = ground arith in
      find_vma_list-In m.vmas m.mmap_list 0 x addr i.ordered (i.in_cache x (rw (← y=x) q))
        (ground arith) (ground arith)
]

-- In a well-formed space `find_vma` gives the first area of the list that ends behind the address,
-- also where it comes from the cache or from the tree, and all that it changes is that it caches it.
pub find_vma_lem :
    (m : Mm) (addr : ℕ)
    → IsMm m
    → find_vma addr m ≡ remember (find_vma_list m.vmas m.mmap_list addr) m
unfolding find_vma
find_vma_lem m addr i = elim (Option-cases (cached addr m)) [
  | inl e ↦ rw (find_vma, e, search_vma_lem m addr i) refl
  | inr (x, e) ↦ rw (find_vma, e, cached_lem m addr x i e) refl
]

pub remember-IsMm :
    (o : Option ℕ) (m : Mm)
    → ((x : ℕ) → o ≡ some x → In x m.mmap_list)
    → IsMm m
    → IsMm (remember o m).1
unfolding remember
remember-IsMm none m h i = i
remember-IsMm (some x) m h i = record {
  ordered = i.ordered;
  in_tree = i.in_tree;
  in_cache = h;
  counted = i.counted;
}

pub find_vma-IsMm : (m : Mm) (addr : ℕ) → IsMm m → IsMm (find_vma addr m).1
find_vma-IsMm m addr i =
    rw (find_vma_lem m addr i)
      (remember-IsMm _ m (λ x e. (In-find_vma_list m.vmas m.mmap_list x addr e).0) i)
