-- ===== src/File/Invariant.antt =====
-- The counts of a file table, and that the helpers of kern/fs/file.c keep them without a panic.
use ucorebook_code.Prelude.{
  List, [], ◌∷◌, ◌==◌, Bool, false, ℕ, ◌+◌, ◌-◌, ◌<◌, ◌≡◌, refl, ◌≢◌, true, ◌||◌, if◌then◌else◌,
  Option, none, some, is_some, arith, update, some_of_ne_none,
}
use ucorebook_code.File.{
  Status, Table, is_opened, is_closed, is_init, is_unused, filemap_free, free_end, filemap_acquire,
  filemap_release, filemap_open, close_begin, take_slot,
}

-- `held i` is the number of calls that are under way on the file in slot `i`. An open file is counted
-- once for its descriptor and once for each such call, a closed one once for each such call; a closed
-- one that is not held is being freed, with its `vfs_close` under way. A free slot and one that is
-- being opened are not held. An open file has a node.
-- The node, if any, was handed to `vfs_close`.
unfoldable pub is_handed : Option ℕ → List ℕ → Bool
is_handed none ns = true
is_handed (some n) [] = false
is_handed (some n) (x ∷ ns) = let rest = is_handed (some n) ns in x == n || rest

-- The list with one node more, if any.
abbrev pub handed_over : Option ℕ → List ℕ → List ℕ
handed_over none ns = ns
handed_over (some n) ns = n ∷ ns

pub is_handed-more :
    (o o' : Option ℕ) (ns : List ℕ) → is_handed o ns ≡ true → is_handed o (handed_over o' ns) ≡ true
unfolding is_handed
is_handed-more none o' ns h = refl
is_handed-more (some x) none ns h = h
is_handed-more (some x) (some n) ns h = ground arith

is_handed-first : (o : Option ℕ) (ns : List ℕ) → is_handed o (handed_over o ns) ≡ true
unfolding is_handed
is_handed-first none ns = refl
is_handed-first (some n) ns = ground arith

pub record IsExact (nentry : ℕ) (held : ℕ → ℕ) (t : Table) : Type 0 where
  pub counted :
      (i : ℕ)
      → i < nentry
      → (t.files i).open_count ≡ (if is_opened (t.files i).status then 1 else 0) + held i
  pub idle :
      (i : ℕ)
      → i < nentry
      → is_unused (t.files i).status || is_init (t.files i).status ≡ true
      → held i ≡ 0
  pub freeing :
      (i : ℕ)
      → i < nentry
      → is_closed (t.files i).status ≡ true
      → held i ≡ 0
      → is_handed (t.files i).node t.closes ≡ true
  pub noded :
      (i : ℕ) → i < nentry → is_opened (t.files i).status ≡ true → is_some (t.files i).node ≡ true
  pub numbered : (i : ℕ) → i < nentry → (t.files i).fd ≡ i

-- The run does not panic and leaves a valid table.
abbrev pub KeepsExact : ℕ → (ℕ → ℕ) → Option Table → Type 0
KeepsExact nentry held o = (t : Table) × (o ≡ some t) × IsExact nentry held t

pub closed_only : (s : Status) → is_closed s ≡ true → (is_init s ≡ false) × (is_opened s ≡ false)
unfolding is_closed is_init is_opened
closed_only s h = ground arith

module _ (nentry i : ℕ) (in_table : i < nentry) where
  acquire-IsExact :
      (held : ℕ → ℕ) (t : Table) {t' : Table}
      → IsExact nentry held t
      → is_opened (t.files i).status ≡ true
      → filemap_acquire i t ≡ some t'
      → IsExact nentry (update held i (held i + 1)) t'
  unfolding filemap_acquire update is_unused is_init is_closed is_opened
  acquire-IsExact held t v o e = record {
    counted = λ j h. ground (arith, v.counted j h);
    idle = λ j h u. ground (arith, v.idle j h);
    freeing = λ j h u z. ground (
      arith,
      v.freeing j h,
      v.counted j h,
      is_handed-more (t.files j).node (t.files i).node t.closes,
      is_handed-first (t.files i).node t.closes,
      v.counted i in_table,
      v.idle i in_table,
    );
    noded = λ j h u. ground (arith, v.noded j h);
    numbered = λ j h. ground (arith, v.numbered j h);
  }

  acquire-ne-none :
      (held : ℕ → ℕ) (t : Table)
      → IsExact nentry held t
      → is_opened (t.files i).status ≡ true
      → filemap_acquire i t ≢ none
  unfolding filemap_acquire is_init is_opened is_closed is_unused
  acquire-ne-none held t v o e = ground (arith, v.counted i in_table)

  -- An open file can be held.
  pub acquire_lem :
      (held : ℕ → ℕ) (t : Table)
      → IsExact nentry held t
      → is_opened (t.files i).status ≡ true
      → KeepsExact nentry (update held i (held i + 1)) (filemap_acquire i t)
  acquire_lem held t v o =
      let (t', e) = some_of_ne_none (filemap_acquire i t) (acquire-ne-none held t v o) in
      (t', e, acquire-IsExact held t v o e)

  release-IsExact :
      (held : ℕ → ℕ) (t : Table) {t' : Table}
      → IsExact nentry held t
      → 0 < held i
      → filemap_release i t ≡ some t'
      → IsExact nentry (update held i (held i - 1)) t'
  unfolding filemap_release update is_unused is_init is_closed is_opened
  release-IsExact held t v o e = record {
    counted = λ j h. ground (arith, v.counted j h, v.counted i in_table, v.idle i in_table);
    idle = λ j h u. ground (arith, v.idle j h, v.counted i in_table, v.idle i in_table);
    freeing = λ j h u z. ground (
      arith,
      v.freeing j h,
      v.counted j h,
      is_handed-more (t.files j).node (t.files i).node t.closes,
      is_handed-first (t.files i).node t.closes,
      v.counted i in_table,
      v.idle i in_table,
    );
    noded = λ j h u. ground (arith, v.noded j h);
    numbered = λ j h. ground (arith, v.numbered j h);
  }

  release-ne-none :
      (held : ℕ → ℕ) (t : Table) → IsExact nentry held t → 0 < held i → filemap_release i t ≢ none
  unfolding filemap_release is_init is_opened is_closed is_unused
  release-ne-none held t v o e =
      ground (arith, v.counted i in_table, v.counted i in_table, v.idle i in_table)

  -- A held file can be let go.
  pub release_lem :
      (held : ℕ → ℕ) (t : Table)
      → IsExact nentry held t
      → 0 < held i
      → KeepsExact nentry (update held i (held i - 1)) (filemap_release i t)
  release_lem held t v o =
      let (t', e) = some_of_ne_none (filemap_release i t) (release-ne-none held t v o) in
      (t', e, release-IsExact held t v o e)

  close-IsExact :
      (held : ℕ → ℕ) (t : Table) {t' : Table}
      → IsExact nentry held t
      → is_opened (t.files i).status ≡ true
      → close_begin i t ≡ some t'
      → IsExact nentry held t'
  unfolding close_begin update is_unused is_init is_closed is_opened
  close-IsExact held t v o e = record {
    counted = λ j h. ground (arith, v.counted j h, v.counted i in_table, v.idle i in_table);
    idle = λ j h u. ground (arith, v.idle j h, v.counted i in_table, v.idle i in_table);
    freeing = λ j h u z. ground (
      arith,
      v.freeing j h,
      v.counted j h,
      is_handed-more (t.files j).node (t.files i).node t.closes,
      is_handed-first (t.files i).node t.closes,
      v.counted i in_table,
      v.idle i in_table,
    );
    noded = λ j h u. ground (arith, v.noded j h);
    numbered = λ j h. ground (arith, v.numbered j h);
  }

  close-ne-none :
      (held : ℕ → ℕ) (t : Table)
      → IsExact nentry held t
      → is_opened (t.files i).status ≡ true
      → close_begin i t ≢ none
  unfolding close_begin is_init is_opened is_closed is_unused
  close-ne-none held t v o e =
      ground (arith, v.counted i in_table, v.counted i in_table, v.idle i in_table)

  -- An open file can be closed.
  pub close_lem :
      (held : ℕ → ℕ) (t : Table)
      → IsExact nentry held t
      → is_opened (t.files i).status ≡ true
      → KeepsExact nentry held (close_begin i t)
  close_lem held t v o =
      let (t', e) = some_of_ne_none (close_begin i t) (close-ne-none held t v o) in
      (t', e, close-IsExact held t v o e)

  free-IsExact :
      (held : ℕ → ℕ) (t : Table) {t' : Table}
      → IsExact nentry held t
      → is_init (t.files i).status ≡ true
      → filemap_free i t ≡ some t'
      → IsExact nentry held t'
  unfolding filemap_free update is_unused is_init is_closed is_opened
  free-IsExact held t v o e = record {
    counted = λ j h. ground (arith, v.counted j h, v.counted i in_table, v.idle i in_table);
    idle = λ j h u. ground (arith, v.idle j h, v.counted i in_table, v.idle i in_table);
    freeing = λ j h u z. ground (
      arith,
      v.freeing j h,
      v.counted j h,
      is_handed-more (t.files j).node (t.files i).node t.closes,
      is_handed-first (t.files i).node t.closes,
      v.counted i in_table,
      v.idle i in_table,
    );
    noded = λ j h u. ground (arith, v.noded j h);
    numbered = λ j h. ground (arith, v.numbered j h);
  }

  free-ne-none :
      (held : ℕ → ℕ) (t : Table)
      → IsExact nentry held t
      → is_init (t.files i).status ≡ true
      → filemap_free i t ≢ none
  unfolding filemap_free is_init is_opened is_closed is_unused
  free-ne-none held t v o e =
      ground (arith, v.counted i in_table, v.counted i in_table, v.idle i in_table)

  -- A slot that is being opened can be given back.
  pub free_lem :
      (held : ℕ → ℕ) (t : Table)
      → IsExact nentry held t
      → is_init (t.files i).status ≡ true
      → KeepsExact nentry held (filemap_free i t)
  free_lem held t v o =
      let (t', e) = some_of_ne_none (filemap_free i t) (free-ne-none held t v o) in
      (t', e, free-IsExact held t v o e)

  open-IsExact :
      (held : ℕ → ℕ) (t : Table) {t' : Table}
      → IsExact nentry held t
      → is_init (t.files i).status ≡ true
      → is_some (t.files i).node ≡ true
      → filemap_open i t ≡ some t'
      → IsExact nentry held t'
  unfolding filemap_open update is_unused is_init is_closed is_opened
  open-IsExact held t v o n e = record {
    counted = λ j h. ground (arith, v.counted j h, v.counted i in_table, v.idle i in_table);
    idle = λ j h u. ground (arith, v.idle j h, v.counted i in_table, v.idle i in_table);
    freeing = λ j h u z. ground (
      arith,
      v.freeing j h,
      v.counted j h,
      is_handed-more (t.files j).node (t.files i).node t.closes,
      is_handed-first (t.files i).node t.closes,
      v.counted i in_table,
      v.idle i in_table,
    );
    noded = λ j h u. ground (arith, v.noded j h);
    numbered = λ j h. ground (arith, v.numbered j h);
  }

  open-ne-none :
      (held : ℕ → ℕ) (t : Table)
      → IsExact nentry held t
      → is_init (t.files i).status ≡ true
      → is_some (t.files i).node ≡ true
      → filemap_open i t ≢ none
  unfolding filemap_open is_init is_opened is_closed is_unused
  open-ne-none held t v o n e =
      ground (arith, v.counted i in_table, v.counted i in_table, v.idle i in_table)

  -- A slot that is being opened and has a node can be opened.
  pub open_lem :
      (held : ℕ → ℕ) (t : Table)
      → IsExact nentry held t
      → is_init (t.files i).status ≡ true
      → is_some (t.files i).node ≡ true
      → KeepsExact nentry held (filemap_open i t)
  open_lem held t v o n =
      let (t', e) = some_of_ne_none (filemap_open i t) (open-ne-none held t v o n) in
      (t', e, open-IsExact held t v o n e)

  take-IsExact :
      (held : ℕ → ℕ) (t : Table) {t' : Table}
      → IsExact nentry held t
      → is_unused (t.files i).status ≡ true
      → take_slot i t ≡ some t'
      → IsExact nentry held t'
  unfolding take_slot update is_unused is_init is_closed is_opened
  take-IsExact held t v o e = record {
    counted = λ j h. ground (arith, v.counted j h, v.counted i in_table, v.idle i in_table);
    idle = λ j h u. ground (arith, v.idle j h, v.counted i in_table, v.idle i in_table);
    freeing = λ j h u z. ground (
      arith,
      v.freeing j h,
      v.counted j h,
      is_handed-more (t.files j).node (t.files i).node t.closes,
      is_handed-first (t.files i).node t.closes,
      v.counted i in_table,
      v.idle i in_table,
    );
    noded = λ j h u. ground (arith, v.noded j h);
    numbered = λ j h. ground (arith, v.numbered j h);
  }

  take-ne-none :
      (held : ℕ → ℕ) (t : Table)
      → IsExact nentry held t
      → is_unused (t.files i).status ≡ true
      → take_slot i t ≢ none
  unfolding take_slot is_init is_opened is_closed is_unused
  take-ne-none held t v o e =
      ground (arith, v.counted i in_table, v.counted i in_table, v.idle i in_table)

  -- A free slot can be taken.
  pub take_lem :
      (held : ℕ → ℕ) (t : Table)
      → IsExact nentry held t
      → is_unused (t.files i).status ≡ true
      → KeepsExact nentry held (take_slot i t)
  take_lem held t v o =
      let (t', e) = some_of_ne_none (take_slot i t) (take-ne-none held t v o) in
      (t', e, take-IsExact held t v o e)

  -- The slot of a closed file that is not held becomes free when `vfs_close` returns.
  pub free_end-IsExact :
      (held : ℕ → ℕ) (t : Table)
      → IsExact nentry held t
      → is_closed (t.files i).status ≡ true
      → (t.files i).open_count ≡ 0
      → IsExact nentry held (free_end i t)
  unfolding free_end update is_unused is_init is_closed is_opened
  free_end-IsExact held t v o e = record {
    counted = λ j h. ground (arith, v.counted j h, v.counted i in_table, v.idle i in_table);
    idle = λ j h u. ground (arith, v.idle j h, v.counted i in_table, v.idle i in_table);
    freeing = λ j h u z. ground (
      arith,
      v.freeing j h,
      v.counted j h,
      is_handed-more (t.files j).node (t.files i).node t.closes,
      is_handed-first (t.files i).node t.closes,
      v.counted i in_table,
      v.idle i in_table,
    );
    noded = λ j h u. ground (arith, v.noded j h);
    numbered = λ j h. ground (arith, v.numbered j h);
  }
