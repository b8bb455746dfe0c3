-- ===== src/File/Iobuf.antt =====
-- kern/fs/iobuf.c: a transfer between kernel memory and a region, with what is left of it.
use ucorebook_code.Prelude.{
  ℕ, ◌+◌, ◌-◌, ◌≤◌, ◌<◌, ◌≡◌, refl, Bool, Bool-cases, ltb, leb, ◌==◌, if◌then◌else◌, Option, some,
  assert, ◌>>=◌, ◌>>◌, arith, inl, inr, min,
}
use ucorebook_code.Prelude.Errno.{e_no_mem, Result, ok, err}
use ucorebook_code.Libs.Mem.{Memory, memset, memmove}
use ucorebook_code.Libs.Mem.Blocks.{in_block, memset_lem, memmove_lem}

pub record Iobuf : Type 0 where
  pub io_base : ℕ
  pub io_offset : ℕ
  pub io_len : ℕ
  pub io_resid : ℕ

unfoldable pub iobuf_init : ℕ → ℕ → ℕ → Iobuf
iobuf_init base len offset = record {
  io_base = base;
  io_offset = offset;
  io_len = len;
  io_resid = len;
}

unfoldable pub iobuf_used : Iobuf → ℕ
iobuf_used iob = iob.io_len - iob.io_resid

unfoldable pub iobuf_skip : Iobuf → ℕ → Option Iobuf
iobuf_skip iob n = do
  assert (leb n iob.io_resid)
  some (record iob {
    io_base = iob.io_base + n;
    io_offset = iob.io_offset + n;
    io_resid = iob.io_resid - n;
  })

-- How much of `len` bytes there is room for.
unfoldable pub room : Iobuf → ℕ → ℕ
room iob len = if ltb len iob.io_resid then len else iob.io_resid

abbrev pub Moved : Type 0
Moved = Result (Unit {0}) × ℕ × Iobuf × Memory

unfoldable pub status : ℕ → Result (Unit {0})
status left = if left == 0 then ok tt else err e_no_mem

-- The bytes were moved, `alen` of them.
unfoldable pub finish_move : Iobuf → ℕ → ℕ → Memory → Option Moved
unfolding status
finish_move iob len alen mem = do
  iob' ← iobuf_skip iob alen
  some (status (len - alen), alen, iob', mem)

-- The result, what `copiedp` is set to, and the state after.
unfoldable pub iobuf_move : Iobuf → ℕ → ℕ → Bool → Memory → Option Moved
iobuf_move iob kernel len m2b mem =
    let alen = room iob len in
    let src = if m2b then kernel else iob.io_base in
    let dst = if m2b then iob.io_base else kernel in
    if ltb 0 alen
    then finish_move iob len alen (memmove dst src alen mem)
    else some (status len, alen, iob, mem)

unfoldable pub iobuf_move_zeros : Iobuf → ℕ → Memory → Option Moved
iobuf_move_zeros iob len mem =
    let alen = room iob len in
    if ltb 0 alen
    then finish_move iob len alen (memset iob.io_base 0 alen mem)
    else some (status len, alen, iob, mem)

-- `n` bytes are used up, and there is an error if these are not all of `len`.
pub record IsMoved (iob : Iobuf) (len : ℕ) (out : Moved) : Type 0 where
  pub copied : out.1 ≡ min len iob.io_resid
  pub all : len ≤ iob.io_resid → out.0 ≡ ok tt
  pub short : iob.io_resid < len → out.0 ≡ err e_no_mem
  pub base : out.2.io_base ≡ iob.io_base + out.1
  pub offset : out.2.io_offset ≡ iob.io_offset + out.1
  pub used : iob.io_resid ≤ iob.io_len → iobuf_used out.2 ≡ iobuf_used iob + out.1

-- The state after `alen` bytes.
abbrev advanced : Iobuf → ℕ → Iobuf
advanced iob n = record iob {
  io_base = iob.io_base + n;
  io_offset = iob.io_offset + n;
  io_resid = iob.io_resid - n;
}

advanced-IsMoved :
    (iob : Iobuf) (len : ℕ) (mem : Memory)
    → IsMoved iob len (status (len - room iob len), room iob len, advanced iob (room iob len), mem)
unfolding status room iobuf_used
advanced-IsMoved iob len mem = record {
  copied = ground arith;
  all = λ h. ground arith;
  short = λ h. ground arith;
  base = refl;
  offset = refl;
  used = λ h. ground arith;
}

finish_move_lem :
    (iob : Iobuf) (len : ℕ) (mem : Memory)
    → finish_move iob len (room iob len) mem
      ≡ some (status (len - room iob len), room iob len, advanced iob (room iob len), mem)
unfolding finish_move iobuf_skip room
finish_move_lem iob len mem = ground arith

still-IsMoved :
    (iob : Iobuf) (len : ℕ) (mem : Memory)
    → room iob len ≡ 0
    → IsMoved iob len (status len, 0, iob, mem)
unfolding status room iobuf_used
still-IsMoved iob len mem e = record {
  copied = ground arith;
  all = λ h. ground arith;
  short = λ h. ground arith;
  base = omega arith;
  offset = omega arith;
  used = λ h. omega arith;
}

-- `iobuf_move_zeros` never panics: it clears as many of the `len` bytes as there is room for, moves
-- on by as many, fails exactly where that is not all, and changes no other byte.
pub iobuf_move_zeros_lem :
    (iob : Iobuf) (len : ℕ) (mem : Memory)
    → (out : Moved) × (iobuf_move_zeros iob len mem ≡ some out)
      × IsMoved iob len out
      × ((a : ℕ) → out.3 a ≡ (if in_block iob.io_base out.1 a then 0 else mem a))
unfolding iobuf_move_zeros
iobuf_move_zeros_lem iob len mem = elim (Bool-cases (ltb 0 (room iob len))) [
  | inl t ↦
      let mem' = memset iob.io_base 0 (room iob len) mem in
      (
        (status (len - room iob len), room iob len, advanced iob (room iob len), mem'),
        rw t (finish_move_lem iob len mem'),
        advanced-IsMoved iob len mem',
        λ a. memset_lem iob.io_base 0 (room iob len) mem a,
      )
  | inr f ↦
      let nothing : room iob len ≡ 0 = ground arith in
      (
        (status len, 0, iob, mem),
        rw nothing refl,
        still-IsMoved iob len mem nothing,
        λ a. ground arith,
      )
]

-- `iobuf_move` never panics: it moves as many of the `len` bytes as there is room for, in the
-- direction asked for, moves on by as many, fails exactly where that is not all, and changes no other
-- byte, however the two places overlap.
pub iobuf_move_lem :
    (iob : Iobuf) (kernel len : ℕ) (m2b : Bool) (mem : Memory)
    → (out : Moved) × (iobuf_move iob kernel len m2b mem ≡ some out)
      × IsMoved iob len out
      × ((a : ℕ)
          → out.3 a ≡ (
              if in_block (if m2b then iob.io_base else kernel) out.1 a
              then mem (
                  (if m2b then kernel else iob.io_base)
                  + (a - (if m2b then iob.io_base else kernel)))
              else mem a))
unfolding iobuf_move
iobuf_move_lem iob kernel len m2b mem =
    let src = if m2b then kernel else iob.io_base in
    let dst = if m2b then iob.io_base else kernel in
    elim (Bool-cases (ltb 0 (room iob len))) [
      | inl t ↦
          let mem' = memmove dst src (room iob len) mem in
          (
            (status (len - room iob len), room iob len, advanced iob (room iob len), mem'),
            rw t (finish_move_lem iob len mem'),
            advanced-IsMoved iob len mem',
            λ a. memmove_lem dst src (room iob len) mem a,
          )
      | inr f ↦
          let nothing : room iob len ≡ 0 = ground arith in
          (
            (status len, 0, iob, mem),
            rw nothing refl,
            still-IsMoved iob len mem nothing,
            λ a. ground arith,
          )
    ]
