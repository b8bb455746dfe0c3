-- ===== src/Pipe/Read.antt =====
-- Reading takes bytes from the front of the queue that a pipe holds.
use ucorebook_code.Prelude.{
  ℕ, zero, suc, ◌+◌, ◌-◌, ◌%◌, ◌≡◌, ◌≢◌, List, [], ◌∷◌, arith, take, drop, ◌==◌, false, Bool-cases,
  inl, inr, ◌↔◌,
}
use ucorebook_code.Pipe.{Pipe, Outcome, blocked, u32_mod, read_loop, read_pass}
use ucorebook_code.Pipe.Window.{window, IsValid, contents, take_nil, drop_nil}

module _ (bufsize : ℕ) where
  -- What the reading loop has done: it has taken the first `n` bytes, or all.
  record IsRead (n : ℕ) (p : Pipe) (out : List ℕ × Pipe) : Type 0 where
    valid : IsValid bufsize out.1
    bytes : out.0 ≡ take n (contents bufsize p)
    left : contents bufsize out.1 ≡ drop n (contents bufsize p)
    same_wpos : out.1.p_wpos ≡ p.p_wpos
    same_closed : out.1.isclosed ≡ p.isclosed
    same_ref : out.1.ref_count ≡ p.ref_count

  contents-next :
      (p : Pipe)
      → IsValid bufsize p
      → p.p_rpos ≢ p.p_wpos
      → contents bufsize p
        ≡ p.buf (p.p_rpos % bufsize)
          ∷ window bufsize p.buf ((p.p_rpos + 1) % u32_mod) (p.p_wpos - (p.p_rpos + 1) % u32_mod)
  contents-next p v ne =
      let e : p.p_wpos - p.p_rpos ≡ suc (p.p_wpos - (p.p_rpos + 1) % u32_mod) = omega arith in
      let e' : (p.p_rpos + 1) % u32_mod ≡ p.p_rpos + 1 = omega arith in rw e (rw e')

  contents-empty : (p : Pipe) → p.p_rpos ≡ p.p_wpos → contents bufsize p ≡ []
  contents-empty p e = let e' : p.p_wpos - p.p_rpos ≡ 0 = omega arith in rw e'

  read_loop-IsRead : (n : ℕ) (p : Pipe) → IsValid bufsize p → IsRead n p (read_loop bufsize n p)
  unfolding read_loop
  read_loop-IsRead zero p v = ground arith
  read_loop-IsRead (suc n) p v = elim (Bool-cases (p.p_rpos == p.p_wpos)) [
    | inl e ↦ ground (arith, contents-empty p)
    | inr ne ↦ ground (
      arith,
      contents-next p v,
      read_loop-IsRead n (record p { p_rpos = (p.p_rpos + 1) % u32_mod }),
    )
  ]

  -- What a reading pass does. It takes bytes from the front of the queue, as many as it was asked
  -- for or all there are, and it has to wait exactly if there are none and the pipe is open.
  pub record ReadsFront (n : ℕ) (p : Pipe) (out : Outcome × List ℕ × Pipe) : Type 0 where
    pub valid : IsValid bufsize out.2
    pub bytes : out.1 ≡ take n (contents bufsize p)
    pub left : contents bufsize out.2 ≡ drop n (contents bufsize p)
    pub waits : (out.0 ≡ blocked) ↔ ((contents bufsize p ≡ []) × (p.isclosed ≡ false))
    pub same_wpos : out.2.p_wpos ≡ p.p_wpos
    pub same_closed : out.2.isclosed ≡ p.isclosed
    pub same_ref : out.2.ref_count ≡ p.ref_count

  -- A reading pass on a valid pipe takes from the front.
  pub read_pass-ReadsFront :
      (n : ℕ) (p : Pipe) → IsValid bufsize p → ReadsFront n p (read_pass bufsize n p)
  unfolding read_pass
  read_pass-ReadsFront n p v = elim (Bool-cases (p.p_rpos == p.p_wpos)) [
    | inl e ↦ ground (arith, contents-empty p, take_nil n, drop_nil n)
    | inr ne ↦ ground (arith, contents-next p v, read_loop-IsRead n p v)
  ]
