-- ===== src/Pipe/History.antt =====
-- A pipe among readers and writers whose passes interleave.
use mathlib.Core.List.{append-nil, append_assoc}
use ucorebook_code.Prelude.{
  ℕ, zero, suc, ◌+◌, ◌-◌, ◌≤◌, ◌<◌, ◌≡◌, refl, ap, List, [], ◌∷◌, ◌++◌, length, take, drop, arith,
  Option, some, ◌>>=◌, take-append-drop, length-drop, inl, inr, Bool-cases, lt→ltb,
}
use ucorebook_code.Pipe.{Pipe, u32_mod, read_pass, write_pass, pipe_state_close, pipe_state_create}
use ucorebook_code.Pipe.Window.{IsValid, contents}
use ucorebook_code.Pipe.Read.{read_pass-ReadsFront}
use ucorebook_code.Pipe.Write.{write_pass-WritesBack, write_pass_closed}

-- A pass of some reader or writer, or the close; passes of one call may lie far apart.
pub data Event : Type 0 where
  reads : ℕ → Event
  writes : List ℕ → Event
  closes : Event

-- The pipe, all bytes that writers have put in and all that readers have got, in order.
pub record History : Type 0 where
  pub pipe : Pipe
  pub sent : List ℕ
  pub got : List ℕ

-- The bytes of `src` that a pass has written when `left` are left.
abbrev written : List ℕ → List ℕ → List ℕ
written src left = take (length src - length left) src

unfoldable pub step : ℕ → History → Event → Option History
step bufsize h (reads n) =
    let out = read_pass bufsize n h.pipe in some (record h { pipe = out.2; got = h.got ++ out.1 })
step bufsize h (writes src) =
    let out = write_pass bufsize src h.pipe in
    some (record h { pipe = out.2; sent = h.sent ++ written src out.1 })
step bufsize h closes = do p ← pipe_state_close h.pipe; some (record h { pipe = p })

unfoldable pub run : ℕ → History → List Event → Option History
run bufsize h [] = some h
run bufsize h (e ∷ es) = do h' ← step bufsize h e; run bufsize h' es

-- The bytes that the events ask to write.
unfoldable pub volume : List Event → ℕ
volume [] = 0
volume (reads n ∷ es) = volume es
volume (writes src ∷ es) = length src + volume es
volume (closes ∷ es) = volume es

-- What was sent is what was got and what is in the pipe.
pub record IsKept (bufsize : ℕ) (h : History) : Type 0 where
  pub valid : IsValid bufsize h.pipe
  pub referred : 0 < h.pipe.ref_count
  pub kept : h.sent ≡ h.got ++ contents bufsize h.pipe

drop_le : (n : ℕ) (xs : List ℕ) → length (drop n xs) ≤ length xs
drop_le n xs = omega (arith, length-drop n xs)

take_written : (n : ℕ) (src : List ℕ) → take (length src - length (drop n src)) src ≡ take n src
take_written zero src = let e : length src - length src ≡ 0 = omega arith in rw e
take_written (suc n) [] = refl
take_written (suc n) (x ∷ xs) =
    let e : suc (length xs) - length (drop n xs) ≡ suc (length xs - length (drop n xs)) =
      omega (arith, drop_le n xs) in
    rw e (ap (◌∷◌ x) (take_written n xs))

written_self : (src : List ℕ) → written src src ≡ []
written_self src = let e : length src - length src ≡ 0 = omega arith in rw e

module _ (bufsize : ℕ) where
  reads-IsKept :
      (n : ℕ) (h : History) {h' : History}
      → IsKept bufsize h
      → step bufsize h (reads n) ≡ some h'
      → IsKept bufsize h' × (h'.pipe.p_wpos ≡ h.pipe.p_wpos)
  unfolding step
  reads-IsKept n h v e =
      let r = read_pass-ReadsFront bufsize n h.pipe v.valid in
      ground (
        arith,
        r,
        take-append-drop n (contents bufsize h.pipe),
        append_assoc h.got (take n (contents bufsize h.pipe)) (drop n (contents bufsize h.pipe)),
      )

  writes-IsKept :
      (src : List ℕ) (h : History) {h' : History}
      → IsKept bufsize h
      → h.pipe.p_wpos + length src < u32_mod
      → step bufsize h (writes src) ≡ some h'
      → IsKept bufsize h' × (h'.pipe.p_wpos ≤ h.pipe.p_wpos + length src)
  unfolding step
  writes-IsKept src h v small e = elim (Bool-cases h.pipe.isclosed) [
    | inl c ↦
        ground (arith, write_pass_closed bufsize src h.pipe c, written_self src, append-nil h.sent)
    | inr o ↦
        let w = write_pass-WritesBack bufsize src h.pipe v.valid o small in
        let room = bufsize - (h.pipe.p_wpos - h.pipe.p_rpos) in
        ground (
          arith,
          w,
          take_written room src,
          append_assoc h.got (contents bufsize h.pipe) (take room src),
        )
  ]

  closes-IsKept :
      (h : History) {h' : History}
      → IsKept bufsize h
      → step bufsize h closes ≡ some h'
      → IsKept bufsize h' × (h'.pipe.p_wpos ≡ h.pipe.p_wpos)
  unfolding step pipe_state_close
  closes-IsKept h v e = ground arith

  step_total :
      (ev : Event) (h : History) → IsKept bufsize h → (h' : History) × (step bufsize h ev ≡ some h')
  unfolding step pipe_state_close
  step_total (reads n) h v = (_, refl)
  step_total (writes src) h v = (_, refl)
  step_total closes h v = rw (lt→ltb _ _ v.referred) (_, refl)

  step-IsKept :
      (ev : Event) (es : List Event) (h : History)
      → IsKept bufsize h
      → h.pipe.p_wpos + volume (ev ∷ es) < u32_mod
      → (h' : History) × (step bufsize h ev ≡ some h')
        × IsKept bufsize h'
        × (h'.pipe.p_wpos + volume es < u32_mod)
  unfolding volume
  step-IsKept (reads n) es h v small =
      let (h', e) = step_total (reads n) h v in
      let k = reads-IsKept n h v e in (h', e, k.0, omega (arith, k.1))
  step-IsKept (writes src) es h v small =
      let (h', e) = step_total (writes src) h v in
      let k = writes-IsKept src h v (omega arith) e in (h', e, k.0, omega (arith, k.1))
  step-IsKept closes es h v small =
      let (h', e) = step_total closes h v in
      let k = closes-IsKept h v e in (h', e, k.0, omega (arith, k.1))

  run-IsKept :
      (es : List Event) (h : History)
      → IsKept bufsize h
      → h.pipe.p_wpos + volume es < u32_mod
      → (h' : History) × (run bufsize h es ≡ some h') × IsKept bufsize h'
  unfolding run
  run-IsKept [] h v small = (h, refl, v)
  run-IsKept (ev ∷ es) h v small =
      let (h₁, e₁, v₁, small₁) = step-IsKept ev es h v small in
      let (h₂, e₂, v₂) = run-IsKept es h₁ v₁ small₁ in (h₂, rw e₁ e₂, v₂)

-- A new pipe that nobody has used.
unfoldable pub opened : (ℕ → ℕ) → History
opened buf = record { pipe = pipe_state_create buf; sent = []; got = [] }

-- However the passes of readers and writers and closes interleave on a new pipe, none panics, and
-- the bytes that were written are the bytes that were read followed by those still in the ring, in
-- order, as long as less than 2 ^ 32 bytes are offered in all.
pub run_fifo :
    (bufsize : ℕ) (buf : ℕ → ℕ) (es : List Event)
    → volume es < u32_mod
    → (h : History) × (run bufsize (opened buf) es ≡ some h)
      × (h.sent ≡ h.got ++ contents bufsize h.pipe)
unfolding opened pipe_state_create
run_fifo bufsize buf es small =
    let (h, e, v) =
      run-IsKept bufsize es (opened buf)
        (record { valid = omega arith; referred = omega arith; kept = refl }) (omega arith) in
    (h, e, v.kept)
