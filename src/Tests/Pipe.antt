-- ===== src/Tests/Pipe.antt =====
-- A ring of three bytes.
use ucorebook_code.Prelude.{
  ℕ, ◌+◌, ◌^◌, ◌<◌, Option, none, ◌≡◌, refl, List, [], ◌∷◌, ◌++◌, some, arith, false,
}
use ucorebook_code.Pipe.{
  Pipe, read_pass, write_pass, pipe_state_create, pipe_state_close, write_loop, write_end,
}
use ucorebook_code.Pipe.Window.{IsValid, contents}
use ucorebook_code.Pipe.Read.{ReadsFront, read_pass-ReadsFront}
use ucorebook_code.Pipe.Write.{WritesBack, write_pass-WritesBack}
use ucorebook_code.Pipe.History.{
  History, Event, reads, writes, closes, step, run, volume, opened, run_fifo,
}

abbrev blank : ℕ → ℕ
blank i = 0

abbrev used : Pipe
used = record {
  p_rpos = 4;
  p_wpos = 6;
  buf = λ i. i + 7;
  isclosed = false;
  ref_count = 2;
  readers = 0;
  writers = 0;
}

used-IsValid : IsValid 3 used
used-IsValid = omega arith

abbrev talk : List Event
talk =
    reads 2
    ∷ writes (1 ∷ 2 ∷ 3 ∷ 4 ∷ 5 ∷ [])
    ∷ reads 2
    ∷ writes (4 ∷ 5 ∷ [])
    ∷ closes
    ∷ reads 9
    ∷ []

write_blocks : (write_pass 3 (1 ∷ 2 ∷ []) used).1 ≡ 2 ∷ []
unfolding write_pass write_loop write_end
write_blocks = refl

talk-volume : volume talk < 2 ^ 32
unfolding volume
talk-volume = omega arith

abbrev heard : Option History → List ℕ
heard none = []
heard (some h) = h.got

talk-heard : heard (run 3 (opened blank) talk) ≡ 1 ∷ 2 ∷ 3 ∷ 4 ∷ 5 ∷ []
unfolding run step opened pipe_state_create pipe_state_close read_pass write_pass write_loop
    write_end
talk-heard = refl

read_pass-ReadsFront_example : ReadsFront 3 1 used (read_pass 3 1 used)
read_pass-ReadsFront_example = read_pass-ReadsFront 3 1 used used-IsValid

write_pass-WritesBack_example : WritesBack 3 (1 ∷ 2 ∷ []) used (write_pass 3 (1 ∷ 2 ∷ []) used)
write_pass-WritesBack_example =
    write_pass-WritesBack 3 (1 ∷ 2 ∷ []) used used-IsValid refl (omega arith)

run_fifo_example :
    (h : History) × (run 3 (opened blank) talk ≡ some h) × (h.sent ≡ h.got ++ contents 3 h.pipe)
run_fifo_example = run_fifo 3 blank talk talk-volume
