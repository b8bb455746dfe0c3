-- ===== src/Tests/Iobuf.antt =====
-- A transfer of 6 bytes into a region with room for 4.
use ucorebook_code.Prelude.{ℕ, ◌+◌, ◌-◌, ◌≡◌, true, if◌then◌else◌, some}
use ucorebook_code.Libs.Mem.{Memory}
use ucorebook_code.Libs.Mem.Blocks.{in_block}
use ucorebook_code.File.Iobuf.{Iobuf, Moved, IsMoved, iobuf_move, iobuf_move_lem}

abbrev counting : Memory
counting a = a

abbrev region : Iobuf
region = record { io_base = 20; io_offset = 7; io_len = 4; io_resid = 4 }

iobuf_move_lem_example :
    (out : Moved) × (iobuf_move region 50 6 true counting ≡ some out)
    × IsMoved region 6 out
    × ((a : ℕ) → out.3 a ≡ (if in_block 20 out.1 a then counting (50 + (a - 20)) else counting a))
iobuf_move_lem_example = iobuf_move_lem region 50 6 true counting
