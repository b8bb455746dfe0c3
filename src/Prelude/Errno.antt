-- ===== src/Prelude/Errno.antt =====
-- libs/error.h: the error codes, and what a call returns.
-- A call of the kernel returns 0 or a value, or the negative of an error code.
pub data Errno : Type 0 where
  e_unspecified e_bad_proc e_inval e_no_mem e_no_free_proc e_fault e_swap_fault : Errno
  e_inval_elf e_killed e_panic e_timeout e_too_big e_no_dev e_na_dev e_busy e_noent : Errno
  e_isdir e_notdir e_xdev e_unimp e_seek e_max_open e_exists e_notempty : Errno

pub data Result {ℓ} (A : Type ℓ) : Type ℓ where
  ok : A → Result A
  err : Errno → Result A
