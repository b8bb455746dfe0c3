-- ===== src/Proc.antt =====
-- kern/process/proc.c: the numbers of processes, the links between them and the hash table.
pub mod Pid
pub mod Table
