-- ===== src/Mm.antt =====
-- Memory management, kern/mm.
pub mod Tree
pub mod RbTree
pub mod Buddy
pub mod Vmm
pub mod Shmem
