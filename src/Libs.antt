-- ===== src/Libs.antt =====
-- libs: strings, memory, hashing and random numbers.
pub mod Str
pub mod Mem
pub mod Strtol
pub mod Rand
pub mod Printnum
