-- ===== src/Tests.antt =====
-- Test runs of the model, and each theorem with hypotheses at a concrete input.
mod Sched
mod Libs
mod Pipe
mod File
mod Fs
mod Sfs
mod Strtol
mod Sync
mod Mm
mod Vmm
mod Proc
mod Iobuf
