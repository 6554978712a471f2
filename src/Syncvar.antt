-- ===== src/Syncvar.antt =====
-- src/syncvar.c: variables of 60 bits that are full or empty, with a lock, in one word of 64 bits.
-- `Syncvar.Word` has the word, `Syncvar.Lock` what is done under its lock, `Syncvar.Ops` the calls.
pub mod Word
pub mod State
pub mod Lock
pub mod Ops
pub mod Layout
pub mod Invariant
pub mod Moves
pub mod Keeps
pub mod Run
pub mod Lost
pub mod Release
