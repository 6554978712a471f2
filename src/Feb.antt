-- ===== src/Feb.antt =====
-- src/feb.c: full/empty bits on memory words.
pub mod State
pub mod Lock
pub mod Ops
pub mod Cascade
pub mod Invariant
pub mod Run
pub mod Level
pub mod Delivery
pub mod Blocking
pub mod Preconds
pub mod Unaligned
pub mod Taking
