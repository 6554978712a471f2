-- ===== src/Examples.antt =====
-- The theorems at concrete inputs, and tests of the models.
mod Febs
mod SwsrQueues
mod Loops
mod Lifos
mod Sincs
mod JoinQueues
mod Syncvars
mod Qarrays
mod MutexFifos
mod HashMaps
mod LoopQueues
