-- ===== src/Tests.antt =====
-- Runs and examples, a module for each part.
mod Vclock
mod GCounter
mod PnCounter
mod LwwRegister
mod Context
mod GSet
mod OrSet
mod Pool
mod Hazard
mod Network
mod Atomic
mod Claims
mod Storage
