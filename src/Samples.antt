-- ===== src/Samples.antt =====
-- A bench for the OS update code: a faithful host, a card in slot A with an installed job for slot B.
pub mod Bench
mod Runs
mod Endings
mod Restarts
