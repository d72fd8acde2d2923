-- ===== src/Tests.antt =====
-- Witnesses: the theorems at inputs that meet their hypotheses, and runs of the code.
mod Files
mod Volumes
mod Screen
mod Tasks
mod Games
mod Scripts
mod Drives
mod Lisp
mod Lines
mod Sessions
mod Memory
mod Machine
