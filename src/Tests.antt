-- ===== src/Tests.antt =====
-- Runs of the model at concrete inputs, most over the arena of Heap/Bump.antt.
mod Memory
mod Wrappers
mod Allocators
mod Threads
mod Programs
mod Runs
mod Single
mod Forks
mod Detoured
mod Hoard
