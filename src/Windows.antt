-- ===== src/Windows.antt =====
-- src/platform/windows: the import redirection of alloc8_redirect.cpp, and the jumps of x86_jump.h.
pub mod Imports
pub mod Hooks
pub mod Jump
pub mod Threads
