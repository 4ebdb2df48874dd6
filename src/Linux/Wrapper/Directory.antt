-- ===== src/Linux/Wrapper/Directory.antt =====
-- getcwd of gnu_wrapper.cpp, where `__getcwd` fails.
use alloc.Machine.{Machine}
use alloc.Xx.{Xx}
