-- ===== src/Errno.antt =====
-- Constants of the platform: error numbers, sizes and limits (include/alloc8/platform.h, <errno.h>).
use alloc.Base.{ℕ}

abbrev pub einval : ℕ
einval = 22

abbrev pub enomem : ℕ
enomem = 12

-- `sizeof(void*)`
abbrev pub sizeof_ptr : ℕ
sizeof_ptr = 8

-- ALLOC8_PAGE_SIZE, but on macOS for ARM64
abbrev pub page_size : ℕ
page_size = 4096

abbrev pub path_max : ℕ
path_max = 4096
