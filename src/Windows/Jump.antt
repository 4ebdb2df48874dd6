-- ===== src/Windows/Jump.antt =====
-- src/platform/windows/x86_jump.h: the jump instructions, and how a function's first bytes are replaced
-- by one and put back. GetProcAddress, VirtualQuery and VirtualProtect are parameters.
pub mod Patching
use alloc.Base.{
  ℕ, zero, suc, ◌+◌, ◌-◌, ◌*◌, ◌/◌, ◌%◌, ◌^◌, List, [], ◌∷◌, ◌++◌, Bool, true, false, ◌&&◌, not,
  ◌||◌, Option, none, some, ◌==◌, if◌then◌else◌, leb, ltb,
}
use alloc.Machine.{Ptr, null}

-- The `width` bytes of `n`, the lowest first: how a struct member lies in memory.
pub bytes_of : (width : ℕ) → ℕ → List ℕ
bytes_of zero n = []
bytes_of (suc w) n = n % 256 ∷ bytes_of w (n / 256)

-- `target - (from + 5)` of two addresses of `2 ^ 32` bytes, cut to 32 bits.
pub jump_offset : (target from : Ptr) → ℕ
jump_offset target from = (target + (2 ^ 32 - (from + 5) % 2 ^ 32)) % 2 ^ 32

pub x86_jump32 : (target from : Ptr) → List ℕ
unfolding bytes_of jump_offset
x86_jump32 target from = 0xE9 ∷ bytes_of 4 (jump_offset target from)

-- farjmp, offset and addr
pub x86_jump64 : (target : Ptr) → List ℕ
unfolding bytes_of
x86_jump64 target = bytes_of 2 0x25FF ++ (bytes_of 4 0 ++ bytes_of 8 target)

-- The bytes of the program, and `n` of them at an address, and those of `bs` written there.
pub read_code : (Ptr → ℕ) → Ptr → (n : ℕ) → List ℕ
read_code code p zero = []
read_code code p (suc n) = code p ∷ read_code code (p + 1) n

pub write_code : (Ptr → ℕ) → Ptr → List ℕ → Ptr → ℕ
write_code code p [] a = code a
write_code code p (b ∷ bs) a = if a == p then b else write_code code (p + 1) bs a

-- `saved` is savedBytes.
pub record ManualPatch : Type 0 where
  pub name : Ptr
  pub replacement : Ptr
  pub original : Ptr
  pub saved : List ℕ
  pub applied : Bool

-- sizeof(X86Jump), by _WIN64
pub jump_size : (wide : Bool) → ℕ
jump_size true = 14
jump_size false = 5

pub jump_bytes : (wide : Bool) → (target from : Ptr) → List ℕ
unfolding x86_jump32 x86_jump64
jump_bytes true target from = x86_jump64 target
jump_bytes false target from = x86_jump32 target from

module _ (get_proc_address : Ptr → Ptr) (query protect : Ptr → Bool) (wide : Bool) where
  -- The result, the patch entry, and the bytes of the program.
  pub apply_manual_patch : ManualPatch → (Ptr → ℕ) → Bool × ManualPatch × (Ptr → ℕ)
  unfolding read_code write_code jump_size jump_bytes
  apply_manual_patch patch code =
      let proc = get_proc_address patch.name in
      let found = record patch { original = proc } in
      if proc == null
      then (false, patch, code)
      else if not (query proc)
      then (false, found, code)
      else if not (protect proc)
      then (false, found, code)
      else (
        true,
        record found { saved = read_code code proc (jump_size wide); applied = true },
        write_code code proc (jump_bytes wide patch.replacement proc),
      )

  pub remove_manual_patch : ManualPatch → (Ptr → ℕ) → Bool × ManualPatch × (Ptr → ℕ)
  unfolding write_code
  remove_manual_patch patch code =
      if not patch.applied || (patch.original == null)
      then (false, patch, code)
      else if not (query patch.original)
      then (false, patch, code)
      else if not (protect patch.original)
      then (false, patch, code)
      else (true, record patch { applied = false }, write_code code patch.original patch.saved)
