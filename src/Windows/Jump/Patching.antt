-- ===== src/Windows/Jump/Patching.antt =====
-- What the patches of src/platform/windows/x86_jump.h do to the program: `landing` is how the processor
-- reads the jump, from its manual and not from the source.
use alloc.Base.{
  ℕ, zero, suc, ◌+◌, ◌*◌, ◌/◌, ◌%◌, ◌^◌, ◌≤◌, ◌<◌, ◌≡◌, ◌≢◌, refl, sym, ap, ◌∙◌, List, [], ◌∷◌,
  Bool, true, false, ◌&&◌, Option, none, some, ◌==◌, if◌then◌else◌, arith, Bool-cases, ==→eq, ==→ne,
  eq→==, ne→==, inl, inr, ◌⊎◌,
}
use alloc.Machine.{Ptr, null}
use alloc.Windows.Jump.{
  bytes_of, jump_offset, x86_jump32, x86_jump64, read_code, write_code, jump_size, jump_bytes,
  ManualPatch, apply_manual_patch, remove_manual_patch,
}

-- The number that bytes stand for, the lowest first.
pub value : List ℕ → ℕ
value [] = 0
value (b ∷ bs) = b + 256 * value bs

-- How many numbers `w` bytes can stand for.
pub room : ℕ → ℕ
room zero = 1
room (suc w) = 256 * room w

-- Where the processor goes from a jump at `ip`: E9 adds the offset to the address behind itself, and
-- FF 25 with the displacement 0 reads the target behind itself.
pub decode : (wide : Bool) → (ip : Ptr) → List ℕ → Option Ptr
unfolding value
decode false ip (op ∷ rest) = if op == 0xE9 then some ((ip + 5 + value rest) % 2 ^ 32) else none
decode true ip (o0 ∷ o1 ∷ d0 ∷ d1 ∷ d2 ∷ d3 ∷ rest) =
    if (o0 == 0xFF) && ((o1 == 0x25) && (value (d0 ∷ d1 ∷ d2 ∷ d3 ∷ []) == 0))
    then some (value rest)
    else none
decode wide ip bytes = none

pub landing : (wide : Bool) → (Ptr → ℕ) → Ptr → Option Ptr
unfolding decode
landing wide code ip = decode wide ip (read_code code ip (jump_size wide))

value-bytes_of : (w n : ℕ) → n < room w → value (bytes_of w n) ≡ n
unfolding value bytes_of room
value-bytes_of zero n lt = omega arith
value-bytes_of (suc w) n lt = rw (value-bytes_of w (n / 256) (omega arith)) (omega arith)

count : List ℕ → ℕ
count [] = 0
count (b ∷ bs) = suc (count bs)

read_ext :
    (f g : Ptr → ℕ) (p n : ℕ) → ((a : ℕ) → p ≤ a → f a ≡ g a) → read_code f p n ≡ read_code g p n
unfolding read_code
read_ext f g p zero e = refl
read_ext f g p (suc n) e =
    rw (e p (omega arith), read_ext f g (p + 1) n (λ a le. e a (omega arith))) refl

-- What is written is read back.
read-write : (c : Ptr → ℕ) (p : Ptr) (bs : List ℕ) → read_code (write_code c p bs) p (count bs) ≡ bs
unfolding read_code write_code count
read-write c p [] = refl
read-write c p (b ∷ bs) = rw (eq→== p p refl) (
    ap (λ r. b ∷ r)
      (read_ext (write_code c p (b ∷ bs)) (write_code c (p + 1) bs) (p + 1) (count bs)
          (λ a le. rw (ne→== a p (omega arith)) refl)
        ∙ read-write c (p + 1) bs))

-- Bytes outside of what is written stay.
write-outside :
    (c : Ptr → ℕ) (p : Ptr) (bs : List ℕ) (a : Ptr)
    → (a < p) ⊎ (p + count bs ≤ a)
    → write_code c p bs a ≡ c a
unfolding write_code count
write-outside c p [] a out = refl
write-outside c p (b ∷ bs) a out =
    rw (ne→== a p (omega arith)) (write-outside c (p + 1) bs a (ground arith))

-- Writing what was read of `c` gives `c`, where the rest is that of `c`.
write-read :
    (c d : Ptr → ℕ) (p n a : ℕ)
    → ((a < p) ⊎ (p + n ≤ a) → d a ≡ c a)
    → write_code d p (read_code c p n) a ≡ c a
unfolding read_code write_code
write-read c d p zero a e = e (omega arith)
write-read c d p (suc n) a e = elim (Bool-cases (a == p)) [
  | inl b ↦ rw b (ap c (sym (==→eq a p b)))
  | inr b ↦ rw b (write-read c d (p + 1) n a (λ out. e (apart (==→ne a p b) out)))
]
  where
    apart : a ≢ p → (a < p + 1) ⊎ (p + 1 + n ≤ a) → (a < p) ⊎ (p + suc n ≤ a)
    apart ne out = ground arith

jump_offset_lem :
    (target ip : Ptr) → target < 2 ^ 32 → (ip + 5 + jump_offset target ip) % 2 ^ 32 ≡ target
unfolding jump_offset
jump_offset_lem target ip lt = omega arith

jump_offset-bounded : (target ip : Ptr) → jump_offset target ip < room 4
unfolding jump_offset room
jump_offset-bounded target ip = omega arith

decode-jump_bytes :
    (wide : Bool) (target ip : Ptr)
    → target < (if wide then 2 ^ 64 else 2 ^ 32)
    → decode wide ip (jump_bytes wide target ip) ≡ some target
unfolding decode jump_bytes x86_jump32 x86_jump64 room
decode-jump_bytes false target ip lt =
    rw (value-bytes_of 4 (jump_offset target ip) (jump_offset-bounded target ip))
      (ap some (jump_offset_lem target ip lt))
decode-jump_bytes true target ip lt = unfold bytes_of value in ap some (value-bytes_of 8 target lt)

count-jump_bytes :
    (wide : Bool) (target ip : Ptr) → count (jump_bytes wide target ip) ≡ jump_size wide
unfolding count jump_bytes x86_jump32 x86_jump64 bytes_of jump_size
count-jump_bytes false target ip = refl
count-jump_bytes true target ip = refl

module _ (get_proc_address : Ptr → Ptr) (query protect : Ptr → Bool) (wide : Bool)
    (patch : ManualPatch) (code : Ptr → ℕ) (proc : Ptr) (found : get_proc_address patch.name ≡ proc)
    (nonnull : proc ≢ null) (readable : query proc ≡ true) (writable : protect proc ≡ true) where
  apply-eq : apply_manual_patch get_proc_address query protect wide patch code ≡ (
    true,
    record patch { original = proc; saved = read_code code proc (jump_size wide); applied = true },
    write_code code proc (jump_bytes wide patch.replacement proc),
  )
  unfolding apply_manual_patch
  apply-eq = rw (found, ne→== proc null nonnull, readable, writable) refl

  -- Where the function is found and its page can be made writable, ApplyManualPatch succeeds, a call of the
  -- function then lands on the replacement, and the bytes outside of the jump are as they were.
  pub apply_manual_patch-lands :
      patch.replacement < (if wide then 2 ^ 64 else 2 ^ 32)
      → (let r = apply_manual_patch get_proc_address query protect wide patch code in
          (r.0 ≡ true)
          × (landing wide r.2 proc ≡ some patch.replacement)
          × ((a : Ptr) → (a < proc) ⊎ (proc + jump_size wide ≤ a) → r.2 a ≡ code a))
  unfolding landing
  apply_manual_patch-lands lt = rw apply-eq (
    refl,
    (rw
        (
          sym (count-jump_bytes wide patch.replacement proc),
          read-write code proc (jump_bytes wide patch.replacement proc),
        )
        (decode-jump_bytes wide patch.replacement proc lt)),
    (λ a out.
        write-outside code proc (jump_bytes wide patch.replacement proc) a
          (rw (count-jump_bytes wide patch.replacement proc) out)),
  )

  -- RemoveManualPatch after ApplyManualPatch succeeds and puts every byte of the program back.
  pub remove-apply_manual_patch :
      (let r = apply_manual_patch get_proc_address query protect wide patch code in
        let r' = remove_manual_patch get_proc_address query protect wide r.1 r.2 in
        (r'.0 ≡ true) × (r'.1.applied ≡ false) × ((a : Ptr) → r'.2 a ≡ code a))
  unfolding remove_manual_patch
  remove-apply_manual_patch =
      rw (apply-eq, ne→== proc null nonnull, readable, writable)
        (
          refl,
          refl,
          (λ a. write-read code _ proc (jump_size wide) a (λ out.
              write-outside code proc (jump_bytes wide patch.replacement proc) a
                (rw (count-jump_bytes wide patch.replacement proc) out))),
        )
