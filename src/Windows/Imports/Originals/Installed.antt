-- ===== src/Windows/Imports/Originals/Installed.antt =====
-- What InstallPatches keeps of all entries of its table: the DLLs are the outer loop, the entries the
-- inner one, and each entry has a hook of its own.
use alloc.Base.{List, [], ◌∷◌, Bool, ℕ, some, ◌≢◌, sym}
use alloc.Machine.{Ptr, null}
use alloc.Windows.Imports.{
  Image, PatchEntry, patch_iat_in_all_modules, patch_entries, install_patches,
}
use alloc.Windows.Imports.Originals.{Sound, patch_iat-Sound, other_modules}

-- The hooks are not null, and not `q`.
unfoldable pub Apart : (q : Ptr) → List PatchEntry → Type 0
Apart q [] = Unit
Apart q (p ∷ ps) = (p.hook ≢ null) × (p.hook ≢ q) × Apart q ps

-- The hooks of the table are not null and pairwise distinct.
unfoldable pub DistinctHooks : List PatchEntry → Type 0
unfolding Apart
DistinctHooks [] = Unit
DistinctHooks (p ∷ ps) = (p.hook ≢ null) × Apart p.hook ps × DistinctHooks ps

-- `*orig` of every entry is not its hook, and while it is null no slot has that hook or is unbound.
unfoldable pub AllSound : List PatchEntry → List Image → Type 0
unfolding Sound
AllSound [] ms = Unit
AllSound (p ∷ ps) ms = Sound p.hook p.orig ms × AllSound ps ms

module _ (stricmp strcmp : Ptr → Ptr → ℕ) (change_protection : Ptr → Bool) where
  other_entry :
      (dll : Ptr) (p : PatchEntry) (q o : Ptr) (ms : List Image)
      → p.hook ≢ null
      → p.hook ≢ q
      → Sound q o ms
      → (let r =
            patch_iat_in_all_modules stricmp strcmp change_protection dll p.name p.hook
              (some p.orig)
              ms in
          Sound q o r.0)
  unfolding patch_iat_in_all_modules Sound
  other_entry dll p q o ms nn ne (own, free) = (
    own,
    λ z. other_modules stricmp strcmp change_protection p.name p.hook q dll ms _ nn ne (free z),
  )

  other_entries :
      (dll q o : Ptr) (ps : List PatchEntry) (ms : List Image)
      → Apart q ps
      → Sound q o ms
      → Sound q o (patch_entries stricmp strcmp change_protection dll ps ms).1
  unfolding patch_entries Apart
  other_entries dll q o [] ms apart s = s
  other_entries dll q o (p ∷ ps) ms (nn, ne, apart) s =
      other_entries dll q o ps _ apart (other_entry dll p q o ms nn ne s)

  others :
      (dll : Ptr) (p : PatchEntry) (ps : List PatchEntry) (ms : List Image)
      → p.hook ≢ null
      → Apart p.hook ps
      → AllSound ps ms
      → (let r =
            patch_iat_in_all_modules stricmp strcmp change_protection dll p.name p.hook
              (some p.orig)
              ms in
          AllSound ps r.0)
  unfolding AllSound Apart
  others dll p [] ms nn apart all = tt
  others dll p (q ∷ ps) ms nn (_, ne, apart) (s, all) =
      (other_entry dll p q.hook q.orig ms nn (λ e. ne (sym e)) s, others dll p ps ms nn apart all)

  kept-Apart :
      (dll q : Ptr) (ps : List PatchEntry) (ms : List Image)
      → Apart q ps
      → Apart q (patch_entries stricmp strcmp change_protection dll ps ms).0
  unfolding patch_entries Apart
  kept-Apart dll q [] ms apart = tt
  kept-Apart dll q (p ∷ ps) ms (nn, ne, apart) = (nn, ne, kept-Apart dll q ps _ apart)

  kept-DistinctHooks :
      (dll : Ptr) (ps : List PatchEntry) (ms : List Image)
      → DistinctHooks ps
      → DistinctHooks (patch_entries stricmp strcmp change_protection dll ps ms).0
  unfolding patch_entries DistinctHooks
  kept-DistinctHooks dll [] ms d = tt
  kept-DistinctHooks dll (p ∷ ps) ms (nn, apart, d) =
      (nn, kept-Apart dll p.hook ps _ apart, kept-DistinctHooks dll ps _ d)

  patch_entries-AllSound :
      (dll : Ptr) (ps : List PatchEntry) (ms : List Image)
      → DistinctHooks ps
      → AllSound ps ms
      → (let r = patch_entries stricmp strcmp change_protection dll ps ms in AllSound r.0 r.1)
  unfolding patch_entries AllSound DistinctHooks
  patch_entries-AllSound dll [] ms d all = tt
  patch_entries-AllSound dll (p ∷ ps) ms (nn, apart, d) (s, all) = (
    other_entries dll p.hook _ ps _ apart
        (patch_iat-Sound stricmp strcmp change_protection p.name p.hook dll p.orig ms s),
    patch_entries-AllSound dll ps _ d (others dll p ps ms nn apart all),
  )

  -- Where the hooks of the table are not null and pairwise distinct, InstallPatches keeps, for any list of
  -- DLLs and any loaded modules: the saved original of no entry is its hook, and while the original of an
  -- entry is null every slot is bound, and not to its hook.
  pub install_patches-AllSound :
      (crt_dlls : List Ptr) (ps : List PatchEntry) (ms : List Image)
      → DistinctHooks ps
      → AllSound ps ms
      → (let r = install_patches stricmp strcmp change_protection crt_dlls ps ms in
          AllSound r.0 r.1)
  unfolding install_patches
  install_patches-AllSound [] ps ms d all = all
  install_patches-AllSound (dll ∷ dlls) ps ms d all =
      install_patches-AllSound dlls _ _ (kept-DistinctHooks dll ps ms d)
        (patch_entries-AllSound dll ps ms d all)
