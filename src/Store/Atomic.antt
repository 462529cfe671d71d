-- ===== src/Store/Atomic.antt =====
-- src/store.rs: `write_atomic`, a temporary file that is renamed over the real one.

use pg_fc.Base.{take, Str, ℕ, ◌≡◌, refl, ◌⊎◌, inl, inr, Bool, true, false, Option, none, some}

-- The registry file and its temporary sibling; `none` is a file that is not there.
pub record Disk : Type 0 where
  pub file : Option Str
  pub tmp : Option Str

-- Where a write stops: the call that fails, or the last one before a crash.
pub data Fault : Type 0 where
  no_fault mkdir_fails create_fails sync_fails rename_fails : Fault
  write_fails : ℕ → Fault

-- The disk that a write leaves, and whether it returned `Ok`.
unfoldable pub write_atomic : Fault → Str → Disk → Disk × Bool
write_atomic mkdir_fails contents d = (d, false)
write_atomic create_fails contents d = (d, false)
write_atomic (write_fails n) contents d = (record d { tmp = some (take n contents) }, false)
write_atomic sync_fails contents d = (record d { tmp = some contents }, false)
write_atomic rename_fails contents d = (record d { tmp = some contents }, false)
write_atomic no_fault contents d = (record { file = some contents; tmp = none }, true)

-- Wherever a write stops, the file is the old one whole or the new one whole: the new one exactly
-- when the write returns `Ok`, whatever was left in the temporary file before.
pub write_atomic_lem :
    (f : Fault) (contents : Str) (d : Disk)
    → (((write_atomic f contents d).1 ≡ true)
        × ((write_atomic f contents d).0.file ≡ some contents))
      ⊎ (((write_atomic f contents d).1 ≡ false) × ((write_atomic f contents d).0.file ≡ d.file))
unfolding write_atomic
write_atomic_lem no_fault contents d = inl (refl, refl)
write_atomic_lem _ contents d = inr (refl, refl)
