-- ===== src/Dedicated/Atomic.antt =====
-- src/dedicated.rs: `write_atomic`, which keeps the credential file at mode 0600.

use pg_fc.Base.{take, Str, ℕ, ◌≡◌, refl, ◌⊎◌, inl, inr, Bool, true, false, Option, none, some}

pub record File : Type 0 where
  pub contents : Str
  pub mode : ℕ

pub record Disk : Type 0 where
  pub file : Option File
  pub tmp : Option File

-- Where a write stops: the call that fails, or the last one before a crash.
pub data Fault : Type 0 where
  no_fault mkdir_fails create_fails sync_fails chmod_fails rename_fails : Fault
  write_fails : ℕ → Fault

abbrev pub private_mode : ℕ
private_mode = 0o600

-- `create(true)` sets the mode of a new file; a file that is there keeps its own.
unfoldable pub open_mode : Option File → ℕ
open_mode none = private_mode
open_mode (some f) = f.mode

abbrev with_tmp : Disk → Str → ℕ → Disk
with_tmp d contents mode = record d { tmp = some (record { contents = contents; mode = mode }) }

-- The disk that a write leaves, and whether it returned `Ok`.
unfoldable pub write_atomic : Fault → Str → Disk → Disk × Bool
unfolding open_mode
write_atomic mkdir_fails s d = (d, false)
write_atomic create_fails s d = (d, false)
write_atomic (write_fails n) s d = (with_tmp d (take n s) (open_mode d.tmp), false)
write_atomic sync_fails s d = (with_tmp d s (open_mode d.tmp), false)
write_atomic chmod_fails s d = (with_tmp d s (open_mode d.tmp), false)
write_atomic rename_fails s d = (with_tmp d s private_mode, false)
write_atomic no_fault s d =
    (record { file = some (record { contents = s; mode = private_mode }); tmp = none }, true)

-- Wherever a write stops, the credential file is the old one whole, or holds the new text and is
-- readable by its owner alone, whatever mode a left-over temporary file had: the latter exactly when
-- the write returns `Ok`.
pub write_atomic_private :
    (f : Fault) (s : Str) (d : Disk)
    → (((write_atomic f s d).1 ≡ true)
        × ((write_atomic f s d).0.file ≡ some (record { contents = s; mode = private_mode })))
      ⊎ (((write_atomic f s d).1 ≡ false) × ((write_atomic f s d).0.file ≡ d.file))
unfolding write_atomic
write_atomic_private no_fault s d = inl (refl, refl)
write_atomic_private _ s d = inr (refl, refl)
