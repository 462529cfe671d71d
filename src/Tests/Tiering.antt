-- ===== src/Tests/Tiering.antt =====
-- The offloads and restores of src/registry.rs at fixed inputs.
mod Turns
mod Crashes
use pg_fc.Base.{
  take, Str, str, str_eq, get, ℕ, ◌≤◌, ◌≡◌, refl, ◌≢◌, ◌⊎◌, inr, Bool, true, false, Option, none,
  some, [], ◌∷◌, arith,
}
use pg_fc.Store.Format.{live, compacted, frozen, archived}
use pg_fc.Tiering.{
  stops_leaked, fails, refuse, not_configured, Object, Binding, Places, apply, write_row, replay,
  Config, done, bring_up_failed,
}
use pg_fc.Tiering.Images.{
  promote_compact, put_image, put_image_over, verified, is_baseline, delete_dump, DiskChecks,
  head_fails, head_finds, ImageIo, Spool, from_dump, from_image, pick_restore, probe_archive,
  filter_size, min_dump_bytes, min_image_bytes, found, choose_restore,
}
use pg_fc.Tiering.Images.{pick_restore-probe_archive}
use pg_fc.Tiering.Archive.{
  archive_compacted_schema, promoted_image, Answers, archive_schema_inner, archive_frozen_schema,
  archive_live, unless_active, archive_vm, dumped,
}
use pg_fc.Tiering.Local.{LocalAnswers, freeze_schema_inner, compact_schema_inner}
use pg_fc.Tiering.Checkout.{Brought, restore_source, cold_start, bring_up, thawed_file}
use pg_fc.Tiering.Kept.{IsAt, IsKept, version_at}
use pg_fc.Tiering.Kept.Imaging.{Supports}
use pg_fc.Tiering.Kept.Offloading.{SupportsLocal}
use pg_fc.Tiering.Kept.Restoring.{Restores, copy_of}
use pg_fc.Tiering.Outcomes.{
  Ends, archive_schema_inner_lem, freeze-compact, archive_frozen_schema_lem, cold_start_lem,
  Started, archive-cold_start,
}

abbrev pub everything : Config
everything = record { archive = true; freeze = true; compact = true; image_archive = true }

abbrev pub vm : Str
vm = str "sb-1"

abbrev pub live_row : Binding
live_row = record { sandbox_id = vm; tier = live }

-- The seventh version on the disk of a live schema.
abbrev pub on_vm : Places
on_vm = record {
  row = some live_row;
  file = some live_row;
  behind = false;
  disks = (vm, 7) ∷ [];
  dump = none;
  image = none;
  local_dump = none;
  local_image = none;
}

abbrev pub whole : Object
whole = record { version = 7; size = 4096; tag = 1 }

abbrev checked : Bool → DiskChecks
checked on = record {
  enabled = on;
  run_dir = true;
  disk_there = true;
  released = true;
  dir_made = true;
  free = some 10000;
  allocated = 8192;
}

abbrev no_spool : Spool
no_spool = record { compressed = false; len = none; stream_ok = false; magic_ok = false }

abbrev no_image : ImageIo
no_image = record {
  baseline = head_fails;
  upload_ok = false;
  stored = none;
  head_after = head_fails;
  delete_ok = false;
  deleted_anyway = false;
}

-- A dump that succeeds.
abbrev pub dumps : Answers
dumps = record {
  claimed = false;
  sessions = none;
  ensured = some (vm, 7);
  dump_ok = true;
  dump_left = some whole;
  upload_ok = true;
  upload_left = some whole;
  head_after = head_finds (some whole);
  disk = checked false;
  spool = no_spool;
  image = no_image;
  landed = true;
  put_landed = true;
  killed = true;
  removed = true;
}

pub on_vm-IsAt : IsAt live 7 on_vm
unfolding version_at get str_eq
on_vm-IsAt = record { id = vm; row_at = refl; copy = refl; in_file = λ _. refl }

pub dumps-Supports : Supports on_vm 7 dumps
dumps-Supports = record {
  boots_current = λ id w e. ground (arith, e);
  dump_whole = λ _. (whole, refl, refl, omega arith);
  image_truthful = λ n e. cc;
  promote_truthful = λ n e. cc;
  upload_reports = λ o e. ground (arith, e);
  upload_whole = λ f o e. cc;
}

archive_schema_inner_example :
    Ends live archived 7 (archive_schema_inner everything on_vm.row on_vm dumps) on_vm
archive_schema_inner_example =
    archive_schema_inner_lem everything live 7 dumps on_vm dumps-Supports on_vm-IsAt

-- The same schema, frozen.
abbrev pub frozen_row : Binding
frozen_row = record { sandbox_id = vm; tier = frozen }

abbrev pub on_host : Places
on_host = record on_vm {
  row = some frozen_row;
  file = some frozen_row;
  disks = [];
  local_dump = some whole;
}

pub on_host-IsAt : IsAt frozen 7 on_host
unfolding version_at
on_host-IsAt = record { id = vm; row_at = refl; copy = refl; in_file = λ _. refl }

dumps-Supports_frozen : Supports on_host 7 dumps
dumps-Supports_frozen = record {
  boots_current = λ id w e. ground (arith, e);
  dump_whole = λ _. (whole, refl, refl, omega arith);
  image_truthful = λ n e. cc;
  promote_truthful = λ n e. cc;
  upload_reports = λ o e. ground (arith, e);
  upload_whole = λ f o e u l s. ground (arith, e, l);
}

archive_frozen_schema_example :
    ((n : ℕ)
      → IsKept 7 (replay (take n (archive_frozen_schema everything on_host dumps).0) on_host))
    × (frozen ≢ frozen → (archive_frozen_schema everything on_host dumps).0 ≡ [])
archive_frozen_schema_example =
    archive_frozen_schema_lem everything frozen 7 dumps on_host dumps-Supports_frozen on_host-IsAt

abbrev freezes_it : LocalAnswers
freezes_it = record {
  claimed = false;
  sessions = none;
  ensured = some (vm, 7);
  dump = some whole;
  disk = checked true;
  spool = record { compressed = true; len = some 4096; stream_ok = true; magic_ok = true };
  renamed = true;
  imaged = whole;
  landed = true;
  killed = true;
}

freezes_it-SupportsLocal : SupportsLocal 7 freezes_it
freezes_it-SupportsLocal = record {
  boots_current = λ id w e. ground (arith, e);
  dump_whole = λ o e l. ground (arith, e);
  image_whole = λ n c l m s f. refl;
}

freeze-compact_example :
    Ends live frozen 7 (freeze_schema_inner everything on_vm.row freezes_it) on_vm
    × Ends live compacted 7 (compact_schema_inner everything on_vm.row on_vm freezes_it) on_vm
freeze-compact_example =
    freeze-compact everything live 7 freezes_it on_vm freezes_it-SupportsLocal on_vm-IsAt

-- A thaw from the local dump, and the answers of S3 to a restore of what `dumps` leaves there.
abbrev pub thaws : Brought
thaws = record {
  dump_head = head_finds none;
  image_head = head_finds none;
  ensured = some (vm, 7);
  put_landed = true;
  removed = true;
}

pub thaws-Restores : Restores everything on_host thaws
unfolding copy_of restore_source
thaws-Restores = record {
  dump_answer = inr refl;
  image_answer = inr refl;
  restored = λ s id w r e. ground (arith, r, e);
}

cold_start_example :
    (true ≡ true
      → (id : Str) (w : ℕ) → thaws.ensured ≡ some (id, w)
      → ((cold_start everything on_host thaws).1 ≡ done)
        × Started frozen 7 w thaws on_host (replay (cold_start everything on_host thaws).0 on_host))
    × (true ≡ true
        → thaws.ensured ≡ none
        → cold_start everything on_host thaws ≡ (stops_leaked ∷ [], fails bring_up_failed))
    × (true ≡ false → cold_start everything on_host thaws ≡ refuse not_configured)
cold_start_example = cold_start_lem everything frozen 7 thaws on_host thaws-Restores on_host-IsAt

-- The image of a schema whose dump is too short to be one.
abbrev torn : Option Object
torn = some (record { version = 6; size = 100; tag = 1 })

pick_restore-probe_archive_example :
    ((pick_restore (head_finds torn) (head_finds (some whole)) ≡ from_dump)
        × (probe_archive (head_finds torn) (head_finds (some whole))
            ≡ filter_size min_dump_bytes (found (head_finds torn)))
      ⊎ (pick_restore (head_finds torn) (head_finds (some whole)) ≡ from_image)
        × (probe_archive (head_finds torn) (head_finds (some whole))
            ≡ found (head_finds (some whole)))
        × (filter_size min_dump_bytes (found (head_finds torn)) ≡ none))
    × ((i : Object)
        → min_image_bytes ≤ i.size
        → (pick_restore head_fails (head_finds (some i)) ≡ from_image)
          × (probe_archive head_fails (head_finds (some i)) ≡ some i))
pick_restore-probe_archive_example =
    pick_restore-probe_archive (head_finds torn) (head_finds (some whole))
