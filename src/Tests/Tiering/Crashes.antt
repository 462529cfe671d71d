-- ===== src/Tests/Tiering/Crashes.antt =====
-- Runs of the offloads and restores of src/registry.rs that stop halfway.
use pg_fc.Base.{
  take, str_eq, get, insert, remove, ◌≡◌, refl, inl, inr, true, false, none, some, [], ◌∷◌, arith,
}
use pg_fc.Store.Format.{live, frozen, archived}
use pg_fc.Tiering.{Object, Places, apply, write_row, replay, done}
use pg_fc.Tiering.Images.{
  found, head_fails, promote_compact, put_image, put_image_over, verified, is_baseline, delete_dump,
  head_finds, pick_restore, archive_of, choose_restore,
}
use pg_fc.Tiering.Archive.{
  archive_compacted_schema, promoted_image, Answers, archive_schema_inner, archive_live,
  unless_active, archive_vm, dumped,
}
use pg_fc.Tiering.Checkout.{
  Brought, restore_source, bring_up, restore_source, cold_start, bring_up, thawed_file,
}
use pg_fc.Tiering.Kept.{IsKept, version_at}
use pg_fc.Tiering.Kept.Restoring.{Restores, copy_of}
use pg_fc.Tiering.Steps.{Run, at_first, and_then, archives, commits, Run-IsKept}
use pg_fc.Tiering.Outcomes.{archive-cold_start, Started}
use pg_fc.Tests.Tiering.{
  everything, vm, on_vm, whole, dumps, frozen_row, on_host, thaws, on_vm-IsAt, dumps-Supports,
}

-- Archived, and the VM killed.
abbrev in_s3 : Places
in_s3 = replay (archive_schema_inner everything on_vm.row on_vm dumps).0 on_vm

-- The request for the dump fails, the one for an image finds nothing.
abbrev restores_it : Brought
restores_it = record thaws { dump_head = head_fails; image_head = head_finds in_s3.image }

in_s3-Restores : Restores everything in_s3 restores_it
unfolding replay apply write_row archive_schema_inner archive_live unless_active archive_vm dumped
    copy_of restore_source pick_restore choose_restore found
in_s3-Restores = record {
  dump_answer = inl refl;
  image_answer = inr refl;
  restored = λ s id w r e. ground (arith, r, e);
}

archive-cold_start_example :
    ((cold_start everything in_s3 restores_it).1 ≡ done)
    × Started archived 7 7 restores_it in_s3
        (replay (cold_start everything in_s3 restores_it).0 in_s3)
unfolding archive_schema_inner archive_live unless_active archive_vm dumped
archive-cold_start_example =
    archive-cold_start everything live 7 dumps on_vm in_s3 restores_it vm 7 dumps-Supports
      on_vm-IsAt refl refl in_s3-Restores refl

-- The same, with an older image beside the dump: it is what comes back.
abbrev older : Object
older = record { version = 3; size = 9000; tag = 2 }

abbrev in_s3_twice : Places
in_s3_twice = record in_s3 { image = some older }

abbrev misled : Brought
misled = record restores_it { image_head = head_finds (some older); ensured = some (vm, 3) }

older_restored :
    (version_at archived vm in_s3_twice ≡ some 7)
    × Restores everything in_s3_twice misled
    × ((cold_start everything in_s3_twice misled).1 ≡ done)
    × (version_at live vm (replay (cold_start everything in_s3_twice misled).0 in_s3_twice)
        ≡ some 3)
unfolding replay apply write_row archive_schema_inner archive_live unless_active archive_vm dumped
    copy_of restore_source pick_restore choose_restore found version_at archive_of cold_start
    bring_up thawed_file get insert remove str_eq
older_restored = (
  refl,
  record {
    dump_answer = inl refl;
    image_answer = inr refl;
    restored = λ s id w r e. ground (arith, r, e);
  },
  refl,
  refl,
)

-- An archiving that stops behind its dump, and a commit.
abbrev half_archived : Places
half_archived = replay (take 3 (archive_schema_inner everything on_vm.row on_vm dumps).0) on_vm

half_archived-Run : Run everything 7 on_vm 7 half_archived
half_archived-Run = and_then {q = on_vm} (archives dumps 3 dumps-Supports) at_first

abbrev committed : Places
committed = record half_archived { disks = insert vm 8 half_archived.disks }

committed-Run : Run everything 7 on_vm 8 committed
unfolding replay apply write_row archive_schema_inner archive_live unless_active archive_vm dumped
committed-Run = and_then {q = half_archived} (commits vm 8 refl) half_archived-Run

Run-IsKept_example : IsKept 8 committed
Run-IsKept_example = Run-IsKept everything 7 on_vm 8 committed committed-Run (live, on_vm-IsAt)

-- A thaw whose row has not reached the file when the local dump is removed, and a crash: the row in the
-- file is frozen, and its copy is gone.
abbrev unlanded : Places
unlanded = replay (cold_start everything on_host (record thaws { put_landed = false })).0 on_host

lost_thaw : (unlanded.file ≡ some frozen_row) × (version_at frozen vm unlanded ≡ none)
unfolding replay apply write_row cold_start restore_source bring_up thawed_file version_at
lost_thaw = (refl, refl)

-- A compacted schema was thawed, its image was not removed, and two commits followed: a promotion that had
-- been chosen before marks the old image as the archive.
abbrev thawed_on : Places
thawed_on = record on_vm { disks = (vm, 9) ∷ []; local_image = some whole }

abbrev promotes_image : Answers
promotes_image = record dumps {
  image = record {
    baseline = head_finds none;
    upload_ok = true;
    stored = some whole;
    head_after = head_finds (some whole);
    delete_ok = true;
    deleted_anyway = false;
  };
}

abbrev promoted : Places
promoted = replay (archive_compacted_schema everything thawed_on promotes_image).0 thawed_on

stale_promotion :
    ((archive_compacted_schema everything thawed_on promotes_image).1 ≡ done)
    × (promoted.row ≡ some (record { sandbox_id = vm; tier = archived }))
    × (version_at archived vm promoted ≡ some 7)
unfolding replay apply write_row archive_compacted_schema promoted_image promote_compact put_image
    put_image_over verified is_baseline delete_dump version_at archive_of choose_restore
stale_promotion = (refl, refl, refl)
