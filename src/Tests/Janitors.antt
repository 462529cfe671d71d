-- ===== src/Tests/Janitors.antt =====
-- The passes of src/registry.rs over the daemon's listing, at fixed inputs.
use pg_fc.Base.{
  length, All, Str, str, str_eq, starts_with, contains, get, insert, ◌≤◌, ◌≡◌, refl, ◌↔◌, true,
  false, List, [], ◌∷◌,
}
use pg_fc.Store.Format.{StoreRecord, live, frozen, is_live}
use pg_fc.Offload.Targets.{DaemonState, present, gone, daemon_error_run}
use pg_fc.Janitors.{
  VmInfo, Fleet, reap_untracked, is_suspect, owner, live_by_id, untracked, duplicate_of, superseded,
  strip_prefix,
}
use pg_fc.Janitors.Orphans.{
  DiskDir, aged, sweep_orphans, sweep_found, classify, candidates, is_candidate, too_new,
  found_gone, found_present, tier_by_id, reclaim, prune, count_if, max_deletes_per_sweep,
}
use pg_fc.Janitors.Orphans.Guards.{IsOrphan, IsStale, sweep_orphans_lem}
use pg_fc.Janitors.Passes.{Sighted, reap_untracked_lem}
use pg_fc.Janitors.Purge.{
  Owned, Waste, purge_pass, leftovers, unclaimed_spares, owns, purge_pass-Waste,
}

abbrev wb1 : StoreRecord
wb1 = record { sandbox_id = str "sb-1"; last_active = 5; tier = live }

abbrev wb2 : StoreRecord
wb2 = record { sandbox_id = str "sb-2"; last_active = 5; tier = frozen }

abbrev fleet : Fleet
fleet = record {
  rows = (str "wb1", wb1) ∷ (str "wb2", wb2) ∷ [];
  tracked = [];
  archiving = [];
  pending = [];
  claimed = [];
}

-- The VM of a live schema, a duplicate of it, the leftover of a frozen schema, a spare.
abbrev listing : List VmInfo
listing =
    record { id = str "sb-1"; name = str "pg-wb1"; running = true }
    ∷ record { id = str "sb-9"; name = str "pg-wb1"; running = true }
    ∷ record { id = str "sb-2"; name = str "pg-wb2"; running = true }
    ∷ record { id = str "sb-5"; name = str "spare-pg-a"; running = true }
    ∷ []

-- The first pass stops nothing, the second the VM and its duplicate.
first_pass : reap_untracked fleet [] listing ≡ ([], str "sb-1" ∷ str "sb-9" ∷ [])
unfolding reap_untracked is_suspect owner live_by_id is_live untracked duplicate_of superseded
    strip_prefix get insert str_eq contains starts_with
first_pass = refl

second_pass :
    (reap_untracked fleet (str "sb-1" ∷ str "sb-9" ∷ []) listing).0 ≡ str "sb-1" ∷ str "sb-9" ∷ []
unfolding reap_untracked is_suspect owner live_by_id is_live untracked duplicate_of superseded
    strip_prefix get insert str_eq contains starts_with
second_pass = refl

reap_untracked_example :
    (contains (reap_untracked fleet (reap_untracked fleet [] listing).1 listing).0 (str "sb-9")
      ≡ true)
    ↔ (Sighted fleet listing (str "sb-9") × Sighted fleet listing (str "sb-9"))
reap_untracked_example = reap_untracked_lem fleet fleet [] listing listing (str "sb-9")

abbrev nobody : Owned
nobody = record { bound = []; claimed = [] }

abbrev answers_present : Str → DaemonState
answers_present id = present true

purge_pass_run :
    purge_pass answers_present fleet.rows nobody (λ id. nobody) listing
    ≡ str "sb-2" ∷ str "sb-5" ∷ []
unfolding purge_pass leftovers unclaimed_spares owns contains starts_with is_live str_eq
purge_pass_run = refl

purge_pass-Waste_example :
    All
      (Waste fleet.rows nobody (λ id. nobody) listing)
      (purge_pass answers_present fleet.rows nobody (λ id. nobody) listing)
purge_pass-Waste_example = purge_pass-Waste answers_present fleet.rows nobody (λ id. nobody) listing

-- A disk of a live schema, an offloaded one, one that nothing names, and a VM that is stopped.
abbrev left_dir : Str → DaemonState → DiskDir
left_dir name s = record {
  id = name;
  is_dir = true;
  age = aged 7200;
  held = false;
  state = s;
  rootfs_old = true;
  held_again = false;
  state_again = s;
  rootfs_old_again = true;
  removed = true;
  pruned = true;
}

abbrev run_dir : List DiskDir
run_dir =
    left_dir (str "sb-1") gone
    ∷ left_dir (str "sb-2") gone
    ∷ left_dir (str "sb-8") gone
    ∷ left_dir (str "sb-9") (present false)
    ∷ record (left_dir (str "sb-7") gone) { age = aged 60 }
    ∷ []

sweep_run :
    ((sweep_orphans fleet.rows run_dir).reclaimed
      ≡ left_dir (str "sb-2") gone ∷ left_dir (str "sb-8") gone ∷ [])
    × ((sweep_orphans fleet.rows run_dir).acted ≡ 3)
unfolding sweep_orphans sweep_found classify candidates is_candidate too_new found_gone
    found_present tier_by_id reclaim prune count_if get insert str_eq starts_with is_live
    daemon_error_run
sweep_run = (refl, refl)

sweep_orphans_example :
    All
      (λ d. IsOrphan fleet.rows d × (d.held_again ≡ false) × (d.state_again ≡ gone))
      (sweep_orphans fleet.rows run_dir).reclaimed
    × All
        (λ d. IsStale d × (d.held_again ≡ false) × (d.state_again ≡ present false))
        (sweep_orphans fleet.rows run_dir).pruned
    × (length (sweep_orphans fleet.rows run_dir).reclaimed ≤ max_deletes_per_sweep)
sweep_orphans_example = sweep_orphans_lem fleet.rows run_dir
