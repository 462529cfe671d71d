-- ===== src/Tests/Offload.antt =====
-- src/registry.rs at fixed inputs: picking an offload job, backing off, holding off.
use pg_fc.Base.{
  Any, str, str_eq, contains, Map, get, ℕ, ◌*◌, ◌≡◌, refl, ◌↔◌, true, false, Option, none, some, [],
  ◌∷◌,
}
use pg_fc.Store.Format.{live, frozen, archived, StoreRecord, offloaded, is_live}
use pg_fc.Offload.Sweep.{classify_candidate, in_use}
use pg_fc.Offload.Claims.{
  claim_schema, Guards, GuardRun, IsGuarded, none_alive, more, claims, GuardRun-IsGuarded,
}
use pg_fc.Offload.Sizing.{gib, current_gb, nine_tenths, grow_target_gb}
use pg_fc.Offload.Pick.{
  pick_from, verdict, tier_verdict, live_verdict, local_verdict, compactable, imageable,
  stale_but_warm, refreshes, eligible, is_archive, is_refresh, is_none, is_pressure, improve, beats,
  candidate, OffloadPolicy, Scan, routine, pressure, promote, compact, Candidate, job_of,
  pick_offload_job,
}
use pg_fc.Offload.Pick.Best.{offers, stales, IsBestOf, pick_offload_job-IsBestOf}
use pg_fc.Offload.Pick.Permits.{IsPermitted, pick_offload_job-IsPermitted}
use pg_fc.Offload.Backoff.{record_failure}
use pg_fc.Offload.Breaker.{
  breaker_base, breaker_cap, hold_for, hold_for-doubles, holding, record_failure-holding,
}

abbrev cold_row : StoreRecord
cold_row = record { sandbox_id = str "sb-1"; last_active = 100; tier = live }

abbrev frozen_row : StoreRecord
frozen_row = record { sandbox_id = str "sb-2"; last_active = 4000; tier = frozen }

abbrev archived_row : StoreRecord
archived_row = record { sandbox_id = str "sb-3"; last_active = 1; tier = archived }

abbrev rows : Map StoreRecord
rows = (str "a", cold_row) ∷ (str "b", frozen_row) ∷ (str "c", archived_row) ∷ []

abbrev policy : OffloadPolicy
policy = record {
  compact_after = some 1000;
  freeze_after = none;
  archive_after = some 2000;
  image_archive_on = true;
  no_boot = false;
  mode = routine;
}

abbrev scan : Scan
scan = record {
  warm = [];
  policy = policy;
  keepalive = λ s. false;
  backing_off = λ s. false;
  now = 10000;
}

abbrev under_pressure : Scan
under_pressure = record scan { policy = record policy { mode = pressure } }

abbrev with_sessions : Scan
with_sessions = record scan { warm = (str "a", (2, 0)) ∷ [] }

pick_routine : (pick_offload_job rows scan).0 ≡ some (str "b", promote)
unfolding pick_offload_job pick_from verdict tier_verdict live_verdict local_verdict compactable
    imageable stale_but_warm refreshes eligible is_archive is_refresh is_none is_pressure improve
    beats candidate job_of classify_candidate in_use offloaded is_live get str_eq
pick_routine = refl

pick_pressure : (pick_offload_job rows under_pressure).0 ≡ some (str "a", compact)
unfolding pick_offload_job pick_from verdict tier_verdict live_verdict local_verdict compactable
    imageable stale_but_warm refreshes eligible is_archive is_refresh is_none is_pressure improve
    beats candidate job_of classify_candidate in_use offloaded is_live get str_eq
pick_pressure = refl

refresh_sessions : (pick_offload_job rows with_sessions).1 ≡ str "a" ∷ []
unfolding pick_offload_job pick_from verdict tier_verdict live_verdict local_verdict compactable
    imageable stale_but_warm refreshes eligible is_archive is_refresh is_none is_pressure improve
    beats candidate job_of classify_candidate in_use offloaded is_live get str_eq
refresh_sessions = refl

pick_offload_job-IsBestOf_example :
    ((best : Option Candidate) × ((pick_offload_job rows scan).0 ≡ job_of best)
      × IsBestOf best (offers scan rows))
    × ((pick_offload_job rows scan).1 ≡ stales scan rows)
pick_offload_job-IsBestOf_example = pick_offload_job-IsBestOf rows scan

pick_offload_job-IsPermitted_example :
    Any (λ p. (p.0 ≡ str "b") × IsPermitted scan p.0 p.1 promote) rows
pick_offload_job-IsPermitted_example =
    pick_offload_job-IsPermitted rows scan (str "b") promote pick_routine

abbrev failed_once : (ℕ × ℕ) × Map (ℕ × ℕ)
failed_once = record_failure (str "a") 100 []

abbrev held_once : (ℕ × ℕ) × Map (ℕ × ℕ)
held_once = pg_fc.Offload.Breaker.record_failure (str "a") 100 []

pick_no_boot :
    (pick_offload_job rows (record scan { policy = record policy { no_boot = true } })).0
    ≡ some (str "b", promote)
unfolding pick_offload_job pick_from verdict tier_verdict live_verdict local_verdict compactable
    imageable stale_but_warm refreshes eligible is_archive is_refresh is_none is_pressure improve
    beats candidate job_of classify_candidate in_use offloaded is_live get str_eq
pick_no_boot = refl

abbrev one_guard : Guards
one_guard = record { archiving = str "a" ∷ []; guards = str "a" ∷ [] }

one_guard-GuardRun : GuardRun one_guard
unfolding claim_schema contains
one_guard-GuardRun = more (claims (str "a") (str "a" ∷ []) refl) none_alive

GuardRun-IsGuarded_example :
    IsGuarded one_guard
    × ((claim_schema (str "a") one_guard.archiving ≡ none)
        ↔ (contains one_guard.guards (str "a") ≡ true))
GuardRun-IsGuarded_example = GuardRun-IsGuarded one_guard (str "a") one_guard-GuardRun

-- 9 GiB of a device of 10 are used, and the trigger is reached.
grown : grow_target_gb (λ used avail. false) (10 * gib) (9 * gib) gib (10 * gib) 100 ≡ some 20
unfolding grow_target_gb nine_tenths current_gb
grown = refl
