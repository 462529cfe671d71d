-- ===== src/Tests/Draining.antt =====
-- The drain loop of src/registry.rs at fixed inputs.
use pg_fc.Base.{str, str_eq, contains, get, ◌≡◌, refl, false, none, some, [], ◌∷◌, arith}
use pg_fc.Store.Format.{StoreRecord, live, is_live, offloaded}
use pg_fc.Offload.Pick.{
  OffloadPolicy, dump_archive, boots, pick_offload_job, pick_from, verdict, tier_verdict,
  live_verdict, local_verdict, eligible, refreshes, is_archive, is_refresh, compactable, imageable,
  stale_but_warm, is_pressure, is_none, improve, beats, candidate, job_of,
}
use pg_fc.Offload.Sweep.{classify_candidate, in_use}
use pg_fc.Offload.Policies.{
  next_offload_job, scan_of, OffloadConfig, offload_policy, Seen, next_offload_job, scan_of,
}
use pg_fc.Offload.Draining.{
  any_boots, Drain, start, dispatch, DrainRun, starts, goes_on, dispatches,
}
use pg_fc.Offload.Draining.Orderly.{IsOrderly, DrainRun-IsOrderly}

abbrev config : OffloadConfig
config = record {
  compact_after = none;
  freeze_after = none;
  archive_after = some 3600;
  image_archive_on = false;
  compact_interval = none;
  freeze_interval = none;
  archive_interval = some 60;
}

abbrev policy : OffloadPolicy
policy = offload_policy config

abbrev cold : StoreRecord
cold = record { sandbox_id = str "sb-1"; last_active = 0; tier = live }

abbrev seen : Seen
seen = record {
  rows = (str "a", cold) ∷ (str "b", cold) ∷ [];
  warm = [];
  keepalive = λ s. false;
  archiving = [];
  backing_off = λ s. false;
  now = 10000;
}

abbrev one_job : Drain
one_job = record start { in_flight = (str "a", dump_archive) ∷ [] }

dispatches_a : dispatch policy seen start ≡ some one_job
unfolding dispatch next_offload_job scan_of pick_offload_job pick_from verdict tier_verdict
    live_verdict local_verdict eligible refreshes is_archive is_refresh classify_candidate in_use
    offloaded is_live compactable imageable stale_but_warm is_pressure is_none improve beats
    candidate job_of any_boots boots offload_policy contains str_eq get
dispatches_a = refl

-- The other schema waits, since its job boots a VM too.
dispatches_none : dispatch policy seen one_job ≡ none
unfolding dispatch next_offload_job scan_of pick_offload_job pick_from verdict tier_verdict
    live_verdict local_verdict eligible refreshes is_archive is_refresh classify_candidate in_use
    offloaded is_live compactable imageable stale_but_warm is_pressure is_none improve beats
    candidate job_of any_boots boots offload_policy contains str_eq get
dispatches_none = refl

one_job-DrainRun : DrainRun 2 policy one_job
one_job-DrainRun =
    goes_on {d = start} (dispatches seen one_job refl (omega arith) dispatches_a) starts

DrainRun-IsOrderly_example : IsOrderly 2 one_job
DrainRun-IsOrderly_example = DrainRun-IsOrderly 2 policy one_job one_job-DrainRun
