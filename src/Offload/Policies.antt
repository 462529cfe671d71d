-- ===== src/Offload/Policies.antt =====
-- src/registry.rs: what the offload loops are told, and the next job.
use pg_fc.Base.{Str, contains, Map, ℕ, Bool, false, ◌||◌, Option, none, some, List}
use pg_fc.Store.Format.{StoreRecord}
use pg_fc.Offload.Sweep.{Warm}
use pg_fc.Offload.Pick.{
  OffloadKind, promote, compact, image_archive, dump_archive, freeze, routine, pressure,
  OffloadPolicy, Scan, pick_offload_job,
}

-- The thresholds of the tiers that are configured, in seconds, and how often they are swept.
pub record OffloadConfig : Type 0 where
  pub compact_after : Option ℕ
  pub freeze_after : Option ℕ
  pub archive_after : Option ℕ
  pub image_archive_on : Bool
  pub compact_interval : Option ℕ
  pub freeze_interval : Option ℕ
  pub archive_interval : Option ℕ

unfoldable pub offload_policy : OffloadConfig → OffloadPolicy
offload_policy cfg = record {
  compact_after = cfg.compact_after;
  freeze_after = cfg.freeze_after;
  archive_after = cfg.archive_after;
  image_archive_on = cfg.image_archive_on;
  no_boot = false;
  mode = routine;
}

-- A tier that is configured, with no threshold.
abbrev pub at_once : Option ℕ → Option ℕ
at_once none = none
at_once (some after) = some 0

unfoldable pub pressure_policy : OffloadConfig → OffloadPolicy
pressure_policy cfg = record {
  compact_after = at_once cfg.compact_after;
  freeze_after = none;
  archive_after = at_once cfg.archive_after;
  image_archive_on = cfg.image_archive_on;
  no_boot = false;
  mode = pressure;
}

-- What `next_offload_job` reads.
pub record Seen : Type 0 where
  pub rows : Map StoreRecord
  pub warm : Map Warm
  pub keepalive : Str → Bool
  pub archiving : List Str
  pub backing_off : Str → Bool
  pub now : ℕ

unfoldable pub scan_of : OffloadPolicy → List Str → Seen → Scan
scan_of policy in_flight s = record {
  warm = s.warm;
  policy = policy;
  keepalive = s.keepalive;
  backing_off =
      λ schema. contains in_flight schema || contains s.archiving schema || s.backing_off schema;
  now = s.now;
}

-- The job; the clocks that are refreshed are the second part of the pick.
unfoldable pub next_offload_job : OffloadPolicy → List Str → Seen → Option (Str × OffloadKind)
next_offload_job policy in_flight s = (pick_offload_job s.rows (scan_of policy in_flight s)).0

pub data EntryPoint : Type 0 where
  archive_schema compact_schema archive_schema_as_image freeze_schema : EntryPoint

unfoldable pub run_offload_job : OffloadKind → EntryPoint
run_offload_job promote = archive_schema
run_offload_job dump_archive = archive_schema
run_offload_job compact = compact_schema
run_offload_job image_archive = archive_schema_as_image
run_offload_job freeze = freeze_schema
