-- ===== src/Offload/Pick.antt =====
-- src/registry.rs: `pick_offload_job`, over all records of the registry.
pub mod Best
pub mod Permits
pub mod Booting
use pg_fc.Base.{
  ltb, leb, ◌==◌, if◌then◌else◌, Str, Map, get, ℕ, ◌-◌, Bool, true, false, not, ◌&&◌, ◌||◌, Option,
  none, some, List, [], ◌∷◌, ◌++◌,
}
use pg_fc.Store.Format.{Tier, live, compacted, frozen, archived, StoreRecord}
use pg_fc.Offload.Sweep.{SweepAction, skip, refresh, archive, Warm, classify_candidate}

pub data OffloadKind : Type 0 where
  promote compact image_archive dump_archive freeze : OffloadKind

pub data OffloadMode : Type 0 where
  routine pressure : OffloadMode

abbrev pub rank : OffloadKind → OffloadMode → ℕ
rank promote routine = 0
rank compact routine = 1
rank compact pressure = 0
rank image_archive routine = 2
rank image_archive pressure = 1
rank promote pressure = 2
rank dump_archive _ = 3
rank freeze _ = 4

unfoldable pub boots : OffloadKind → Bool
boots dump_archive = true
boots freeze = true
boots _ = false

pub record OffloadPolicy : Type 0 where
  pub compact_after : Option ℕ
  pub freeze_after : Option ℕ
  pub archive_after : Option ℕ
  pub image_archive_on : Bool
  pub no_boot : Bool
  pub mode : OffloadMode

-- What a pick reads besides the records: the arguments of `pick_offload_job`.
pub record Scan : Type 0 where
  pub warm : Map Warm
  pub policy : OffloadPolicy
  pub keepalive : Str → Bool
  pub backing_off : Str → Bool
  pub now : ℕ

-- One record's part of the loop: its job, a clock to refresh, or nothing.
pub data Verdict : Type 0 where
  offer : OffloadKind → Verdict
  stale pass : Verdict

unfoldable pub is_archive : SweepAction → Bool
is_archive archive = true
is_archive _ = false

unfoldable pub is_refresh : SweepAction → Bool
is_refresh refresh = true
is_refresh _ = false

-- The closure `eligible`; an unset threshold is a tier that is off.
unfoldable pub eligible : StoreRecord → ℕ → Option ℕ → Option Warm → Bool
eligible r now none cross = false
eligible r now (some after) cross = is_archive (classify_candidate r false now after cross)

-- Warm by one of the thresholds that are set.
unfoldable pub refreshes : StoreRecord → ℕ → Option Warm → Option ℕ → Bool
refreshes r now w none = false
refreshes r now w (some after) = is_refresh (classify_candidate r false now after w)

unfoldable pub is_pressure : OffloadMode → Bool
is_pressure pressure = true
is_pressure routine = false

unfoldable pub is_none : Option Warm → Bool
is_none none = true
is_none (some _) = false

unfoldable pub compactable : OffloadPolicy → StoreRecord → ℕ → Option Warm → Bool
compactable t r now w = is_none w && eligible r now t.compact_after none

unfoldable pub imageable : OffloadPolicy → StoreRecord → ℕ → Option Warm → Bool
imageable t r now w =
    t.image_archive_on && is_pressure t.mode && is_none w && eligible r now t.archive_after none

unfoldable pub stale_but_warm : OffloadPolicy → StoreRecord → ℕ → Option Warm → Bool
stale_but_warm t r now w =
    refreshes r now w t.compact_after
    || refreshes r now w t.archive_after
    || refreshes r now w t.freeze_after

-- The branch of `Tier::Live`.
unfoldable pub live_verdict : OffloadPolicy → StoreRecord → ℕ → Option Warm → Verdict
live_verdict t r now w =
    if compactable t r now w
    then offer compact
    else if imageable t r now w
    then offer image_archive
    else if not t.no_boot && eligible r now t.archive_after w
    then offer dump_archive
    else if not t.no_boot && eligible r now t.freeze_after w
    then offer freeze
    else if stale_but_warm t r now w
    then stale
    else pass

-- The branch of the tiers that are local files.
unfoldable pub local_verdict : Option ℕ → ℕ → Verdict
local_verdict none idle = pass
local_verdict (some after) idle = if leb after idle then offer promote else pass

unfoldable pub tier_verdict : OffloadPolicy → StoreRecord → ℕ → Option Warm → Tier → Verdict
tier_verdict t r now w archived = pass
tier_verdict t r now w frozen = local_verdict t.archive_after (now - r.last_active)
tier_verdict t r now w compacted = local_verdict t.archive_after (now - r.last_active)
tier_verdict t r now w live = live_verdict t r now w

unfoldable pub verdict : Scan → Str → StoreRecord → Verdict
verdict c schema r =
    if c.keepalive schema || c.backing_off schema
    then pass
    else tier_verdict c.policy r c.now (get schema c.warm) r.tier

-- A job with what it is compared by.
pub record Candidate : Type 0 where
  pub job_rank : ℕ
  pub idle : ℕ
  pub schema : Str
  pub kind : OffloadKind

unfoldable pub candidate : Scan → Str → StoreRecord → OffloadKind → Candidate
candidate c schema r kind = record {
  job_rank = rank kind c.policy.mode;
  idle = c.now - r.last_active;
  schema = schema;
  kind = kind;
}

-- `(rank, Reverse(idle)) < (br, Reverse(bi))`
unfoldable pub beats : Candidate → Candidate → Bool
beats a b = ltb a.job_rank b.job_rank || (a.job_rank == b.job_rank && ltb b.idle a.idle)

unfoldable pub improve : Option Candidate → Candidate → Option Candidate
improve none a = some a
improve (some b) a = if beats a b then some a else some b

-- The loop, with `best` and `refresh`.
unfoldable pub pick_from :
    Scan → Option Candidate → List Str → Map StoreRecord → Option Candidate × List Str
pick_from c best to_refresh [] = (best, to_refresh)
pick_from c best to_refresh ((schema, r) ∷ rest) = elim (verdict c schema r) [
  | offer kind ↦ pick_from c (improve best (candidate c schema r kind)) to_refresh rest
  | stale ↦ pick_from c best (to_refresh ++ schema ∷ []) rest
  | pass ↦ pick_from c best to_refresh rest
]

unfoldable pub job_of : Option Candidate → Option (Str × OffloadKind)
job_of none = none
job_of (some a) = some (a.schema, a.kind)

unfoldable pub pick_offload_job : Map StoreRecord → Scan → Option (Str × OffloadKind) × List Str
pick_offload_job records c =
    let (best, to_refresh) = pick_from c none [] records in (job_of best, to_refresh)
