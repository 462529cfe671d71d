-- ===== src/Janitors/Orphans.antt =====
-- src/registry.rs: `sweep_orphans`, the pass over the disks in the run directory.
pub mod Guards
pub mod Rows
use pg_fc.Base.{
  ltb, leb, if◌then◌else◌, length, take, Str, str, starts_with, Map, get, insert, ℕ, ◌+◌, ◌-◌, Bool,
  true, false, not, ◌&&◌, Option, none, some, List, [], ◌∷◌,
}
use pg_fc.Store.Format.{StoreRecord, Tier, is_live}
use pg_fc.Offload.Targets.{DaemonState, present, gone, unanswered, daemon_error_run}

-- Thirty minutes.
abbrev pub orphan_min_age : ℕ
orphan_min_age = 1800

abbrev pub max_deletes_per_sweep : ℕ
max_deletes_per_sweep = 100

abbrev pub max_rootfs_prunes_per_sweep : ℕ
max_rootfs_prunes_per_sweep = 250

abbrev pub max_daemon_errors : ℕ
max_daemon_errors = 5

-- The time since the last change: it cannot be read, or it lies ahead of the clock, or it is known.
pub data Age : Type 0 where
  unreadable ahead : Age
  aged : ℕ → Age

-- An entry of the run directory, and what the pass reads of it: twice whether a file of it is open and
-- what the daemon says, once for the classification and once in front of the change; whether its
-- rootfs copy is old, twice too; whether the removals succeed.
pub record DiskDir : Type 0 where
  pub id : Str
  pub is_dir : Bool
  pub age : Age
  pub held : Bool
  pub state : DaemonState
  pub rootfs_old : Bool
  pub held_again : Bool
  pub state_again : DaemonState
  pub rootfs_old_again : Bool
  pub removed : Bool
  pub pruned : Bool

unfoldable pub too_new : Age → Bool
too_new unreadable = false
too_new ahead = true
too_new (aged s) = ltb s orphan_min_age

unfoldable pub is_candidate : DiskDir → Bool
is_candidate d = starts_with d.id (str "sb-") && d.is_dir && not (too_new d.age)

unfoldable pub candidates : List DiskDir → List DiskDir
candidates [] = []
candidates (d ∷ ds) = let rest = candidates ds in if is_candidate d then d ∷ rest else rest

-- The schema and the tier of every row, by its VM; the last row counts where two have the same.
unfoldable pub tier_by_id : Map StoreRecord → Map (Str × Tier) → Map (Str × Tier)
tier_by_id [] m = m
tier_by_id ((schema, r) ∷ rows) m = tier_by_id rows (insert r.sandbox_id (schema, r.tier) m)

-- What a classification has found.
pub record Found : Type 0 where
  pub deletable : List DiskDir
  pub dataloss : List (Str × Str)
  pub stale_rootfs : List DiskDir

abbrev pub nothing_found : Found
nothing_found = record { deletable = []; dataloss = []; stale_rootfs = [] }

-- The daemon does not know the VM.
unfoldable pub found_gone : Option (Str × Tier) → DiskDir → Found → Found
found_gone none d f = record f { deletable = d ∷ f.deletable }
found_gone (some (schema, t)) d f =
    if is_live t
    then record f { dataloss = (schema, d.id) ∷ f.dataloss }
    else record f { deletable = d ∷ f.deletable }

-- The daemon has the VM.
unfoldable pub found_present : Bool → DiskDir → Found → Found
found_present running d f =
    if not running && d.rootfs_old then record f { stale_rootfs = d ∷ f.stale_rootfs } else f

-- `errs` counts the errors in a row; at the limit the rest is not looked at.
unfoldable pub classify : Map (Str × Tier) → ℕ → List DiskDir → Found
classify by_id errs [] = nothing_found
classify by_id errs (d ∷ ds) =
    let same = classify by_id errs ds in
    let rest = classify by_id (daemon_error_run errs d.state) ds in
    if d.held then same else elim d.state [
      | present running ↦ found_present running d rest
      | unanswered ↦ if leb max_daemon_errors (errs + 1) then nothing_found else rest
      | gone ↦ found_gone (get d.id by_id) d rest
    ]

abbrev pub is_gone : DaemonState → Bool
is_gone gone = true
is_gone _ = false

abbrev pub is_stopped : DaemonState → Bool
is_stopped (present running) = not running
is_stopped _ = false

-- The directories that are told to be removed.
unfoldable pub reclaim : List DiskDir → List DiskDir
reclaim [] = []
reclaim (d ∷ ds) =
    let rest = reclaim ds in if not d.held_again && is_gone d.state_again then d ∷ rest else rest

-- The rootfs copies that are told to be removed.
unfoldable pub prune : List DiskDir → List DiskDir
prune [] = []
prune (d ∷ ds) =
    let rest = prune ds in
    if not d.held_again && d.rootfs_old_again && is_stopped d.state_again then d ∷ rest else rest

unfoldable pub count_if : (DiskDir → Bool) → List DiskDir → ℕ
count_if p [] = 0
count_if p (d ∷ ds) = let rest = count_if p ds in if p d then rest + 1 else rest

-- What one pass did: the directories and copies it went for, what it changed and what it put off.
pub record Swept : Type 0 where
  pub reclaimed : List DiskDir
  pub pruned : List DiskDir
  pub acted : ℕ
  pub deferred : ℕ

unfoldable pub sweep_found : Found → Swept
sweep_found f =
    let deleted = reclaim (take max_deletes_per_sweep f.deletable) in
    let pruned = prune (take max_rootfs_prunes_per_sweep f.stale_rootfs) in
    record {
      reclaimed = deleted;
      pruned = pruned;
      acted = count_if (λ d. d.removed) deleted + count_if (λ d. d.pruned) pruned;
      deferred =
          (length f.deletable - max_deletes_per_sweep)
          + (length f.stale_rootfs - max_rootfs_prunes_per_sweep);
    }

unfoldable pub sweep_orphans : Map StoreRecord → List DiskDir → Swept
sweep_orphans rows entries = sweep_found (classify (tier_by_id rows []) 0 (candidates entries))
