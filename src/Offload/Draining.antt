-- ===== src/Offload/Draining.antt =====
-- src/registry.rs: `offload_drain_loop`, with as many workers as are configured.
pub mod Orderly
use pg_fc.Base.{
  leb, if◌then◌else◌, length, Str, ℕ, ◌+◌, ◌<◌, ◌≡◌, Bool, true, false, ◌||◌, Option, none, some,
  List, [], ◌∷◌, ◌++◌,
}
use pg_fc.Offload.Pick.{OffloadKind, boots, OffloadPolicy}
use pg_fc.Offload.Pick.Permits.{IsPermitted, pick_offload_job-IsPermitted}
use pg_fc.Offload.Pick.Booting.{Any-reason, pick_offload_job-boots}
use pg_fc.Offload.Policies.{Seen, scan_of, next_offload_job}
use pg_fc.Offload.Sweeping.{max_consecutive_failures}
use pg_fc.Spares.Sets.{IsNodup, IsNodup-middle}

abbrev pub Job : Type 0
Job = Str × OffloadKind

abbrev pub schemas : List Job → List Str
schemas [] = []
schemas (j ∷ js) = j.0 ∷ schemas js

unfoldable pub any_boots : List Job → Bool
any_boots [] = false
any_boots (j ∷ js) = boots j.1 || any_boots js

-- `ended` is set once the loop has been left; the jobs in flight are waited for.
pub record Drain : Type 0 where
  pub in_flight : List Job
  pub archived : ℕ
  pub failures : ℕ
  pub ended : Bool

abbrev pub start : Drain
start = record { in_flight = []; archived = 0; failures = 0; ended = false }

-- A job that does not finish cleanly is `failed` too.
pub data JobOutcome : Type 0 where
  done skipped failed : JobOutcome

unfoldable pub dispatch : OffloadPolicy → Seen → Drain → Option Drain
dispatch policy s d =
    elim (next_offload_job (record policy { no_boot = any_boots d.in_flight }) (schemas d.in_flight)
      s) [ none ↦ none | some job ↦ some (record d { in_flight = job ∷ d.in_flight }) ]

-- The counts after an outcome, while the loop runs.
unfoldable pub count_outcome : JobOutcome → Drain → Drain
count_outcome done d = record d { archived = d.archived + 1; failures = 0 }
count_outcome skipped d = d
count_outcome failed d = record d { failures = d.failures + 1 }

-- The jobs that are waited for at the end count only as archived.
unfoldable pub drain_outcome : JobOutcome → Drain → Drain
drain_outcome done d = record d { archived = d.archived + 1 }
drain_outcome _ d = d

-- The check at the top of the loop comes next.
unfoldable pub check_failures : Drain → Drain
check_failures d = record d { ended = leb max_consecutive_failures d.failures }

unfoldable pub settle : JobOutcome → Drain → Drain
settle o d = if d.ended then drain_outcome o d else check_failures (count_outcome o d)

-- The loop may also be left because the pressure is gone, or because nothing is left to do.
pub data DrainStep (workers : ℕ) (policy : OffloadPolicy) (d : Drain) : Drain → Type 0 where
  dispatches :
      (s : Seen) (e : Drain)
      → d.ended ≡ false
      → length d.in_flight < workers
      → dispatch policy s d ≡ some e
      → DrainStep workers policy d e
  finishes :
      (before after : List Job) (job : Job) (o : JobOutcome)
      → d.in_flight ≡ before ++ job ∷ after
      → DrainStep workers policy d (settle o (record d { in_flight = before ++ after }))
  stands_down : DrainStep workers policy d (record d { ended = true })

pub data DrainRun (workers : ℕ) (policy : OffloadPolicy) : Drain → Type 0 where
  starts : DrainRun workers policy start
  goes_on :
      {d e : Drain}
      → DrainStep workers policy d e
      → DrainRun workers policy d
      → DrainRun workers policy e
