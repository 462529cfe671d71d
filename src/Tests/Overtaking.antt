-- ===== src/Tests/Overtaking.antt =====
-- A checkout and an archiving side by side, src/registry.rs, at a fixed version.
use pg_fc.Base.{◌≡◌, refl, true, false, some}
use pg_fc.Tiering.Overtaking.{
  passed, booting, ready, finished, evicted, dumped, marked, starting, warm, Race, refuses, filled,
  RaceRun, at_start, and_then, evicts, dumps, marks, kills, looks, inserts, restores, commits,
  IsLost, LosesCommit, commit_overtaken,
}
use pg_fc.Tiering.Overtaking.Waiting.{claimed_at, claimed_run-Keeps}

commit_overtaken_example : LosesCommit 7
commit_overtaken_example = commit_overtaken 7

abbrev marked_at : Race
marked_at = record (claimed_at 7) { archiver = marked; dump = some 7; archived = true }

abbrev killed_at : Race
killed_at = record marked_at { archiver = finished; killed = true; claimed = false }

killed_at-RaceRun : RaceRun (claimed_at 7) killed_at
unfolding refuses
killed_at-RaceRun = and_then {r = marked_at} (kills refl) (
    and_then {r = record (claimed_at 7) { archiver = dumped; dump = some 7 }} (marks refl) (
      and_then {r = record (claimed_at 7) { archiver = evicted }} (dumps refl)
        (and_then {r = claimed_at 7} (evicts refl refl) at_start)))

-- The client comes back behind the kill, and commits on what it has restored.
abbrev restored_at : Race
restored_at = record killed_at {
  client = ready;
  cell = warm;
  sessions = 1;
  version = 7;
  archived = false;
  killed = false;
}

abbrev back_at : Race
back_at = record restored_at { version = 8 }

back_at-RaceRun : RaceRun (claimed_at 7) back_at
unfolding filled
back_at-RaceRun = and_then {r = restored_at} (commits refl refl) (
    and_then {r = record killed_at { client = booting; cell = starting }}
      (restores 7 refl refl refl refl)
      (and_then {r = record killed_at { client = passed }} (inserts refl refl)
        (and_then {r = killed_at} (looks refl refl) killed_at-RaceRun)))

claimed_run-Keeps_example : (back_at.killed ≡ true → back_at.dump ≡ some 8) × ¬ IsLost back_at
claimed_run-Keeps_example = claimed_run-Keeps 7 back_at back_at-RaceRun
