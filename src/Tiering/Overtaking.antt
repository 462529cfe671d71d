-- ===== src/Tiering/Overtaking.antt =====
-- src/registry.rs: one cold start of `checkout` and one `archive_schema_inner` of the same live schema, side
-- by side. `checkout` looks at the claims before it takes the lock of the map; an archiving takes its
-- claim and then, under that lock, refuses only an entry that is there and has sessions. A bring-up or a
-- dump that fails stops the VM and gives the claim back, its disk kept; a client that comes behind the kill
-- restores the dump. The image fallback of a failed dump is off.

pub mod Waiting
use pg_fc.Base.{ltb, ℕ, ◌+◌, ◌-◌, ◌<◌, ◌≡◌, refl, Bool, true, false, Option, none, some, arith}

-- Where the client's task is.
pub data Client : Type 0 where
  looking passed booting ready : Client

-- Where the archiving is.
pub data Archiver : Type 0 where
  idle claims evicted dumped marked finished refused : Archiver

-- The schema's cell in the map: none, one whose bring-up is in flight, one with an entry.
pub data Cell : Type 0 where
  absent starting warm : Cell

-- `version` is what the VM's disk holds, `dump` what S3 has; `sessions` counts the entry's clients.
pub record Race : Type 0 where
  pub client : Client
  pub archiver : Archiver
  pub claimed : Bool
  pub cell : Cell
  pub sessions : ℕ
  pub version : ℕ
  pub dump : Option ℕ
  pub archived : Bool
  pub killed : Bool

-- A schema whose VM is stopped.
abbrev pub at_rest : ℕ → Race
at_rest v = record {
  client = looking;
  archiver = idle;
  claimed = false;
  cell = absent;
  sessions = 0;
  version = v;
  dump = none;
  archived = false;
  killed = false;
}

-- The entry with sessions that an archiving refuses.
unfoldable pub refuses : Cell → ℕ → Bool
refuses warm sessions = ltb 0 sessions
refuses _ sessions = false

-- The bring-up fills its own cell, which may have been taken out of the map.
unfoldable pub filled : Cell → Cell
filled starting = warm
filled c = c

-- A client that had a session of a VM that is stopped.
unfoldable pub dropped : Client → Client
dropped ready = looking
dropped c = c

pub data RaceStep (r : Race) : Race → Type 0 where
  looks : r.client ≡ looking → r.claimed ≡ false → RaceStep r (record r { client = passed })
  inserts :
      r.client ≡ passed
      → r.cell ≡ absent
      → RaceStep r (record r { client = booting; cell = starting })
  serves :
      r.client ≡ booting
      → r.killed ≡ false
      → RaceStep r (record r { client = ready; cell = filled r.cell; sessions = r.sessions + 1 })
  rejoins :
      r.client ≡ passed
      → r.cell ≡ warm
      → r.killed ≡ false
      → RaceStep r (record r { client = ready; sessions = r.sessions + 1 })
  finds_dead :
      r.client ≡ passed
      → r.cell ≡ warm
      → RaceStep r (record r { client = looking; cell = absent; sessions = 0 })
  restores :
      (stored : ℕ)
      → r.client ≡ booting
      → r.killed ≡ true
      → r.archived ≡ true
      → r.dump ≡ some stored
      → RaceStep r (record r {
        client = ready;
        cell = filled r.cell;
        sessions = r.sessions + 1;
        version = stored;
        archived = false;
        killed = false;
      })
  leaves : r.client ≡ ready → RaceStep r (record r { client = looking; sessions = r.sessions - 1 })
  commits : r.client ≡ ready → r.killed ≡ false → RaceStep r (record r { version = r.version + 1 })
  takes_claim :
      r.archiver ≡ idle
      → r.claimed ≡ false
      → RaceStep r (record r { archiver = claims; claimed = true })
  evicts :
      r.archiver ≡ claims
      → refuses r.cell r.sessions ≡ false
      → RaceStep r (record r { archiver = evicted; cell = absent })
  gives_up :
      r.archiver ≡ claims
      → refuses r.cell r.sessions ≡ true
      → RaceStep r (record r { archiver = refused; claimed = false })
  fails_to_dump :
      r.archiver ≡ evicted
      → RaceStep r (record r {
        archiver = refused;
        claimed = false;
        client = dropped r.client;
        sessions = 0;
      })
  dumps : r.archiver ≡ evicted → RaceStep r (record r { archiver = dumped; dump = some r.version })
  marks : r.archiver ≡ dumped → RaceStep r (record r { archiver = marked; archived = true })
  kills :
      r.archiver ≡ marked
      → RaceStep r (record r { archiver = finished; killed = true; claimed = false })

pub data RaceRun (start : Race) : Race → Type 0 where
  at_start : RaceRun start start
  and_then : {r s : Race} → RaceStep r s → RaceRun start r → RaceRun start s

-- What a connect finds afterwards is behind what a client has committed.
pub record IsLost (r : Race) : Type 0 where
  pub gone : r.killed ≡ true
  pub marked_archived : r.archived ≡ true
  pub stored : ℕ
  pub in_s3 : r.dump ≡ some stored
  pub behind : stored < r.version

-- The bring-up is in flight when the archiving evicts; the client is served, and commits between
-- the dump and the kill.
module _ (v : ℕ) where
  abbrev started : Race
  started = record (at_rest v) { client = booting; cell = starting }

  abbrev overtaken : Race
  overtaken = record started { archiver = dumped; claimed = true; cell = absent; dump = some v }

  abbrev committed : Race
  committed = record overtaken { client = ready; sessions = 1; version = v + 1 }

  started-RaceRun : RaceRun (at_rest v) started
  started-RaceRun =
      and_then {r = record (at_rest v) { client = passed }} (inserts refl refl)
        (and_then {r = at_rest v} (looks refl refl) at_start)

  overtaken-RaceRun : RaceRun (at_rest v) overtaken
  unfolding refuses
  overtaken-RaceRun =
      and_then {r = record started { archiver = evicted; claimed = true; cell = absent }}
        (dumps refl)
        (and_then {r = record started { archiver = claims; claimed = true }} (evicts refl refl)
          (and_then {r = started} (takes_claim refl refl) started-RaceRun))

  committed-RaceRun : RaceRun (at_rest v) committed
  unfolding filled
  committed-RaceRun =
      and_then {r = record overtaken { client = ready; sessions = 1 }} (commits refl refl)
        (and_then {r = overtaken} (serves refl refl) overtaken-RaceRun)

-- A run from rest to a lost commit.
abbrev pub LosesCommit : ℕ → Type 0
LosesCommit v = (r : Race) × RaceRun (at_rest v) r × IsLost r

-- An archiving does not see a bring-up that is in flight: from any version of a schema at rest there is a
-- run in which a client is served and commits, and the VM is killed with an older version in S3.
pub commit_overtaken : (v : ℕ) → LosesCommit v
commit_overtaken v = (
  record (committed v) { archiver = finished; archived = true; killed = true; claimed = false },
  and_then {r = record (committed v) { archiver = marked; archived = true }} (kills refl)
      (and_then {r = committed v} (marks refl) (committed-RaceRun v)),
  record { gone = refl; marked_archived = refl; stored = v; in_s3 = refl; behind = omega arith },
)
