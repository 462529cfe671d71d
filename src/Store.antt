-- ===== src/Store.antt =====
-- src/store.rs: the registry of schemas, its in-memory operations and its writes.
-- `now` is the reading of the clock that an operation makes; the generation counter does not wrap.
pub mod Format
pub mod Atomic
mod Rows
mod Cases
pub mod Steps
pub mod Locks
use pg_fc.Base.{
  leb, if◌then◌else◌, Str, str, str_eq, Map, get, insert, ℕ, ◌+◌, Bool, true, false, ◌&&◌, Option,
  none, some, List, [], ◌∷◌, ◌++◌,
}
use pg_fc.Store.Format.{Tier, live, archived, StoreRecord, is_live, parse, serialize}
use pg_fc.Store.Atomic.{Disk, Fault, write_atomic}

-- A serialized map with its generation.
abbrev pub Snapshot : Type 0
Snapshot = ℕ × Str

pub record Store : Type 0 where
  pub rows : Map StoreRecord
  pub seq : ℕ
  pub written : ℕ
  pub dirty : Bool
  pub bound_cache : Option (List Str)
  pub disk : Disk

abbrev pub contents_or_empty : Option Str → Str
contents_or_empty none = []
contents_or_empty (some s) = s

unfoldable pub load : Disk → ℕ → Store
load d now = record {
  rows = parse (contents_or_empty d.file) now;
  seq = 0;
  written = 0;
  dirty = false;
  bound_cache = none;
  disk = d;
}

-- `stamp(serialize(&map))`, under the lock of the map.
unfoldable pub stamp : Store → Snapshot × Store
stamp s = ((s.seq + 1, serialize s.rows), record s { seq = s.seq + 1 })

abbrev pub record_of : Store → Str → Option StoreRecord
record_of s schema = get schema s.rows

unfoldable pub bind_row : Str → StoreRecord → Store → Store
bind_row schema r s = record s { rows = insert schema r s.rows; bound_cache = none }

-- The snapshot is the one that `write_detached` is given.
unfoldable pub put_new : Str → Str → ℕ → Store → Option Snapshot × Store
put_new schema id now s =
    let (snap, s') =
      stamp (bind_row schema (record { sandbox_id = id; last_active = now; tier = live }) s) in
    (some snap, s')

-- An activity bump: no snapshot, and the flush loop owes a write.
unfoldable pub bumped : Str → StoreRecord → ℕ → Store → Store
bumped schema r now s = record s {
  rows = insert schema (record r { last_active = now }) s.rows;
  dirty = true;
}

unfoldable pub put_known : StoreRecord → Str → Str → ℕ → Store → Option Snapshot × Store
put_known r schema id now s =
    if str_eq r.sandbox_id id && is_live r.tier
    then (none, bumped schema r now s)
    else put_new schema id now s

unfoldable pub put : Str → Str → ℕ → Store → Option Snapshot × Store
put schema id now s = elim (get schema s.rows) [
  | none ↦ put_new schema id now s
  | some r ↦ put_known r schema id now s
]

pub touch : Str → ℕ → Store → Store
touch schema now s = elim (get schema s.rows) [ none ↦ s | some r ↦ bumped schema r now s ]

pub marked : Str → StoreRecord → Tier → Store → Store
marked schema r t s = record s { rows = insert schema (record r { tier = t }) s.rows }

-- The part of `set_tier` under the lock; `none` is its early return on a missing row.
pub mark_tier : Str → Tier → Store → Option (Snapshot × Store)
mark_tier schema t s = elim (get schema s.rows) [
  | none ↦ none
  | some r ↦ some (stamp (marked schema r t s))
]

abbrev adopted_id : Str → Str
adopted_id schema = str "pending-restore-" ++ schema

adopted_row : Option StoreRecord → Str → ℕ → StoreRecord
adopted_row none schema now = record {
  sandbox_id = adopted_id schema;
  last_active = now;
  tier = archived;
}
adopted_row (some r) schema now = record r { tier = archived }

-- The part of `adopt_archived` under the lock; the record is the one that was replaced.
pub adopt_row : Str → ℕ → Store → Snapshot × Store
adopt_row schema now s = stamp (bind_row schema (adopted_row (get schema s.rows) schema now) s)

-- The generation is recorded on success only.
unfoldable pub landed : ℕ → Disk × Bool → Store → Store
landed n (d, ok) s = record s { disk = d; written = if ok then n else s.written }

-- `write_latest`: a generation that is not newer than the newest written is dropped.
unfoldable pub write_latest : Fault → Snapshot → Store → Store
write_latest f (n, contents) s =
    if leb n s.written then s else landed n (write_atomic f contents s.disk) s

-- Both wait for their own write.
pub set_tier : Fault → Str → Tier → Store → Store
set_tier f schema t s = elim (mark_tier schema t s) [
  | none ↦ s
  | some (snap, s') ↦ write_latest f snap s'
]

pub adopt_archived : Fault → Str → ℕ → Store → Option StoreRecord × Store
adopt_archived f schema now s =
    let (snap, s') = adopt_row schema now s in (get schema s.rows, write_latest f snap s')

-- Every bound id, in the order of the rows.
pub row_ids : Map StoreRecord → List Str
row_ids [] = []
row_ids ((k, r) ∷ m) = r.sandbox_id ∷ row_ids m

pub bound_ids : Store → List Str × Store
bound_ids s = elim s.bound_cache [
  | some ids ↦ (ids, s)
  | none ↦ (row_ids s.rows, record s { bound_cache = some (row_ids s.rows) })
]

-- `flush_dirty` takes the flag first and the lock of the map later: two steps.
pub take_dirty : Store → Bool × Store
take_dirty s = (s.dirty, record s { dirty = false })

pub snapshot_now : Store → Snapshot × Store
snapshot_now s = stamp s

-- `flush_dirty` with nothing in between.
pub flush_dirty : Store → Option Snapshot × Store
flush_dirty s =
    let (owed, s') = take_dirty s in
    if owed then (let (snap, t) = snapshot_now s' in (some snap, t)) else (none, s')
