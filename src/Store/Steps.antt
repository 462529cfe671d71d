-- ===== src/Store/Steps.antt =====
-- src/store.rs: the operations of concurrent tasks, in any order, and the writes that they leave to
-- the blocking pool, which run in any order too.
mod Writes
pub mod Bindings
pub mod Restart
pub mod Advance
use pg_fc.Base.{
  Str, ℕ, suc, ◌+◌, ◌≤◌, ◌≡◌, ◌≢◌, Bool, true, false, Option, none, some, List, [], ◌∷◌, ◌++◌,
}
use pg_fc.Text.{IsClean, u64_max}
use pg_fc.Store.Format.{Tier, live}
use pg_fc.Store.Format.RoundTrip.{IsRow}
use pg_fc.Store.Atomic.{Fault}
use pg_fc.Store.{
  Store, Snapshot, put, touch, mark_tier, adopt_row, write_latest, bound_ids, take_dirty,
  snapshot_now,
}

-- `queued` holds the writes that have been handed over and not run, `flushing` counts the flushes
-- that have taken the flag and not yet made their snapshot.
pub record World : Type 0 where
  pub store : Store
  pub queued : List Snapshot
  pub flushing : ℕ

unfoldable pub queue : Option Snapshot → List Snapshot → List Snapshot
queue none q = q
queue (some snap) q = snap ∷ q

unfoldable pub put_step : Str → Str → ℕ → World → World
unfolding queue
put_step schema id now w =
    let (snap, s) = put schema id now w.store in
    record w { store = s; queued = queue snap w.queued }

pub mark_step : Snapshot × Store → World → World
mark_step (snap, s) w = record w { store = s; queued = snap ∷ w.queued }

flush_if : Bool → Store → World → World
flush_if true s w = record w { store = s; flushing = w.flushing + 1 }
flush_if false s w = w

pub flush_step : World → World
flush_step w = let (owed, s) = take_dirty w.store in flush_if owed s w

pub flushing_step : ℕ → World → World
unfolding mark_step
flushing_step k w = record (mark_step (snapshot_now w.store) w) { flushing = k }

pub data Step (w : World) : World → Type 0 where
  puts :
      (schema id : Str) (now : ℕ)
      → IsRow schema (record { sandbox_id = id; last_active = now; tier = live })
      → Step w (put_step schema id now w)
  touches :
      (schema : Str) (now : ℕ)
      → now ≤ u64_max
      → Step w (record w { store = touch schema now w.store })
  marks :
      (schema : Str) (t : Tier) (m : Snapshot × Store)
      → mark_tier schema t w.store ≡ some m
      → Step w (mark_step m w)
  adopts :
      (schema : Str) (now : ℕ)
      → IsClean schema
      → schema ≢ []
      → now ≤ u64_max
      → Step w (mark_step (adopt_row schema now w.store) w)
  reads : Step w (record w { store = (bound_ids w.store).1 })
  flushes : Step w (flush_step w)
  snapshots : (k : ℕ) → w.flushing ≡ suc k → Step w (flushing_step k w)
  writes :
      (before after : List Snapshot) (snap : Snapshot) (f : Fault)
      → w.queued ≡ before ++ snap ∷ after
      → Step w (record w { store = write_latest f snap w.store; queued = before ++ after })

-- Runs, the last step in front.
pub data Reach : World → World → Type 0 where
  at_start : {w : World} → Reach w w
  extends : {w v u : World} → Step v u → Reach w v → Reach w u
