-- ===== src/Store/Steps/Restart.antt =====
-- src/store.rs: what a restarted pooler finds, and what no order of the writes can undo.
use pg_fc.Base.{
  leb, any, Str, get-insert_self, get, ℕ, ◌+◌, ◌≤◌, ◌<◌, ◌≡◌, refl, ap, ◌∙◌, false, some, [], arith,
}
use pg_fc.Store.Atomic.{Disk, no_fault, write_atomic}
use pg_fc.Store.Format.{Tier, StoreRecord, parse, serialize}
use pg_fc.Store.Format.RoundTrip.{parse-serialize}
use pg_fc.Store.{
  Store, contents_or_empty, load, stamp, landed, marked, mark_tier, set_tier, write_latest,
  bound_ids, row_ids,
}
use pg_fc.Store.Steps.{World, Reach, at_start, extends}
use pg_fc.Store.Steps.Writes.{WritesInv, Step-WritesInv}
use pg_fc.Store.Steps.Bindings.{RowsInv, Step-RowsInv, bound_ids-eq-row_ids, mark_tier-RowsInv}

-- A pooler that has just started.
abbrev pub started : Disk → ℕ → World
started d now = record { store = load d now; queued = []; flushing = 0 }

started-WritesInv : (d : Disk) (now : ℕ) → WritesInv (started d now)
unfolding load
started-WritesInv d now = record {
  queued_le = tt;
  written_le = omega arith;
  newest = λ _ _. tt;
  on_disk = λ _ _ h _. absurd (omega arith);
}

Reach-WritesInv : {w u : World} → Reach w u → WritesInv w → WritesInv u
Reach-WritesInv at_start v = v
Reach-WritesInv (extends st r) v = Step-WritesInv st (Reach-WritesInv r v)

pub Reach-RowsInv : {w u : World} → Reach w u → RowsInv w.store → RowsInv u.store
Reach-RowsInv at_start v = v
Reach-RowsInv (extends st r) v = Step-RowsInv st (Reach-RowsInv r v)

load-serialize :
    (s : Store) (d : Disk) (later : ℕ)
    → RowsInv s
    → d.file ≡ some (serialize s.rows)
    → (load d later).rows ≡ s.rows
unfolding load
load-serialize s d later v e =
    ap (λ f. parse (contents_or_empty f) later) e
    ∙ parse-serialize s.rows later v.rows_fit v.distinct

-- From a start on well-formed rows (RowsInv), after any interleaving of checkouts, tier changes,
-- adoptions, reads, flushes and (possibly failing) writes: when nothing is dirty, no flush is half
-- done, and the newest generation has been written, a restart at any time loads exactly the rows
-- that the pooler held.
pub restart_rows :
    (d : Disk) (now : ℕ) (w : World)
    → RowsInv (load d now)
    → Reach (started d now) w
    → w.store.dirty ≡ false
    → w.flushing ≡ 0
    → 0 < w.store.written
    → w.store.written ≡ w.store.seq
    → (later : ℕ) → (load w.store.disk later).rows ≡ w.store.rows
restart_rows d now w v r clean idle any newest later =
    load-serialize w.store w.store.disk later (Reach-RowsInv r v)
      ((Reach-WritesInv r (started-WritesInv d now)).on_disk clean idle any newest)

-- In every state that is reached from a start on well-formed rows (RowsInv), `bound_ids` returns
-- the ids of the rows as they are, whether it finds them cached or not: a cached set is never
-- stale.
pub bound_ids_fresh :
    (d : Disk) (now : ℕ) (w : World)
    → RowsInv (load d now)
    → Reach (started d now) w
    → (bound_ids w.store).0 ≡ row_ids w.store.rows
bound_ids_fresh d now w v r = bound_ids-eq-row_ids w.store (Reach-RowsInv r v)

-- In a store with well-formed rows (RowsInv), a row for the schema, and no generation written that
-- is ahead of its counter: once `set_tier` has returned from a write that did not fail, the pooler
-- and a pooler restarted at any time from its disk both hold the schema's row with the new tier
-- and the same id and clock.
pub set_tier_durable :
    (schema : Str) (t : Tier) (s : Store) (r : StoreRecord) (later : ℕ)
    → RowsInv s
    → s.written ≤ s.seq
    → get schema s.rows ≡ some r
    → (get schema (set_tier no_fault schema t s).rows ≡ some (record r { tier = t }))
      × (get schema (load (set_tier no_fault schema t s).disk later).rows
          ≡ some (record r { tier = t }))
unfolding set_tier stamp marked landed write_atomic
set_tier_durable schema t s r later v b e =
    let s' = record (marked schema r t s) { seq = s.seq + 1 } in
    let marks : mark_tier schema t s ≡ some ((s.seq + 1, serialize s'.rows), s') =
      unfold mark_tier in rw (e, mark_tier) in
    let newer : leb (s.seq + 1) s.written ≡ false = ground arith in
    let held = get-insert_self schema (record r { tier = t }) s.rows in
    rw (marks, set_tier)
      (unfold write_latest in
        rw newer (
          held,
          rw
              (load-serialize s' (write_atomic no_fault (serialize s'.rows) s.disk).0 later
                (mark_tier-RowsInv schema t _ s marks v) refl)
              held,
        ))
