-- ===== src/Store/Steps/Writes.antt =====
-- src/store.rs: what holds of the generations, the file and the writes under way.
use pg_fc.Base.{
  leb, Bool-cases, Option-cases, All, All-middle, All-map, Str, ℕ, ◌+◌, ◌≤◌, ◌<◌, ◌≡◌, refl, ap,
  ◌∙◌, ◌⊎◌, inl, inr, Bool, true, false, some, List, ◌∷◌, ◌++◌, arith,
}
use pg_fc.Store.Format.{Tier, serialize}
use pg_fc.Store.Atomic.{Fault, write_atomic, write_atomic_lem}
use pg_fc.Store.Cases.{put_cases, touch_cases, mark_tier_inv}
use pg_fc.Store.{
  Store, Snapshot, put_new, touch, mark_tier, adopt_row, write_latest, bound_ids, take_dirty,
  snapshot_now, stamp, bind_row, bumped, marked, landed, Disk,
}
use pg_fc.Store.Steps.{
  World, queue, put_step, mark_step, flush_step, flushing_step, Step, puts, touches, marks, adopts,
  reads, flushes, snapshots, writes, flush_if,
}

-- The writes: no generation is ahead of the counter; and while nothing is owed, the newest
-- generation is the present map, in the queue as on the disk.
pub record WritesInv (w : World) : Type 0 where
  pub queued_le : All (λ (q : Snapshot). q.0 ≤ w.store.seq) w.queued
  pub written_le : w.store.written ≤ w.store.seq
  pub newest :
      w.store.dirty ≡ false
      → w.flushing ≡ 0
      → All (λ (q : Snapshot). q.0 ≡ w.store.seq → q.1 ≡ serialize w.store.rows) w.queued
  pub on_disk :
      w.store.dirty ≡ false
      → w.flushing ≡ 0
      → 0 < w.store.written
      → w.store.written ≡ w.store.seq
      → w.store.disk.file ≡ some (serialize w.store.rows)

-- A store that differs from `s` in its rows, with their snapshot as one more generation.
record Stamps (s : Store) (m : Snapshot × Store) : Type 0 where
  next_seq : m.1.seq ≡ s.seq + 1
  same_written : m.1.written ≡ s.written
  snapshot_of : m.0 ≡ (m.1.seq, serialize m.1.rows)

Stamps-WritesInv :
    (w : World) (m : Snapshot × Store) (k : ℕ)
    → WritesInv w
    → Stamps w.store m
    → WritesInv (record { store = m.1; queued = m.0 ∷ w.queued; flushing = k })
Stamps-WritesInv w m k v e = record {
  queued_le = (
    ground (arith, e.snapshot_of),
    All-map (λ q. q.0 ≤ w.store.seq) (λ q. q.0 ≤ m.1.seq) w.queued
        (λ q h. omega (arith, e.next_seq)) v.queued_le,
  );
  written_le = omega (arith, e.next_seq, e.same_written, v.written_le);
  newest = λ _ _. (
    λ _. ap (λ (q : Snapshot). q.1) e.snapshot_of,
    All-map (λ q. q.0 ≤ w.store.seq) (λ q. q.0 ≡ m.1.seq → q.1 ≡ serialize m.1.rows) w.queued
        (λ q h p. absurd (omega (arith, e.next_seq))) v.queued_le,
  );
  on_disk = λ _ _ _ p. absurd (omega (arith, e.next_seq, e.same_written, v.written_le));
}

-- A store that owes a write.
Owes-WritesInv :
    (w : World) (s : Store)
    → WritesInv w
    → s.seq ≡ w.store.seq
    → s.written ≡ w.store.written
    → s.dirty ≡ true
    → WritesInv (record w { store = s })
Owes-WritesInv w s v e f d = record {
  queued_le = rw e v.queued_le;
  written_le = omega (arith, v.written_le);
  newest = λ p. cc;
  on_disk = λ p. cc;
}

stamp-Stamps : (s t : Store) → t.seq ≡ s.seq → t.written ≡ s.written → Stamps s (stamp t)
unfolding stamp
stamp-Stamps s t e f = record { next_seq = ap (λ n. n + 1) e; same_written = f; snapshot_of = refl }

put_step-WritesInv :
    (schema id : Str) (now : ℕ) (w : World) → WritesInv w → WritesInv (put_step schema id now w)
unfolding put_step queue put_new bind_row bumped
put_step-WritesInv schema id now w v =
    put_cases (λ p. WritesInv (record w { store = p.1; queued = queue p.0 w.queued })) schema id now
      w.store (Stamps-WritesInv w _ w.flushing v (stamp-Stamps w.store _ refl refl))
      λ r _ _. Owes-WritesInv w (bumped schema r now w.store) v refl refl refl

touch-WritesInv :
    (schema : Str) (now : ℕ) (w : World)
    → WritesInv w
    → WritesInv (record w { store = touch schema now w.store })
unfolding bumped
touch-WritesInv schema now w v =
    touch_cases (λ s. WritesInv (record w { store = s })) schema now w.store v
      λ r _. Owes-WritesInv w (bumped schema r now w.store) v refl refl refl

mark_step-WritesInv :
    (schema : Str) (t : Tier) (m : Snapshot × Store) (w : World)
    → mark_tier schema t w.store ≡ some m
    → WritesInv w
    → WritesInv (mark_step m w)
unfolding mark_step marked
mark_step-WritesInv schema t m w e v =
    let (r, g, p) = mark_tier_inv schema t w.store m e in
    Stamps-WritesInv w m w.flushing v
      (rw p (stamp-Stamps w.store (marked schema r t w.store) refl refl))

adopt_step-WritesInv :
    (schema : Str) (now : ℕ) (w : World)
    → WritesInv w
    → WritesInv (mark_step (adopt_row schema now w.store) w)
unfolding mark_step adopt_row bind_row
adopt_step-WritesInv schema now w v =
    Stamps-WritesInv w (adopt_row schema now w.store) w.flushing v
      (stamp-Stamps w.store _ refl refl)

bound_ids-WritesInv :
    (w : World) → WritesInv w → WritesInv (record w { store = (bound_ids w.store).1 })
unfolding bound_ids
bound_ids-WritesInv w v = elim (Option-cases w.store.bound_cache) [
  | inl e ↦
      rw (e, bound_ids)
        (record {
          queued_le = v.queued_le;
          written_le = v.written_le;
          newest = v.newest;
          on_disk = v.on_disk;
        })
  | inr (ids, e) ↦ rw (e, bound_ids) v
]

flush_if-WritesInv :
    (b : Bool) (w : World)
    → WritesInv w
    → WritesInv (flush_if b (record w.store { dirty = false }) w)
unfolding flush_if
flush_if-WritesInv true w v = record {
  queued_le = v.queued_le;
  written_le = v.written_le;
  newest = λ _ p. absurd (omega arith);
  on_disk = λ _ p. absurd (omega arith);
}
flush_if-WritesInv false w v = v

flush_step-WritesInv : (w : World) → WritesInv w → WritesInv (flush_step w)
unfolding flush_step take_dirty
flush_step-WritesInv w v = flush_if-WritesInv w.store.dirty w v

flushing_step-WritesInv : (k : ℕ) (w : World) → WritesInv w → WritesInv (flushing_step k w)
unfolding flushing_step mark_step snapshot_now
flushing_step-WritesInv k w v =
    Stamps-WritesInv w (snapshot_now w.store) k v (stamp-Stamps w.store w.store refl refl)

-- A queued write that is not dropped: it fails and changes no file, or it is the newest file.
module _ (before after : List Snapshot) (n : ℕ) (contents : Str) (f : Fault) (w : World)
    (v : WritesInv w) (split_at : w.queued ≡ before ++ (n, contents) ∷ after) where
  Taken : World
  Taken = record w { queued = before ++ after }

  Taken-WritesInv : WritesInv Taken
  unfolding Taken
  Taken-WritesInv = record {
    queued_le =
        (All-middle (λ q. q.0 ≤ w.store.seq) before (n, contents) after
          (rw split_at at v.queued_le)).1;
    written_le = v.written_le;
    newest = λ d g.
        (All-middle (λ q. q.0 ≡ w.store.seq → q.1 ≡ serialize w.store.rows) before (n, contents)
          after (rw split_at at (v.newest d g))).1;
    on_disk = v.on_disk;
  }

  landed-WritesInv :
      (p : Disk × Bool)
      → ((p.1 ≡ true) × (p.0.file ≡ some contents))
        ⊎ ((p.1 ≡ false) × (p.0.file ≡ w.store.disk.file))
      → WritesInv (record w { store = landed n p w.store; queued = before ++ after })
  unfolding landed Taken
  landed-WritesInv (d, true) (inl (_, e)) = record {
    queued_le = t.queued_le;
    written_le =
        (All-middle (λ q. q.0 ≤ w.store.seq) before (n, contents) after
          (rw split_at at v.queued_le)).0;
    newest = t.newest;
    on_disk = λ r g _ p.
        e
        ∙ ap some (
            (All-middle (λ q. q.0 ≡ w.store.seq → q.1 ≡ serialize w.store.rows) before (n, contents)
                after (rw split_at at (v.newest r g))).0
              p);
  }
    where
      t : WritesInv Taken
      t = Taken-WritesInv
  landed-WritesInv (d, true) (inr (e, _)) = cc
  landed-WritesInv (d, false) (inl (e, _)) = cc
  landed-WritesInv (d, false) (inr (_, e)) = record {
    queued_le = t.queued_le;
    written_le = t.written_le;
    newest = t.newest;
    on_disk = λ r g h p. e ∙ v.on_disk r g h p;
  }
    where
      t : WritesInv Taken
      t = Taken-WritesInv

write_step-WritesInv :
    (before after : List Snapshot) (snap : Snapshot) (f : Fault) (w : World)
    → w.queued ≡ before ++ snap ∷ after
    → WritesInv w
    → WritesInv (record w { store = write_latest f snap w.store; queued = before ++ after })
unfolding write_latest Taken
write_step-WritesInv before after (n, contents) f w e v =
    elim (Bool-cases (leb n w.store.written)) [
      | inl old ↦ rw (old, write_latest) (Taken-WritesInv before after n contents f w v e)
      | inr newer ↦
          rw (newer, write_latest)
            (landed-WritesInv before after n contents f w v e (write_atomic f contents w.store.disk)
              (write_atomic_lem f contents w.store.disk))
    ]

pub Step-WritesInv : {w u : World} → Step w u → WritesInv w → WritesInv u
Step-WritesInv {w} (puts schema id now _) v = put_step-WritesInv schema id now w v
Step-WritesInv {w} (touches schema now _) v = touch-WritesInv schema now w v
Step-WritesInv {w} (marks schema t m e) v = mark_step-WritesInv schema t m w e v
Step-WritesInv {w} (adopts schema now _ _ _) v = adopt_step-WritesInv schema now w v
Step-WritesInv {w} reads v = bound_ids-WritesInv w v
Step-WritesInv {w} flushes v = flush_step-WritesInv w v
Step-WritesInv {w} (snapshots k _) v = flushing_step-WritesInv k w v
Step-WritesInv {w} (writes before after snap f e) v = write_step-WritesInv before after snap f w e v
