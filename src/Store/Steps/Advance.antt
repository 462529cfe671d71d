-- ===== src/Store/Steps/Advance.antt =====
-- src/store.rs: the file on the disk only moves forward.
use pg_fc.Base.{
  leb, Bool-cases, Str, ℕ, ◌<◌, ◌≡◌, refl, ◌⊎◌, inl, inr, Bool, true, false, some, arith,
}
use pg_fc.Store.Atomic.{Disk, Fault, write_atomic, write_atomic_lem}
use pg_fc.Store.Cases.{put_cases, touch_cases, mark_tier_inv}
use pg_fc.Store.{
  Store, Snapshot, landed, stamp, bumped, bind_row, marked, write_latest, put_new, take_dirty,
  snapshot_now, adopt_row, bound_ids,
}
use pg_fc.Store.Steps.{
  World, put_step, mark_step, flush_if, flush_step, flushing_step, Step, puts, touches, marks,
  adopts, reads, flushes, snapshots, writes, Reach, at_start, extends,
}

-- The file is the same, or a newer generation.
abbrev pub Advances : Store → Store → Type 0
Advances s t = ((t.written ≡ s.written) × (t.disk.file ≡ s.disk.file)) ⊎ (s.written < t.written)

Advances-trans : (s t u : Store) → Advances s t → Advances t u → Advances s u
Advances-trans s t u h k = ground arith

landed-Advances :
    (n : ℕ) (p : Disk × Bool) (contents : Str) (s : Store)
    → s.written < n
    → ((p.1 ≡ true) × (p.0.file ≡ some contents)) ⊎ ((p.1 ≡ false) × (p.0.file ≡ s.disk.file))
    → Advances s (landed n p s)
unfolding landed
landed-Advances n (d, true) contents s h e = inr h
landed-Advances n (d, false) contents s h (inl (e, _)) = cc
landed-Advances n (d, false) contents s h (inr (_, e)) = inl (refl, e)

write_latest-Advances :
    (f : Fault) (snap : Snapshot) (s : Store) → Advances s (write_latest f snap s)
unfolding write_latest
write_latest-Advances f (n, contents) s = elim (Bool-cases (leb n s.written)) [
  | inl old ↦ rw (old, write_latest) (inl (refl, refl))
  | inr newer ↦
      rw (newer, write_latest)
        (landed-Advances n (write_atomic f contents s.disk) contents s (ground arith)
          (write_atomic_lem f contents s.disk))
]

flush_if-Advances :
    (b : Bool) (w : World)
    → Advances w.store (flush_if b (record w.store { dirty = false }) w).store
unfolding flush_if
flush_if-Advances true w = inl (refl, refl)
flush_if-Advances false w = inl (refl, refl)

Step-Advances : {w u : World} → Step w u → Advances w.store u.store
unfolding put_step put_new stamp bumped bind_row mark_step marked flush_step take_dirty
    flushing_step snapshot_now adopt_row bound_ids
Step-Advances {w} (writes before after snap f e) = write_latest-Advances f snap w.store
Step-Advances {w} (puts schema id now _) =
    put_cases (λ p. Advances w.store p.1) schema id now w.store (inl (refl, refl))
      (λ r _ _. inl (refl, refl))
Step-Advances {w} (touches schema now _) =
    touch_cases (Advances w.store) schema now w.store (inl (refl, refl)) (λ r _. inl (refl, refl))
Step-Advances {w} (marks schema t m e) =
    let (r, g, p) = mark_tier_inv schema t w.store m e in rw p (inl (refl, refl))
Step-Advances {w} (adopts schema now _ _ _) = inl (refl, refl)
Step-Advances {w} reads = inl (ground arith, ground arith)
Step-Advances {w} flushes = flush_if-Advances w.store.dirty w
Step-Advances {w} (snapshots k _) = inl (refl, refl)

-- Whatever order the queued writes run in and whichever of them fail, the file never goes back to an
-- older generation: along every run the newest generation written grows or stays, and where it
-- stays the file stays as it is.
pub Reach-Advances : {w u : World} → Reach w u → Advances w.store u.store
Reach-Advances at_start = inl (refl, refl)
Reach-Advances (extends {w} {v} {u} st r) =
    Advances-trans w.store v.store u.store (Reach-Advances r) (Step-Advances st)
