-- ===== src/Janitors/Orphans/Guards.antt =====
-- src/registry.rs: no sweep removes a disk that anything depends on.
use pg_fc.Base.{
  leb, if◌then◌else◌, Bool-cases, length, take, All, All-take, Str, Map, get, ℕ, zero, suc, ◌+◌,
  ◌≤◌, ◌≡◌, refl, ◌≢◌, inl, inr, Bool, true, false, not, ◌&&◌, Option, none, some, List, [], ◌∷◌,
  arith,
}
use pg_fc.Store.Format.{StoreRecord, Tier, live, compacted, frozen, archived, is_live}
use pg_fc.Offload.Targets.{DaemonState, present, gone, unanswered, daemon_error_run}
use pg_fc.Janitors.Orphans.{
  too_new, DiskDir, is_candidate, candidates, tier_by_id, Found, nothing_found, found_gone,
  found_present, classify, is_gone, is_stopped, reclaim, prune, sweep_found, sweep_orphans,
  max_deletes_per_sweep, max_rootfs_prunes_per_sweep, max_daemon_errors,
}
use pg_fc.Janitors.Orphans.Rows.{IsLeft, tier_by_id-none, not_live-IsLeft}

-- A directory that is old or whose age cannot be read, that nothing holds open, and whose VM the daemon
-- does not know; no row names its VM, or a row that is not live does.
pub record IsOrphan (rows : Map StoreRecord) (d : DiskDir) : Type 0 where
  pub old : too_new d.age ≡ false
  pub unheld : d.held ≡ false
  pub forgotten : d.state ≡ gone
  pub left : IsLeft rows d.id

-- A directory of a VM that is not running, with an old rootfs copy.
pub record IsStale (d : DiskDir) : Type 0 where
  pub old : too_new d.age ≡ false
  pub unheld : d.held ≡ false
  pub stopped : d.state ≡ present false
  pub rootfs_old : d.rootfs_old ≡ true

abbrev pub FoundWell : Map StoreRecord → Found → Type 0
FoundWell rows f = All (IsOrphan rows) f.deletable × All IsStale f.stale_rootfs

is_live-false : (t : Tier) → is_live t ≡ false → t ≢ live
unfolding is_live
is_live-false live l e = cc
is_live-false compacted l e = cc
is_live-false frozen l e = cc
is_live-false archived l e = cc

found_gone-FoundWell :
    (rows : Map StoreRecord) (o : Option (Str × Tier)) (d : DiskDir) (f : Found)
    → get d.id (tier_by_id rows []) ≡ o
    → too_new d.age ≡ false
    → d.held ≡ false
    → d.state ≡ gone
    → FoundWell rows f
    → FoundWell rows (found_gone o d f)
unfolding found_gone
found_gone-FoundWell rows none d f e a h g w = (
  (
    record { old = a; unheld = h; forgotten = g; left = inl (tier_by_id-none rows [] d.id e).0 },
    w.0,
  ),
  w.1,
)
found_gone-FoundWell rows (some (schema, t)) d f e a h g w = elim (Bool-cases (is_live t)) [
  | inl l ↦ rw (l, found_gone) w
  | inr l ↦
      rw (l, found_gone)
        (
          (
            record {
              old = a;
              unheld = h;
              forgotten = g;
              left = not_live-IsLeft rows d.id schema t e (is_live-false t l);
            },
            w.0,
          ),
          w.1,
        )
]

found_present-FoundWell :
    (rows : Map StoreRecord) (running : Bool) (d : DiskDir) (f : Found)
    → too_new d.age ≡ false
    → d.held ≡ false
    → d.state ≡ present running
    → FoundWell rows f
    → FoundWell rows (found_present running d f)
unfolding found_present
found_present-FoundWell rows true d f a h g w = w
found_present-FoundWell rows false d f a h g w = elim (Bool-cases d.rootfs_old) [
  | inl r ↦
      rw (r, found_present)
        (w.0, (record { old = a; unheld = h; stopped = g; rootfs_old = refl }, w.1))
  | inr r ↦ rw (r, found_present) w
]

abbrev pub AllOld : List DiskDir → Type 0
AllOld ds = All (λ d. too_new d.age ≡ false) ds

by_state-FoundWell :
    (rows : Map StoreRecord) (errs : ℕ) (s : DaemonState) (d : DiskDir) (rest : Found)
    → too_new d.age ≡ false
    → d.held ≡ false
    → d.state ≡ s
    → FoundWell rows rest
    → FoundWell rows (elim s [
      | present running ↦ found_present running d rest
      | unanswered ↦ if leb max_daemon_errors (errs + 1) then nothing_found else rest
      | gone ↦ found_gone (get d.id (tier_by_id rows [])) d rest
    ])
by_state-FoundWell rows errs (present running) d rest a h e w =
    found_present-FoundWell rows running d rest a h e w
by_state-FoundWell rows errs gone d rest a h e w =
    found_gone-FoundWell rows (get d.id (tier_by_id rows [])) d rest refl a h e w
by_state-FoundWell rows errs unanswered d rest a h e w =
    elim (Bool-cases (leb max_daemon_errors (errs + 1))) [ inl l ↦ rw l (tt, tt) | inr l ↦ rw l w ]

classify-FoundWell :
    (rows : Map StoreRecord) (errs : ℕ) (ds : List DiskDir)
    → AllOld ds
    → FoundWell rows (classify (tier_by_id rows []) errs ds)
unfolding classify
classify-FoundWell rows errs [] a = (tt, tt)
classify-FoundWell rows errs (d ∷ ds) a = elim (Bool-cases d.held) [
  | inl h ↦ rw (h, classify) (classify-FoundWell rows errs ds a.1)
  | inr h ↦
      rw (h, classify)
        (by_state-FoundWell rows errs d.state d _ a.0 h refl
          (classify-FoundWell rows (daemon_error_run errs d.state) ds a.1))
]

candidates-AllOld : (ds : List DiskDir) → AllOld (candidates ds)
unfolding candidates is_candidate
candidates-AllOld [] = tt
candidates-AllOld (d ∷ ds) = elim (Bool-cases (is_candidate d)) [
  | inl c ↦ rw (c, candidates) (ground (arith, c), candidates-AllOld ds)
  | inr c ↦ rw (c, candidates) (candidates-AllOld ds)
]

is_gone-gone : (s : DaemonState) → is_gone s ≡ true → s ≡ gone
is_gone-gone gone e = refl
is_gone-gone (present x) e = cc
is_gone-gone unanswered e = cc

is_stopped-present : (s : DaemonState) → is_stopped s ≡ true → s ≡ present false
is_stopped-present gone e = cc
is_stopped-present (present true) e = cc
is_stopped-present (present false) e = refl
is_stopped-present unanswered e = cc

length-reclaim : (n : ℕ) (ds : List DiskDir) → length (reclaim (take n ds)) ≤ n
unfolding reclaim
length-reclaim zero ds = omega arith
length-reclaim (suc n) [] = omega arith
length-reclaim (suc n) (d ∷ ds) = ground (arith, length-reclaim n ds)

reclaim-gone :
    (P : DiskDir → Type 0) (ds : List DiskDir)
    → All P ds
    → All (λ d. P d × (d.held_again ≡ false) × (d.state_again ≡ gone)) (reclaim ds)
unfolding reclaim
reclaim-gone P [] a = tt
reclaim-gone P (d ∷ ds) a = elim (Bool-cases (not d.held_again && is_gone d.state_again)) [
  | inl c ↦
      rw (c, reclaim)
        (
          (a.0, ground (arith, c), is_gone-gone d.state_again (ground (arith, c))),
          reclaim-gone P ds a.1,
        )
  | inr c ↦ rw (c, reclaim) (reclaim-gone P ds a.1)
]

prune-stopped :
    (P : DiskDir → Type 0) (ds : List DiskDir)
    → All P ds
    → All (λ d. P d × (d.held_again ≡ false) × (d.state_again ≡ present false)) (prune ds)
unfolding prune
prune-stopped P [] a = tt
prune-stopped P (d ∷ ds) a =
    elim (Bool-cases (not d.held_again && d.rootfs_old_again && is_stopped d.state_again)) [
      | inl c ↦
          rw (c, prune)
            (
              (a.0, ground (arith, c), is_stopped-present d.state_again (ground (arith, c))),
              prune-stopped P ds a.1,
            )
      | inr c ↦ rw (c, prune) (prune-stopped P ds a.1)
    ]

-- A sweep goes only for directories that are old or of an age that cannot be read, that nothing held
-- open and whose VM the daemon did not know, at both readings, and for the disk that a live row names
-- only if a row that is not live names it too; it prunes only copies beside VMs that were stopped at both
-- readings; and it goes for a hundred directories at most.
pub sweep_orphans_lem :
    (rows : Map StoreRecord) (entries : List DiskDir)
    → All
        (λ d. IsOrphan rows d × (d.held_again ≡ false) × (d.state_again ≡ gone))
        (sweep_orphans rows entries).reclaimed
      × All
          (λ d. IsStale d × (d.held_again ≡ false) × (d.state_again ≡ present false))
          (sweep_orphans rows entries).pruned
      × (length (sweep_orphans rows entries).reclaimed ≤ max_deletes_per_sweep)
unfolding sweep_orphans sweep_found
sweep_orphans_lem rows entries =
    let f = classify (tier_by_id rows []) 0 (candidates entries) in
    let (orphans, stale) =
      classify-FoundWell rows 0 (candidates entries) (candidates-AllOld entries) in
    (
      reclaim-gone (IsOrphan rows) (take max_deletes_per_sweep f.deletable)
          (All-take (IsOrphan rows) max_deletes_per_sweep f.deletable orphans),
      prune-stopped IsStale (take max_rootfs_prunes_per_sweep f.stale_rootfs)
          (All-take IsStale max_rootfs_prunes_per_sweep f.stale_rootfs stale),
      length-reclaim max_deletes_per_sweep f.deletable,
    )
