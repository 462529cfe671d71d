-- ===== src/Tiering/Kept/Offloading.antt =====
-- src/registry.rs: the same for the offloads to this host, and for the cold start.
use pg_fc.Base.{
  leb, Bool-cases, Option-cases, Str, ℕ, ◌≤◌, ◌≡◌, refl, ap, ◌∙◌, ◌≢◌, inl, inr, Bool, true, not,
  Option, none, some, [], ◌∷◌, arith,
}
use pg_fc.Store.Format.{Tier, live, compacted, frozen, archived}
use pg_fc.Tiering.{
  Object, Binding, Places, apply, evicts, boots, sets_tier, kills, Log, Config, done,
}
use pg_fc.Tiering.Images.{ImageLog, min_image_bytes}
use pg_fc.Tiering.Local.{
  min_archive_bytes, LocalAnswers, dumped_locally, freeze_vm, freeze_schema_inner, compacted_log,
  compact_row, unless_warm, compact_schema_inner,
}
use pg_fc.Tiering.Kept.{
  IsAt, IsAt-boots, IsAt-kills, IsAt-sets_local_dump, IsAt-sets_tier, version_at,
}
use pg_fc.Tiering.Kept.Runs.{
  Runs, RunsLog, after_two, RunsLog-if, ImageRuns, Runs-image_done, Runs-image_fails,
}
use pg_fc.Tiering.Kept.Uploads.{compact_disk-runs}
use pg_fc.Tiering.Kept.Archiving.{RunsLog-unless_active}

-- What the answers are relied on for, while the data is at the version: a VM that is brought up for a
-- freeze has its disk; a local dump that the guest has committed holds it, if it is not shorter than
-- any dump is; and the output of the compression holds it, if the tool succeeds, the output is long
-- enough and a sound stream, and starts like a filesystem.
pub record SupportsLocal (v : ℕ) (a : LocalAnswers) : Type 0 where
  pub boots_current : (id : Str) (w : ℕ) → a.ensured ≡ some (id, w) → w ≡ v
  pub dump_whole : (o : Object) → a.dump ≡ some o → min_archive_bytes ≤ o.size → o.version ≡ v
  pub image_whole :
      (n : ℕ)
      → a.spool.compressed ≡ true
      → a.spool.len ≡ some n
      → min_image_bytes ≤ n
      → a.spool.stream_ok ≡ true
      → a.spool.magic_ok ≡ true
      → a.imaged.version ≡ v

-- The tier is set and the VM killed.
tail-Runs :
    (u : Tier) (v : ℕ) (id : Str) (l k : Bool) (q : Places)
    → u ≢ live
    → version_at u [] q ≡ some v
    → IsAt live v q
    → Runs live u v done (sets_tier u l ∷ kills id k ∷ []) q
tail-Runs u v id l k q n c h =
    let set = IsAt-sets_tier live u v l q c n h in
    ((live, h), ((u, set), IsAt-kills u v id k _ n set))

dumped_locally-runs :
    (v : ℕ) (id : Str) (a : LocalAnswers) (p : Places)
    → SupportsLocal v a
    → IsAt live v p
    → RunsLog live frozen v (dumped_locally id a) p
unfolding dumped_locally apply version_at
dumped_locally-runs v id a p good h = elim (Option-cases a.dump) [
  | inl e ↦ rw (e, dumped_locally) ((live, h), h)
  | inr (o, e) ↦
      let put = IsAt-sets_local_dump live v (some o) p (λ x. cc) h in
      elim (Bool-cases (leb min_archive_bytes o.size)) [
        | inl l ↦
            let copy = ap some (good.dump_whole o e (ground (arith, l))) in
            rw (e, l, dumped_locally)
              ((live, h), tail-Runs frozen v id a.landed a.killed _ (λ x. cc) copy put)
        | inr l ↦ rw (e, l, dumped_locally) ((live, h), ((live, put), put))
      ]
]

freeze_vm-runs :
    (v : ℕ) (a : LocalAnswers) (p : Places)
    → SupportsLocal v a
    → IsAt live v p
    → RunsLog live frozen v (freeze_vm a) p
unfolding freeze_vm apply
freeze_vm-runs v a p good h = elim (Option-cases a.ensured) [
  | inl e ↦ rw (e, freeze_vm) ((live, h), ((live, h), h))
  | inr ((id, w), e) ↦
      let boot : IsAt live v (apply (boots id w) p) =
        rw (good.boots_current id w e) (IsAt-boots live v id p h) in
      rw (e, freeze_vm)
        (after_two live frozen v evicts (boots id w) _ p h h
          (dumped_locally-runs v id a _ good boot))
]

freeze_seen-runs :
    (cfg : Config) (t : Tier) (v : ℕ) (id : Str) (row : Option Binding) (a : LocalAnswers)
    (p : Places)
    → row ≡ some (record { sandbox_id = id; tier = t })
    → SupportsLocal v a
    → IsAt t v p
    → RunsLog t frozen v (freeze_schema_inner cfg row a) p
unfolding freeze_schema_inner
freeze_seen-runs cfg live v id row a p e good h =
    RunsLog-if live frozen v (not cfg.freeze) _ _ p (λ _. h)
      (λ _. rw e (
        RunsLog-if live frozen v a.claimed _ _ p (λ _. h)
          (λ _.
            RunsLog-unless_active live frozen v a.sessions _ p h (freeze_vm-runs v a p good h))))
freeze_seen-runs cfg compacted v id row a p e good h =
    RunsLog-if compacted frozen v (not cfg.freeze) _ _ p (λ _. h) (λ _. rw e h)
freeze_seen-runs cfg frozen v id row a p e good h =
    RunsLog-if frozen frozen v (not cfg.freeze) _ _ p (λ _. h) (λ _. rw e h)
freeze_seen-runs cfg archived v id row a p e good h =
    RunsLog-if archived frozen v (not cfg.freeze) _ _ p (λ _. h) (λ _. rw e h)

pub freeze_schema_inner-runs :
    (cfg : Config) (t : Tier) (v : ℕ) (a : LocalAnswers) (p : Places)
    → SupportsLocal v a
    → IsAt t v p
    → RunsLog t frozen v (freeze_schema_inner cfg p.row a) p
freeze_schema_inner-runs cfg t v a p good h =
    freeze_seen-runs cfg t v h.id p.row a p h.row_at good h

compacted_log-runs :
    (v : ℕ) (id : Str) (a : LocalAnswers) (l : ImageLog) (p : Places)
    → IsAt live v p
    → ImageRuns live compacted v l.1 l.0 p
    → RunsLog live compacted v (compacted_log id a l) p
unfolding compacted_log apply
compacted_log-runs v id a (es, none) p h r = (
  (live, h),
  Runs-image_done live compacted v es _ p r
      (λ q i c. tail-Runs compacted v id a.landed a.killed q (λ x. cc) c i),
)
compacted_log-runs v id a (es, some x) p h r =
    ((live, h), Runs-image_fails live compacted v es x x p r)

compact_row-runs :
    (v : ℕ) (b : Binding) (row : Option Binding) (a : LocalAnswers) (p : Places)
    → row ≡ some b
    → SupportsLocal v a
    → IsAt live v p
    → RunsLog live compacted v (compact_row row a) p
unfolding compact_row
compact_row-runs v b row a p e good h =
    rw (e, compact_row)
      (compacted_log-runs v b.sandbox_id a _ p h
        (compact_disk-runs v a.disk a.spool a.renamed a.imaged p good.image_whole h))

RunsLog-unless_warm :
    (t u : Tier) (v : ℕ) (n : Option ℕ) (l : Log) (p : Places)
    → IsAt t v p
    → RunsLog t u v l p
    → RunsLog t u v (unless_warm n l) p
unfolding unless_warm
RunsLog-unless_warm t u v none l p h r = r
RunsLog-unless_warm t u v (some n) l p h r = h

compact_seen-runs :
    (cfg : Config) (t : Tier) (v : ℕ) (id : Str) (row : Option Binding) (a : LocalAnswers)
    (p : Places)
    → row ≡ some (record { sandbox_id = id; tier = t })
    → p.row ≡ row
    → SupportsLocal v a
    → IsAt t v p
    → RunsLog t compacted v (compact_schema_inner cfg row p a) p
unfolding compact_schema_inner
compact_seen-runs cfg live v id row a p e same good h =
    RunsLog-if live compacted v (not cfg.compact) _ _ p (λ _. h)
      (λ _. rw e (
        RunsLog-if live compacted v a.claimed _ _ p (λ _. h)
          (λ _.
            RunsLog-unless_warm live compacted v a.sessions _ p h
              (compact_row-runs v _ p.row a p (same ∙ e) good h))))
compact_seen-runs cfg compacted v id row a p e same good h =
    RunsLog-if compacted compacted v (not cfg.compact) _ _ p (λ _. h) (λ _. rw e h)
compact_seen-runs cfg frozen v id row a p e same good h =
    RunsLog-if frozen compacted v (not cfg.compact) _ _ p (λ _. h) (λ _. rw e h)
compact_seen-runs cfg archived v id row a p e same good h =
    RunsLog-if archived compacted v (not cfg.compact) _ _ p (λ _. h) (λ _. rw e h)

pub compact_schema_inner-runs :
    (cfg : Config) (t : Tier) (v : ℕ) (a : LocalAnswers) (p : Places)
    → SupportsLocal v a
    → IsAt t v p
    → RunsLog t compacted v (compact_schema_inner cfg p.row p a) p
compact_schema_inner-runs cfg t v a p good h =
    compact_seen-runs cfg t v h.id p.row a p h.row_at refl good h
