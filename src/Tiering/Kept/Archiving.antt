-- ===== src/Tiering/Kept/Archiving.antt =====
-- src/registry.rs: no archiving, wherever it stops, leaves a schema whose data a connect cannot find.
use pg_fc.Base.{Option-cases, Str, ℕ, zero, suc, ◌≡◌, refl, inl, inr, not, ◌&&◌, Option, none, some}
use pg_fc.Store.Format.{Tier, live, compacted, frozen, archived}
use pg_fc.Offload.Targets.{ImageTarget, target, contradicted, no_vm}
use pg_fc.Tiering.{
  Binding, Places, apply, bring_up_failed, dump_failed, Log, Config, sets_dump, evicts, stops,
  stops_leaked, boots, refuse, already_offloaded,
}
use pg_fc.Tiering.Archive.{
  Answers, image_archive_now, dumped, archive_vm, unless_active, archive_live,
  archive_frozen_schema, archive_compacted_schema, archive_schema_inner, image_of_target,
  archive_schema_as_image_inner,
}
use pg_fc.Tiering.Kept.{IsAt, IsAt-boots, IsAt-sets_dump}
use pg_fc.Tiering.Kept.Runs.{RunsLog, after_two, RunsLog-if}
use pg_fc.Tiering.Kept.Imaging.{
  Supports, tail-Runs, image_archive_now-runs, fallback-runs, dump_found,
}
use pg_fc.Tiering.Kept.Promoting.{archive_frozen_schema-runs, archive_compacted_schema-runs}

dumped-runs :
    (cfg : Config) (v : ℕ) (b : Binding) (id : Str) (a : Answers) (p q : Places)
    → Supports p v a
    → IsAt live v q
    → RunsLog live archived v (dumped cfg (some b) id a) q
unfolding dumped apply
dumped-runs cfg v b id a p q good h =
    let put = IsAt-sets_dump live v a.dump_left q (λ e. cc) h in
    RunsLog-if live archived v a.dump_ok _ _ q
      (λ k.
        let (o, e, x, l) = good.dump_whole k in
        (
          (live, h),
          tail-Runs live v id a.landed a.killed _ put (dump_found v a.dump_left o _ e x l refl),
        ))
      (λ _.
        after_two live archived v (sets_dump a.dump_left) (stops id) _ q h put
          (fallback-runs cfg v b (some id) a dump_failed p _ good put))

archive_vm-runs :
    (cfg : Config) (v : ℕ) (b : Binding) (a : Answers) (p : Places)
    → Supports p v a
    → IsAt live v p
    → RunsLog live archived v (archive_vm cfg (some b) a) p
unfolding archive_vm apply
archive_vm-runs cfg v b a p good h = elim (Option-cases a.ensured) [
  | inl e ↦
      rw (e, archive_vm)
        (after_two live archived v evicts stops_leaked _ p h h
          (fallback-runs cfg v b (some b.sandbox_id) a bring_up_failed p p good h))
  | inr ((id, w), e) ↦
      let boot : IsAt live v (apply (boots id w) p) =
        rw (good.boots_current id w e) (IsAt-boots live v id p h) in
      rw (e, archive_vm)
        (after_two live archived v evicts (boots id w) _ p h h
          (dumped-runs cfg v b id a p _ good boot))
]

pub RunsLog-unless_active :
    (t u : Tier) (v : ℕ) (n : Option ℕ) (l : Log) (p : Places)
    → IsAt t v p
    → RunsLog t u v l p
    → RunsLog t u v (unless_active n l) p
unfolding unless_active
RunsLog-unless_active t u v none l p h r = r
RunsLog-unless_active t u v (some zero) l p h r = r
RunsLog-unless_active t u v (some (suc n)) l p h r = h

archive_live-runs :
    (cfg : Config) (v : ℕ) (b : Binding) (a : Answers) (p : Places)
    → Supports p v a
    → IsAt live v p
    → RunsLog live archived v (archive_live cfg (some b) a) p
unfolding archive_live
archive_live-runs cfg v b a p good h =
    RunsLog-if live archived v a.claimed _ _ p (λ _. h)
      (λ _.
        RunsLog-unless_active live archived v a.sessions _ p h (archive_vm-runs cfg v b a p good h))

archive_row-runs :
    (cfg : Config) (v : ℕ) (b : Binding) (row : Option Binding) (a : Answers) (p : Places)
    → row ≡ some b
    → Supports p v a
    → IsAt live v p
    → RunsLog live archived v (archive_live cfg row a) p
archive_row-runs cfg v b row a p e good h = rw e (archive_live-runs cfg v b a p good h)

by_tier :
    (t : Tier) (v : ℕ) (cfg : Config) (a : Answers) (p : Places)
    → Supports p v a
    → IsAt t v p
    → RunsLog t archived v
        (elim t [
          | archived ↦ refuse already_offloaded
          | frozen ↦ archive_frozen_schema cfg p a
          | compacted ↦ archive_compacted_schema cfg p a
          | live ↦ archive_live cfg p.row a
        ])
        p
by_tier live v cfg a p good h = archive_row-runs cfg v _ p.row a p h.row_at good h
by_tier compacted v cfg a p good h = archive_compacted_schema-runs cfg v a p good h
by_tier frozen v cfg a p good h = archive_frozen_schema-runs cfg frozen v a p good h
by_tier archived v cfg a p good h = h

-- `archive_schema_inner` on the row that it has read.
archive_seen-runs :
    (cfg : Config) (t : Tier) (v : ℕ) (id : Str) (row : Option Binding) (a : Answers) (p : Places)
    → row ≡ some (record { sandbox_id = id; tier = t })
    → Supports p v a
    → IsAt t v p
    → RunsLog t archived v (archive_schema_inner cfg row p a) p
unfolding archive_schema_inner
archive_seen-runs cfg t v id row a p e good h =
    RunsLog-if t archived v (not cfg.archive) _ _ p (λ _. h)
      (λ _. rw e (by_tier t v cfg a p good h))

-- What `archive_schema_inner` does is what it promises, by the tier of the row.
pub archive_schema_inner-runs :
    (cfg : Config) (t : Tier) (v : ℕ) (a : Answers) (p : Places)
    → Supports p v a
    → IsAt t v p
    → RunsLog t archived v (archive_schema_inner cfg p.row p a) p
archive_schema_inner-runs cfg t v a p good h =
    archive_seen-runs cfg t v h.id p.row a p h.row_at good h

image_row-runs :
    (v : ℕ) (b : Binding) (id : Str) (row : Option Binding) (a : Answers) (p : Places)
    → row ≡ some b
    → Supports p v a
    → IsAt live v p
    → RunsLog live archived v (image_archive_now row id a) p
image_row-runs v b id row a p e good h = rw e (image_archive_now-runs v b id a p p good h)

image_of_target-runs :
    (v : ℕ) (b : Binding) (to : ImageTarget) (row : Option Binding) (a : Answers) (p : Places)
    → row ≡ some b
    → Supports p v a
    → IsAt live v p
    → RunsLog live archived v (image_of_target to row a) p
unfolding image_of_target apply
image_of_target-runs v b no_vm row a p e good h = h
image_of_target-runs v b (contradicted x y) row a p e good h = h
image_of_target-runs v b (target id adopting) row a p e good h =
    RunsLog-if live archived v a.claimed _ _ p (λ _. h)
      (λ _. RunsLog-unless_active live archived v a.sessions _ p h (
        after_two live archived v evicts (stops id) _ p h h
          (image_row-runs v b id row a p e good h)))

image_tier-runs :
    (t : Tier) (v : ℕ) (to : ImageTarget) (a : Answers) (p : Places)
    → Supports p v a
    → IsAt t v p
    → RunsLog t archived v
        (elim t [
          | archived ↦ refuse already_offloaded
          | frozen ↦ refuse already_offloaded
          | compacted ↦ refuse already_offloaded
          | live ↦ image_of_target to p.row a
        ])
        p
image_tier-runs live v to a p good h = image_of_target-runs v _ to p.row a p h.row_at good h
image_tier-runs compacted v to a p good h = h
image_tier-runs frozen v to a p good h = h
image_tier-runs archived v to a p good h = h

image_seen-runs :
    (cfg : Config) (t : Tier) (v : ℕ) (id : Str) (row : Option Binding) (viewed : Option Str)
    (a : Answers) (p : Places)
    → row ≡ some (record { sandbox_id = id; tier = t })
    → Supports p v a
    → IsAt t v p
    → RunsLog t archived v (archive_schema_as_image_inner cfg row viewed p a) p
unfolding archive_schema_as_image_inner
image_seen-runs cfg t v id row viewed a p e good h =
    RunsLog-if t archived v (not (cfg.archive && cfg.image_archive)) _ _ p (λ _. h)
      (λ _. rw e (image_tier-runs t v _ a p good h))

pub archive_schema_as_image_inner-runs :
    (cfg : Config) (t : Tier) (v : ℕ) (viewed : Option Str) (a : Answers) (p : Places)
    → Supports p v a
    → IsAt t v p
    → RunsLog t archived v (archive_schema_as_image_inner cfg p.row viewed p a) p
archive_schema_as_image_inner-runs cfg t v viewed a p good h =
    image_seen-runs cfg t v h.id p.row viewed a p h.row_at good h
