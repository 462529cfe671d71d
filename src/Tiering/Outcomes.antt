-- ===== src/Tiering/Outcomes.antt =====
-- src/registry.rs: what a finished offload and a finished restore leave behind.
use pg_fc.Base.{
  if◌then◌else◌, Bool-cases, take, Str, ℕ, ◌≡◌, refl, ◌≢◌, ◌⊎◌, inl, inr, Bool, true, false, not,
  Option, none, some, [], ◌∷◌, arith,
}
use pg_fc.Store.Format.{Tier, live, compacted, frozen, archived}
use pg_fc.Tiering.{
  Binding, Places, stops_leaked, bring_up_failed, replay, Config, done, fails, Refusal, Log,
  not_configured, refuse,
}
use pg_fc.Tiering.Images.{RestoreKind, from_dump, from_image, pick_restore}
use pg_fc.Tiering.Archive.{Answers, archive_schema_inner, archive_frozen_schema, is_frozen}
use pg_fc.Tiering.Local.{LocalAnswers, freeze_schema_inner, compact_schema_inner}
use pg_fc.Tiering.Checkout.{
  RestoreSource, from_s3, from_s3_image, from_local, from_local_image, restore_source, Brought,
  cold_start, bring_up,
}
use pg_fc.Tiering.Kept.{IsAt, IsKept}
use pg_fc.Tiering.Kept.Runs.{Runs-IsKept, Runs-done, Runs-fails, RunsLog}
use pg_fc.Tiering.Kept.Imaging.{Supports}
use pg_fc.Tiering.Kept.Archiving.{archive_schema_inner-runs}
use pg_fc.Tiering.Kept.Promoting.{archive_frozen_schema-runs}
use pg_fc.Tiering.Kept.Offloading.{
  SupportsLocal, freeze_schema_inner-runs, compact_schema_inner-runs,
}
use pg_fc.Tiering.Kept.Picking.{IsMisled}
use pg_fc.Tiering.Kept.Restoring.{Restores, restored_version, bring_up-IsAt}

-- The row ends in the tier `u` if the operation is done and in the tier `t` if it is refused.
abbrev pub Ends : Tier → Tier → ℕ → Log → Places → Type 0
Ends t u v l p =
    (l.1 ≡ done → IsAt u v (replay l.0 p))
    × ((r : Refusal) → l.1 ≡ fails r → IsAt t v (replay l.0 p))

RunsLog-Ends : (t u : Tier) (v : ℕ) (l : Log) (p : Places) → RunsLog t u v l p → Ends t u v l p
RunsLog-Ends t u v (es, w) p h =
    (λ e. Runs-done t u v w es p h e, λ r e. Runs-fails t u v w es p h r e)

-- For answers that are supported: an archiving that is done leaves the row archived, with the version
-- in S3 where a restore finds it; one that is refused leaves it in its tier, with the version there.
pub archive_schema_inner_lem :
    (cfg : Config) (t : Tier) (v : ℕ) (a : Answers) (p : Places)
    → Supports p v a
    → IsAt t v p
    → Ends t archived v (archive_schema_inner cfg p.row p a) p
archive_schema_inner_lem cfg t v a p good h =
    RunsLog-Ends t archived v _ p (archive_schema_inner-runs cfg t v a p good h)

-- For answers that are supported: a freeze leaves the row frozen with the version in its local dump, a
-- compaction leaves it compacted with the version in its local image, and either one that is refused
-- leaves it in its tier with the version there.
pub freeze-compact :
    (cfg : Config) (t : Tier) (v : ℕ) (a : LocalAnswers) (p : Places)
    → SupportsLocal v a
    → IsAt t v p
    → Ends t frozen v (freeze_schema_inner cfg p.row a) p
      × Ends t compacted v (compact_schema_inner cfg p.row p a) p
freeze-compact cfg t v a p good h = (
  RunsLog-Ends t frozen v _ p (freeze_schema_inner-runs cfg t v a p good h),
  RunsLog-Ends t compacted v _ p (compact_schema_inner-runs cfg t v a p good h),
)

is_frozen-not :
    (t : Tier) (id : Str) (row : Option Binding)
    → row ≡ some (record { sandbox_id = id; tier = t })
    → t ≢ frozen
    → is_frozen row ≡ false
is_frozen-not live id row e n = rw e refl
is_frozen-not compacted id row e n = rw e refl
is_frozen-not archived id row e n = rw e refl
is_frozen-not frozen id row e n = absurd (n refl)

-- The promotion of a local dump reads the tier again under its claim: whatever tier the row has by
-- then, no stop of it leaves the data where a connect does not find it, and unless the row is frozen it
-- changes nothing.
pub archive_frozen_schema_lem :
    (cfg : Config) (t : Tier) (v : ℕ) (a : Answers) (p : Places)
    → Supports p v a
    → IsAt t v p
    → ((n : ℕ) → IsKept v (replay (take n (archive_frozen_schema cfg p a).0) p))
      × (t ≢ frozen → (archive_frozen_schema cfg p a).0 ≡ [])
unfolding archive_frozen_schema
archive_frozen_schema_lem cfg t v a p good h = (
  λ n. Runs-IsKept t archived v _ _ p (archive_frozen_schema-runs cfg t v a p good h) n,
  λ n. ground (arith, is_frozen-not t h.id p.row h.row_at n),
)

-- Whether the tier of a row has its configuration.
abbrev pub is_configured : Config → Tier → Bool
is_configured cfg live = true
is_configured cfg compacted = cfg.compact
is_configured cfg frozen = cfg.freeze
is_configured cfg archived = cfg.archive

restore_source-inr :
    (cfg : Config) (t : Tier) (id : Str) (row : Option Binding) (picked : RestoreKind)
    → row ≡ some (record { sandbox_id = id; tier = t })
    → is_configured cfg t ≡ true
    → (s : Option RestoreSource) × (restore_source cfg row picked ≡ inr s)
unfolding restore_source
restore_source-inr cfg live id row picked e c = (none, rw e refl)
restore_source-inr cfg compacted id row picked e c = (some from_local_image, rw (e, c) refl)
restore_source-inr cfg frozen id row picked e c = (some from_local, rw (e, c) refl)
restore_source-inr cfg archived id row picked e c =
    (some (elim picked [ from_dump ↦ from_s3 | from_image ↦ from_s3_image ]), rw (e, c) refl)

restore_source-inl :
    (cfg : Config) (t : Tier) (id : Str) (row : Option Binding) (picked : RestoreKind)
    → row ≡ some (record { sandbox_id = id; tier = t })
    → is_configured cfg t ≡ false
    → restore_source cfg row picked ≡ inl not_configured
unfolding restore_source
restore_source-inl cfg live id row picked e c = cc
restore_source-inl cfg compacted id row picked e c = rw (e, c) refl
restore_source-inl cfg frozen id row picked e c = rw (e, c) refl
restore_source-inl cfg archived id row picked e c = rw (e, c) refl

cold_start-finished :
    (cfg : Config) (p : Places) (a : Brought) (s : Option RestoreSource) (id : Str) (w : ℕ)
    → restore_source cfg p.row (pick_restore a.dump_head a.image_head) ≡ inr s
    → a.ensured ≡ some (id, w)
    → ((cold_start cfg p a).1 ≡ done) × IsAt live w (replay (cold_start cfg p a).0 p)
unfolding cold_start bring_up
cold_start-finished cfg p a s id w r e =
    (rw (r, e, bring_up, cold_start) refl, rw (r, cold_start) (bring_up-IsAt s a p id w e))

cold_start-failed :
    (cfg : Config) (p : Places) (a : Brought) (s : Option RestoreSource)
    → restore_source cfg p.row (pick_restore a.dump_head a.image_head) ≡ inr s
    → a.ensured ≡ none
    → cold_start cfg p a ≡ (stops_leaked ∷ [], fails bring_up_failed)
unfolding cold_start bring_up
cold_start-failed cfg p a s r e = rw (r, e, bring_up, cold_start) refl

-- The row is live with what the bring-up returned with: the version, unless the row was archived and the
-- answers mislead.
abbrev pub Started : Tier → ℕ → ℕ → Brought → Places → Places → Type 0
Started t v w a p q = IsAt live w q × ((w ≡ v) ⊎ ((t ≡ archived) × IsMisled p a))

-- A cold start of a schema of any tier, for requests to S3 that fail or tell the truth. Where the tier of
-- the row is configured and the bring-up returns, it is done, the row is live and its VM has the version
-- of the row's tier; or else the row was archived, the request for its dump failed, and the image that
-- was found beside it is what has been restored. Where the bring-up fails, no copy and no row is
-- touched; where the tier is not configured, nothing is.
pub cold_start_lem :
    (cfg : Config) (t : Tier) (v : ℕ) (a : Brought) (p : Places)
    → Restores cfg p a
    → IsAt t v p
    → (is_configured cfg t ≡ true
        → (id : Str) (w : ℕ) → a.ensured ≡ some (id, w)
        → ((cold_start cfg p a).1 ≡ done) × Started t v w a p (replay (cold_start cfg p a).0 p))
      × (is_configured cfg t ≡ true
          → a.ensured ≡ none
          → cold_start cfg p a ≡ (stops_leaked ∷ [], fails bring_up_failed))
      × (is_configured cfg t ≡ false → cold_start cfg p a ≡ refuse not_configured)
unfolding cold_start
cold_start_lem cfg t v a p good h =
    let picked = pick_restore a.dump_head a.image_head in
    (
      λ c id w e.
          let (s, r) = restore_source-inr cfg t h.id p.row picked h.row_at c in
          let (finished, up) = cold_start-finished cfg p a s id w r e in
          (finished, (up, restored_version cfg t v a p s id w good h r e)),
      λ c e.
          let (s, r) = restore_source-inr cfg t h.id p.row picked h.row_at c in
          cold_start-failed cfg p a s r e,
      λ c. rw (restore_source-inl cfg t h.id p.row picked h.row_at c, cold_start) refl,
    )

refused :
    (on : Bool) (l : Log) → on ≡ false → (if not on then refuse not_configured else l).1 ≢ done
refused false l c e = cc
refused true l c e = cc

archive_done-configured :
    (cfg : Config) (row : Option Binding) (a : Answers) (p : Places)
    → (archive_schema_inner cfg row p a).1 ≡ done
    → cfg.archive ≡ true
unfolding archive_schema_inner
archive_done-configured cfg row a p e = elim (Bool-cases cfg.archive) [
  | inl c ↦ c
  | inr c ↦ absurd (refused cfg.archive _ c e)
]

-- A round trip, for an archiving whose answers are supported, requests to S3 that fail or tell the truth,
-- and a bring-up that returns: a schema that was archived, from whatever tier, and is then started with
-- the same configuration is live again with the version that it had; or else the request for its
-- dump failed, and the image that was found beside it is what has been restored.
pub archive-cold_start :
    (cfg : Config) (t : Tier) (v : ℕ) (a : Answers) (p q : Places) (b : Brought) (id : Str) (w : ℕ)
    → Supports p v a
    → IsAt t v p
    → (archive_schema_inner cfg p.row p a).1 ≡ done
    → q ≡ replay (archive_schema_inner cfg p.row p a).0 p
    → Restores cfg q b
    → b.ensured ≡ some (id, w)
    → ((cold_start cfg q b).1 ≡ done) × Started archived v w b q (replay (cold_start cfg q b).0 q)
archive-cold_start cfg t v a p q b id w good h e same restores ensured =
    let stored : IsAt archived v q = rw same ((archive_schema_inner_lem cfg t v a p good h).0 e) in
    (cold_start_lem cfg archived v b q restores stored).0 (archive_done-configured cfg p.row a p e)
      id w ensured
