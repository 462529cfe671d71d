-- ===== src/Tiering/Kept/Imaging.antt =====
-- src/registry.rs: what an archiving relies on, and the image of a disk when no dump could be made.
use pg_fc.Base.{Str, ℕ, ◌≤◌, ◌≡◌, Bool, true, Option, none, some, [], ◌∷◌, arith}
use pg_fc.Store.Format.{Tier, live, archived}
use pg_fc.Tiering.{
  Object, Binding, Places, apply, sets_tier, kills, Refusal, Log, Config, done, fails,
}
use pg_fc.Tiering.Images.{
  head_finds, ImageLog, archive_disk, size_of, archive_of, choose_restore, min_dump_bytes,
}
use pg_fc.Tiering.Archive.{
  Answers, row_if_missing, image_tail, image_done, image_archive_now, or_original,
  image_archive_fallback,
}
use pg_fc.Tiering.Kept.{IsAt, IsAt-kills, IsAt-sets_tier, version_at}
use pg_fc.Tiering.Kept.Runs.{
  Runs, RunsLog, RunsLog-if, ImageRuns, Runs-image_done, Runs-image_fails,
}
use pg_fc.Tiering.Kept.Uploads.{IsTruthful, archive_disk-runs}

-- What the answers are relied on for, while the data is at the version: a VM that is brought up for an
-- offload has its disk, a dump that is reported done is whole and has it, S3 is truthful about the
-- image of the disk and of the compacted file and about the upload of the frozen one.
pub record Supports (p : Places) (v : ℕ) (a : Answers) : Type 0 where
  pub boots_current : (id : Str) (w : ℕ) → a.ensured ≡ some (id, w) → w ≡ v
  pub dump_whole :
      a.dump_ok ≡ true
      → (o : Object) × (a.dump_left ≡ some o) × (o.version ≡ v) × (min_dump_bytes ≤ o.size)
  pub image_truthful : (n : ℕ) → a.spool.len ≡ some n → IsTruthful a.image n v
  pub promote_truthful : (n : ℕ) → size_of p.local_image ≡ some n → IsTruthful a.image n v
  pub upload_reports : (o : Object) → a.head_after ≡ head_finds (some o) → a.upload_left ≡ some o
  pub upload_whole :
      (f o : Object)
      → p.local_dump ≡ some f
      → a.upload_ok ≡ true
      → a.upload_left ≡ some o
      → o.size ≡ f.size
      → o.version ≡ f.version

-- The tier is set and the VM killed.
pub tail-Runs :
    (t : Tier) (v : ℕ) (id : Str) (l k : Bool) (q : Places)
    → IsAt t v q
    → version_at archived [] q ≡ some v
    → Runs t archived v done (sets_tier archived l ∷ kills id k ∷ []) q
tail-Runs t v id l k q h c =
    let set = IsAt-sets_tier t archived v l q c (λ e. cc) h in
    ((t, h), ((archived, set), IsAt-kills archived v id k _ (λ e. cc) set))

image_done-runs :
    (v : ℕ) (b : Binding) (id : Str) (a : Answers) (l : ImageLog) (q : Places)
    → ImageRuns live archived v l.1 l.0 q
    → RunsLog live archived v (image_done (some b) id a l) q
unfolding image_done image_tail row_if_missing
image_done-runs v b id a (es, none) q r =
    Runs-image_done live archived v es _ q r (λ s i c. tail-Runs live v id a.landed a.killed s i c)
image_done-runs v b id a (es, some x) q r = Runs-image_fails live archived v es x x q r

pub image_archive_now-runs :
    (v : ℕ) (b : Binding) (id : Str) (a : Answers) (p q : Places)
    → Supports p v a
    → IsAt live v q
    → RunsLog live archived v (image_archive_now (some b) id a) q
unfolding image_archive_now
image_archive_now-runs v b id a p q good h =
    image_done-runs v b id a (archive_disk a.disk a.spool a.image) q
      (archive_disk-runs live v a.disk a.spool a.image q (λ e. cc) good.image_truthful h)

or_original-runs :
    (t u : Tier) (v : ℕ) (r : Refusal) (l : Log) (q : Places)
    → RunsLog t u v l q
    → RunsLog t u v (or_original r l) q
unfolding or_original
or_original-runs t u v r (es, done) q h = h
or_original-runs t u v r ([], fails x) q h = h
or_original-runs t u v r (e ∷ es, fails x) q h =
    (h.0, or_original-runs t u v r (es, fails x) (apply e q) h.1)

pub fallback-runs :
    (cfg : Config) (v : ℕ) (b : Binding) (id : Option Str) (a : Answers) (r : Refusal)
    (p q : Places)
    → Supports p v a
    → IsAt live v q
    → RunsLog live archived v (image_archive_fallback cfg (some b) id a r) q
unfolding image_archive_fallback
fallback-runs cfg v b none a r p q good h = h
fallback-runs cfg v b (some id) a r p q good h =
    RunsLog-if live archived v cfg.image_archive _ _ q
      (λ _. or_original-runs live archived v r _ q (image_archive_now-runs v b id a p q good h))
      (λ _. h)

-- A dump of a plausible length decides the restore.
pub dump_found :
    (v : ℕ) (left : Option Object) (o : Object) (p : Places)
    → left ≡ some o
    → o.version ≡ v
    → min_dump_bytes ≤ o.size
    → p.dump ≡ left
    → version_at archived [] p ≡ some v
unfolding version_at archive_of choose_restore
dump_found v left o p e x l d = rw (d, e) (ground arith)
