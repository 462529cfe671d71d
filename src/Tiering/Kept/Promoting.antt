-- ===== src/Tiering/Kept/Promoting.antt =====
-- src/registry.rs: the promotions of local files to S3.
use pg_fc.Base.{
  leb, if◌then◌else◌, Str, ℕ, ◌≡◌, refl, ◌∙◌, Bool, true, false, not, ◌&&◌, Option, none, some,
  arith,
}
use pg_fc.Store.Format.{Tier, live, compacted, frozen, archived}
use pg_fc.Tiering.{Object, Binding, Places, apply, Config, done, refuse, no_longer_frozen}
use pg_fc.Tiering.Images.{Head, head_fails, head_finds, ImageLog, size_of}
use pg_fc.Tiering.Archive.{
  Answers, remove_dump, remove_image, has_size, promote_dump, archive_frozen_schema, promote_file,
  is_frozen, promoted_image, archive_compacted_schema,
}
use pg_fc.Tiering.Kept.{
  IsAt, IsAt-sets_dump, IsAt-sets_local_dump, IsAt-sets_local_image, IsAt-sets_tier, version_at,
}
use pg_fc.Tiering.Kept.Runs.{
  Runs, RunsLog, RunsLog-if, ImageRuns, Runs-image_done, Runs-image_fails,
}
use pg_fc.Tiering.Kept.Uploads.{promote_compact-runs}
use pg_fc.Tiering.Kept.Imaging.{Supports, dump_found}

remove_dump-Runs :
    (v : ℕ) (d : Bool) (p : Places)
    → IsAt archived v p
    → Runs frozen archived v done (remove_dump d) p
remove_dump-Runs v true p h = ((archived, h), IsAt-sets_local_dump archived v none p (λ e. cc) h)
remove_dump-Runs v false p h = h

remove_image-Runs :
    (v : ℕ) (d : Bool) (p : Places)
    → IsAt archived v p
    → Runs compacted archived v done (remove_image d) p
remove_image-Runs v true p h = ((archived, h), IsAt-sets_local_image archived v none p (λ e. cc) h)
remove_image-Runs v false p h = h

has_size-finds :
    (len : ℕ) (x : Head)
    → has_size len x ≡ true
    → (o : Object) × (x ≡ head_finds (some o)) × (o.size ≡ len)
unfolding has_size
has_size-finds len head_fails h = cc
has_size-finds len (head_finds none) h = cc
has_size-finds len (head_finds (some o)) h = (o, refl, ground arith)

promote_dump-runs :
    (v : ℕ) (f : Object) (a : Answers) (p : Places)
    → Supports p v a
    → p.local_dump ≡ some f
    → f.version ≡ v
    → IsAt frozen v p
    → RunsLog frozen archived v (promote_dump f.size a) p
unfolding promote_dump apply
promote_dump-runs v f a p good e x h =
    let put = IsAt-sets_dump frozen v a.upload_left p (λ y. cc) h in
    RunsLog-if frozen archived v (not (leb 512 f.size)) _ _ p (λ _. h)
      (λ big.
        RunsLog-if frozen archived v (not a.upload_ok) _ _ p (λ _. ((frozen, h), put))
          (λ u.
            RunsLog-if frozen archived v (not (has_size f.size a.head_after)) _ _ p
              (λ _. ((frozen, h), put))
              (λ k.
                let (o, finds, size) = has_size-finds f.size a.head_after (ground arith) in
                let left = good.upload_reports o finds in
                let same = good.upload_whole f o e (ground arith) left size ∙ x in
                let copy = dump_found v a.upload_left o _ left same (ground arith) refl in
                let set = IsAt-sets_tier frozen archived v a.landed _ copy (λ y. cc) put in
                ((frozen, h), ((frozen, put), remove_dump-Runs v a.removed _ set)))))

local_dump_runs :
    (v : ℕ) (d : Option Object) (a : Answers) (p : Places)
    → p.local_dump ≡ d
    → Supports p v a
    → IsAt frozen v p
    → RunsLog frozen archived v (promote_file (size_of d) a) p
unfolding promote_file version_at
local_dump_runs v none a p e good h = h
local_dump_runs v (some f) a p e good h =
    promote_dump-runs v f a p good e (ground (arith, h.copy, e)) h

frozen_again :
    (t : Tier) (v : ℕ) (id : Str) (row : Option Binding) (a : Answers) (p : Places)
    → row ≡ some (record { sandbox_id = id; tier = t })
    → Supports p v a
    → IsAt t v p
    → RunsLog t archived v
        (if not (is_frozen row)
          then refuse no_longer_frozen
          else promote_file (size_of p.local_dump) a)
        p
unfolding promote_file version_at
frozen_again live v id row a p e good h = rw e h
frozen_again compacted v id row a p e good h = rw e h
frozen_again archived v id row a p e good h = rw e h
frozen_again frozen v id row a p e good h = rw e (local_dump_runs v p.local_dump a p refl good h)

-- A promotion reads the row again behind its claim, so whatever the row is, nothing is lost.
pub archive_frozen_schema-runs :
    (cfg : Config) (t : Tier) (v : ℕ) (a : Answers) (p : Places)
    → Supports p v a
    → IsAt t v p
    → RunsLog t archived v (archive_frozen_schema cfg p a) p
unfolding archive_frozen_schema
archive_frozen_schema-runs cfg t v a p good h =
    RunsLog-if t archived v (not (cfg.archive && cfg.freeze)) _ _ p (λ _. h)
      (λ _.
        RunsLog-if t archived v a.claimed _ _ p (λ _. h)
          (λ _. frozen_again t v h.id p.row a p h.row_at good h))

promoted_image-runs :
    (v : ℕ) (a : Answers) (l : ImageLog) (p : Places)
    → ImageRuns compacted archived v l.1 l.0 p
    → RunsLog compacted archived v (promoted_image a l) p
unfolding promoted_image
promoted_image-runs v a (es, none) p r = Runs-image_done compacted archived v es _ p r (λ q i c. (
  (compacted, i),
  remove_image-Runs v a.removed _ (IsAt-sets_tier compacted archived v a.landed q c (λ y. cc) i),
))
promoted_image-runs v a (es, some x) p r = Runs-image_fails compacted archived v es x x p r

pub archive_compacted_schema-runs :
    (cfg : Config) (v : ℕ) (a : Answers) (p : Places)
    → Supports p v a
    → IsAt compacted v p
    → RunsLog compacted archived v (archive_compacted_schema cfg p a) p
unfolding archive_compacted_schema
archive_compacted_schema-runs cfg v a p good h =
    RunsLog-if compacted archived v (not (cfg.archive && cfg.compact)) _ _ p (λ _. h)
      (λ _.
        RunsLog-if compacted archived v a.claimed _ _ p (λ _. h)
          (λ _.
            promoted_image-runs v a _ p
              (promote_compact-runs v (size_of p.local_image) a.image p good.promote_truthful h)))
