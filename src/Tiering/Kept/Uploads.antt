-- ===== src/Tiering/Kept/Uploads.antt =====
-- src/imgarchive.rs: an image that is put over a key of S3 is what a restore finds, or is refused.
use pg_fc.Base.{
  leb, Bool-cases, Option-cases, ℕ, ◌≤◌, ◌≡◌, refl, ap, ◌≢◌, ◌⊎◌, inl, inr, Bool, true, false,
  Option, none, some, [], arith,
}
use pg_fc.Store.Format.{Tier, archived, compacted, live}
use pg_fc.Tiering.{Object, Places, apply, sets_dump, sets_image, Refusal}
use pg_fc.Tiering.Images.{
  DiskChecks, disk_ready, Head, head_fails, head_finds, ImageIo, verified, is_baseline, delete_dump,
  put_image_over, put_image, archive_of, choose_restore, min_image_bytes, Spool, spooled,
  archive_disk, promote_compact, compact_disk, archive_via_spool, compact_via_tmp,
}
use pg_fc.Tiering.Kept.{IsAt, IsAt-sets_dump, IsAt-sets_image, version_at, IsAt-sets_local_image}
use pg_fc.Tiering.Kept.Runs.{ImageRuns, ImageRuns-if}

-- S3, on an upload of `len` bytes that hold the version: the request afterwards reports the object at
-- the key, and an object of that length there, other than the one before, is what was uploaded.
pub record IsTruthful (io : ImageIo) (len v : ℕ) : Type 0 where
  pub reports : (o : Object) → io.head_after ≡ head_finds (some o) → io.stored ≡ some o
  pub uploads :
      (o : Object) (before : Option Object)
      → io.baseline ≡ head_finds before
      → io.upload_ok ≡ true
      → io.stored ≡ some o
      → o.size ≡ len
      → is_baseline o before ≡ false
      → o.version ≡ v

Head-cases : (x : Head) → (x ≡ head_fails) ⊎ ((o : Option Object) × (x ≡ head_finds o))
Head-cases head_fails = inl refl
Head-cases (head_finds o) = inr (o, refl)

verified-size :
    (len : ℕ) (before : Option Object) (x : Head)
    → verified len before x ≡ true
    → (o : Object) × (x ≡ head_finds (some o)) × (o.size ≡ len) × (is_baseline o before ≡ false)
unfolding verified
verified-size len before head_fails k = cc
verified-size len before (head_finds none) k = cc
verified-size len before (head_finds (some o)) k = (o, refl, ground arith, ground arith)

verified-stored :
    (io : ImageIo) (len v : ℕ) (before : Option Object)
    → IsTruthful io len v
    → io.baseline ≡ head_finds before
    → io.upload_ok ≡ true
    → verified len before io.head_after ≡ true
    → (o : Object) × (io.stored ≡ some o) × (o.size ≡ len) × (o.version ≡ v)
verified-stored io len v before h b u k =
    let (o, e, size, new) = verified-size len before io.head_after k in
    (o, h.reports o e, size, h.uploads o before b u (h.reports o e) size new)

-- The image alone, of a plausible length.
image_found :
    (v : ℕ) (image : Option Object) (o : Object)
    → image ≡ some o
    → min_image_bytes ≤ o.size
    → o.version ≡ v
    → (p : Places) → p.dump ≡ none
    → p.image ≡ image
    → version_at archived [] p ≡ some v
unfolding version_at archive_of choose_restore
image_found v image o e l x p d i = rw (d, i, e) (ground arith)

delete_dump-runs :
    (t : Tier) (v : ℕ) (io : ImageIo) (o : Object) (p : Places)
    → t ≢ archived
    → io.stored ≡ some o
    → min_image_bytes ≤ o.size
    → o.version ≡ v
    → p.image ≡ io.stored
    → IsAt t v p
    → ImageRuns t archived v (delete_dump io).1 (delete_dump io).0 p
unfolding delete_dump apply
delete_dump-runs t v io o p n e l x i h =
    let gone = IsAt-sets_dump t v none p n h in
    ImageRuns-if t archived v io.delete_ok _ _ p
      (λ _. (h, (gone, image_found v io.stored o e l x (apply (sets_dump none) p) refl i)))
      (λ _. ImageRuns-if t archived v io.deleted_anyway _ _ p (λ _. (h, gone)) (λ _. h))

put_image_over-runs :
    (t : Tier) (v len : ℕ) (io : ImageIo) (before : Option Object) (p : Places)
    → t ≢ archived
    → min_image_bytes ≤ len
    → IsTruthful io len v
    → io.baseline ≡ head_finds before
    → IsAt t v p
    → ImageRuns t archived v (put_image_over io len before).1 (put_image_over io len before).0 p
unfolding put_image_over apply delete_dump
put_image_over-runs t v len io before p n l good b h =
    let put = IsAt-sets_image t v io.stored p n h in
    elim (Bool-cases io.upload_ok) [
      | inr u ↦ rw (u, put_image_over) (h, put)
      | inl u ↦ elim (Bool-cases (verified len before io.head_after)) [
        | inr k ↦ rw (u, k, put_image_over) (h, put)
        | inl k ↦
            let (o, e, size, x) = verified-stored io len v before good b u k in
            rw (u, k, put_image_over)
              (
                h,
                delete_dump-runs t v io o (apply (sets_image io.stored) p) n e (omega (arith, size))
                    x refl put,
              )
      ]
    ]

pub put_image-runs :
    (t : Tier) (v len : ℕ) (io : ImageIo) (p : Places)
    → t ≢ archived
    → min_image_bytes ≤ len
    → IsTruthful io len v
    → IsAt t v p
    → ImageRuns t archived v (put_image io len).1 (put_image io len).0 p
unfolding put_image
put_image-runs t v len io p n l good h = elim (Head-cases io.baseline) [
  | inl e ↦ rw (e, put_image) h
  | inr (before, e) ↦ rw (e, put_image) (put_image_over-runs t v len io before p n l good e h)
]

-- A spooled file that passes its checks has the least length.
spooled-len : (s : Spool) (n : ℕ) → spooled s ≡ inr n → (s.len ≡ some n) × (min_image_bytes ≤ n)
unfolding spooled
spooled-len s n e = elim (Option-cases s.len) [
  | inl x ↦ ground arith
  | inr (m, x) ↦ ground (arith, x)
]

Sum-cases : (x : Refusal ⊎ ℕ) → ((r : Refusal) × (x ≡ inl r)) ⊎ ((n : ℕ) × (x ≡ inr n))
Sum-cases (inl r) = inl (r, refl)
Sum-cases (inr n) = inr (n, refl)

archive_via_spool-runs :
    (t : Tier) (v : ℕ) (s : Spool) (io : ImageIo) (p : Places)
    → t ≢ archived
    → ((n : ℕ) → s.len ≡ some n → IsTruthful io n v)
    → IsAt t v p
    → ImageRuns t archived v (archive_via_spool s io).1 (archive_via_spool s io).0 p
unfolding archive_via_spool
archive_via_spool-runs t v s io p n good h = elim (Sum-cases (spooled s)) [
  | inl (r, e) ↦ rw (e, archive_via_spool) h
  | inr (m, e) ↦
      let (l, least) = spooled-len s m e in
      rw (e, archive_via_spool) (put_image-runs t v m io p n least (good m l) h)
]

pub archive_disk-runs :
    (t : Tier) (v : ℕ) (d : DiskChecks) (s : Spool) (io : ImageIo) (p : Places)
    → t ≢ archived
    → ((n : ℕ) → s.len ≡ some n → IsTruthful io n v)
    → IsAt t v p
    → ImageRuns t archived v (archive_disk d s io).1 (archive_disk d s io).0 p
unfolding archive_disk
archive_disk-runs t v d s io p n good h =
    ImageRuns-if t archived v (disk_ready d) (archive_via_spool s io) _ p
      (λ _. archive_via_spool-runs t v s io p n good h) (λ _. h)

pub promote_compact-runs :
    (v : ℕ) (len : Option ℕ) (io : ImageIo) (p : Places)
    → ((n : ℕ) → len ≡ some n → IsTruthful io n v)
    → IsAt compacted v p
    → ImageRuns compacted archived v (promote_compact len io).1 (promote_compact len io).0 p
unfolding promote_compact
promote_compact-runs v none io p good h = h
promote_compact-runs v (some n) io p good h =
    ImageRuns-if compacted archived v (leb min_image_bytes n) (put_image io n) _ p
      (λ e. put_image-runs compacted v n io p (λ x. cc) (ground arith) (good n refl) h) (λ _. h)

-- What is spooled has passed every check.
spooled_sound :
    (v m : ℕ) (s : Spool) (o : Object)
    → ((n : ℕ)
        → s.compressed ≡ true
        → s.len ≡ some n
        → min_image_bytes ≤ n
        → s.stream_ok ≡ true
        → s.magic_ok ≡ true
        → o.version ≡ v)
    → spooled s ≡ inr m
    → o.version ≡ v
unfolding spooled
spooled_sound v m s o x e = elim (Option-cases s.len) [
  | inl l ↦ ground (arith, l, e)
  | inr (n, l) ↦
      x n (ground (arith, l, e)) l (ground (arith, l, e)) (ground (arith, l, e))
        (ground (arith, l, e))
]

compact_via_tmp-runs :
    (v : ℕ) (s : Spool) (renamed : Bool) (o : Object) (p : Places)
    → ((n : ℕ)
        → s.compressed ≡ true
        → s.len ≡ some n
        → min_image_bytes ≤ n
        → s.stream_ok ≡ true
        → s.magic_ok ≡ true
        → o.version ≡ v)
    → IsAt live v p
    → ImageRuns live compacted v (compact_via_tmp s renamed o).1 (compact_via_tmp s renamed o).0 p
unfolding compact_via_tmp apply version_at
compact_via_tmp-runs v s renamed o p x h = elim (Sum-cases (spooled s)) [
  | inl (r, e) ↦ rw (e, compact_via_tmp) h
  | inr (m, e) ↦
      rw (e, compact_via_tmp)
        (ImageRuns-if live compacted v renamed _ _ p
          (λ _. (
            h,
            (
              IsAt-sets_local_image live v (some o) p (λ y. cc) h,
              ap some (spooled_sound v m s o x e),
            ),
          ))
          (λ _. h))
]

pub compact_disk-runs :
    (v : ℕ) (d : DiskChecks) (s : Spool) (renamed : Bool) (o : Object) (p : Places)
    → ((n : ℕ)
        → s.compressed ≡ true
        → s.len ≡ some n
        → min_image_bytes ≤ n
        → s.stream_ok ≡ true
        → s.magic_ok ≡ true
        → o.version ≡ v)
    → IsAt live v p
    → ImageRuns live compacted v (compact_disk d s renamed o).1 (compact_disk d s renamed o).0 p
unfolding compact_disk
compact_disk-runs v d s renamed o p x h =
    ImageRuns-if live compacted v (disk_ready d) (compact_via_tmp s renamed o) _ p
      (λ _. compact_via_tmp-runs v s renamed o p x h) (λ _. h)
