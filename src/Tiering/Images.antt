-- ===== src/Tiering/Images.antt =====
-- src/imgarchive.rs: the choice between the two objects of S3, and the image of a disk.
use pg_fc.Base.{
  ltb, leb, ◌==◌, if◌then◌else◌, ℕ, ◌+◌, ◌/◌, ◌≤◌, ◌≡◌, ◌⊎◌, inl, inr, Bool, true, false, not, ◌&&◌,
  Option, none, some, List, [], ◌∷◌, arith,
}
use pg_fc.Tiering.{
  Object, Effect, sets_dump, sets_image, sets_local_image, Refusal, too_small, not_stored,
  not_verified, stale_dump_left, disk_refused, file_missing,
}

abbrev pub min_dump_bytes : ℕ
min_dump_bytes = 512

abbrev pub min_image_bytes : ℕ
min_image_bytes = 1024

pub data RestoreKind : Type 0 where
  from_dump from_image : RestoreKind

-- A length that is at least the minimum.
abbrev pub plausible : ℕ → Option ℕ → Bool
plausible least none = false
plausible least (some n) = leb least n

unfoldable pub choose_restore : Option ℕ → Option ℕ → RestoreKind
choose_restore dump image =
    if plausible min_dump_bytes dump
    then from_dump
    else if plausible min_image_bytes image
    then from_image
    else from_dump

abbrev pub size_of : Option Object → Option ℕ
size_of none = none
size_of (some o) = some o.size

abbrev pub filter_size : ℕ → Option Object → Option Object
filter_size least none = none
filter_size least (some o) = if leb least o.size then some o else none

-- The archive that two keys hold, by the precedence of `choose_restore`.
unfoldable pub archive_of : Option Object → Option Object → Option Object
archive_of dump image = elim (choose_restore (size_of dump) (size_of image)) [
  | from_dump ↦ filter_size min_dump_bytes dump
  | from_image ↦ filter_size min_image_bytes image
]

-- A request for an object's identity: it fails, finds nothing, or finds the object.
pub data Head : Type 0 where
  head_fails : Head
  head_finds : Option Object → Head

-- `len_of`: a request that fails counts as an empty key.
unfoldable pub found : Head → Option Object
found head_fails = none
found (head_finds o) = o

-- `probe_archive`, given what the two requests answer.
unfoldable pub probe_archive : Head → Head → Option Object
probe_archive dump image = archive_of (found dump) (found image)

-- `pick_restore`: the image is asked for only if the dump does not decide.
unfoldable pub pick_restore : Head → Head → RestoreKind
pick_restore dump image =
    if plausible min_dump_bytes (size_of (found dump))
    then from_dump
    else choose_restore (size_of (found dump)) (size_of (found image))

unfoldable pub same_object : Object → Object → Bool
same_object a b = a.size == b.size && a.tag == b.tag

unfoldable pub is_baseline : Object → Option Object → Bool
is_baseline o none = false
is_baseline o (some b) = same_object o b

-- The checks of the object that an upload left, by its length and against the one before it.
unfoldable pub verified : ℕ → Option Object → Head → Bool
verified len baseline (head_finds (some o)) = o.size == len && not (is_baseline o baseline)
verified len baseline _ = false

-- The answers of S3 to the upload of an image: the request before it, whether the upload succeeds,
-- what the key then holds, the request after it, whether the delete of the dump succeeds, and
-- whether one that fails has deleted it all the same.
pub record ImageIo : Type 0 where
  pub baseline : Head
  pub upload_ok : Bool
  pub stored : Option Object
  pub head_after : Head
  pub delete_ok : Bool
  pub deleted_anyway : Bool

abbrev pub ImageLog : Type 0
ImageLog = List Effect × Option Refusal

unfoldable pub delete_dump : ImageIo → ImageLog
delete_dump io =
    if io.delete_ok
    then (sets_dump none ∷ [], none)
    else if io.deleted_anyway
    then (sets_dump none ∷ [], some stale_dump_left)
    else ([], some stale_dump_left)

unfoldable pub put_image_over : ImageIo → ℕ → Option Object → ImageLog
put_image_over io len before =
    let (es, r) = delete_dump io in
    if not io.upload_ok
    then (sets_image io.stored ∷ [], some not_stored)
    else if not (verified len before io.head_after)
    then (sets_image io.stored ∷ [], some not_verified)
    else (sets_image io.stored ∷ es, r)

-- The upload of `archive_via_spool` and of `promote_compact`.
unfoldable pub put_image : ImageIo → ℕ → ImageLog
put_image io len = elim io.baseline [
  | head_fails ↦ ([], some not_verified)
  | head_finds before ↦ put_image_over io len before
]

-- The compression of a disk: whether the tool succeeds, the length of its output, whether the output
-- is a sound stream and starts like a filesystem.
pub record Spool : Type 0 where
  pub compressed : Bool
  pub len : Option ℕ
  pub stream_ok : Bool
  pub magic_ok : Bool

-- The checks on the spooled file, up to its length.
unfoldable pub spooled : Spool → Refusal ⊎ ℕ
spooled s = if not s.compressed then inl disk_refused else elim s.len [
  | none ↦ inl file_missing
  | some n ↦
      if not (leb min_image_bytes n)
      then inl too_small
      else if s.stream_ok && s.magic_ok
      then inr n
      else inl disk_refused
]

unfoldable pub archive_via_spool : Spool → ImageIo → ImageLog
archive_via_spool s io = elim (spooled s) [ inl r ↦ ([], some r) | inr n ↦ put_image io n ]

-- What stands in front of an image of a disk: the tier is on, the run directory is set, the disk is
-- there, its release was waited for, the directory of the output could be made; its free bytes, where
-- they can be read, and the disk's allocated bytes. The trim in front of them may fail.
pub record DiskChecks : Type 0 where
  pub enabled : Bool
  pub run_dir : Bool
  pub disk_there : Bool
  pub released : Bool
  pub dir_made : Bool
  pub free : Option ℕ
  pub allocated : ℕ

-- A tenth more than the disk has allocated.
unfoldable pub has_room : Option ℕ → ℕ → Bool
has_room none allocated = true
has_room (some free) allocated = not (ltb free (allocated + allocated / 10))

unfoldable pub disk_ready : DiskChecks → Bool
disk_ready d =
    d.enabled
    && d.run_dir
    && d.disk_there
    && d.released
    && d.dir_made
    && has_room d.free d.allocated

-- `archive_disk`: the spooled file is removed in any case.
unfoldable pub archive_disk : DiskChecks → Spool → ImageIo → ImageLog
archive_disk d s io = if disk_ready d then archive_via_spool s io else ([], some disk_refused)

-- `promote_compact`, given the length of the file.
unfoldable pub promote_compact : Option ℕ → ImageIo → ImageLog
promote_compact none io = ([], some file_missing)
promote_compact (some n) io = if leb min_image_bytes n then put_image io n else ([], some too_small)

-- `compact_via_tmp`: the renamed file is the image of the disk.
unfoldable pub compact_via_tmp : Spool → Bool → Object → ImageLog
compact_via_tmp s renamed o = elim (spooled s) [
  | inl r ↦ ([], some r)
  | inr n ↦ if renamed then (sets_local_image (some o) ∷ [], none) else ([], some disk_refused)
]

unfoldable pub compact_disk : DiskChecks → Spool → Bool → Object → ImageLog
compact_disk d s renamed o =
    if disk_ready d then compact_via_tmp s renamed o else ([], some disk_refused)

picked_archive :
    (dump image : Option Object)
    → (pick_restore (head_finds dump) (head_finds image) ≡ from_dump)
        × (archive_of dump image ≡ filter_size min_dump_bytes dump)
      ⊎ (pick_restore (head_finds dump) (head_finds image) ≡ from_image)
        × (archive_of dump image ≡ image)
        × (filter_size min_dump_bytes dump ≡ none)
unfolding pick_restore archive_of choose_restore found
picked_archive none none = ground arith
picked_archive (some d) none = ground arith
picked_archive none (some i) = ground arith
picked_archive (some d) (some i) = ground arith

-- The checkout restores what the reconciliation page shows, for the same answers: an archive that the
-- page shows is of the kind that the checkout picks, and where it shows none the checkout picks the
-- dump. Both take a request that fails for an empty key: where the request for the dump fails, an image
-- of a plausible length is shown and picked, whatever the dump's key holds.
pub pick_restore-probe_archive :
    (dump image : Head)
    → ((pick_restore dump image ≡ from_dump)
          × (probe_archive dump image ≡ filter_size min_dump_bytes (found dump))
        ⊎ (pick_restore dump image ≡ from_image)
          × (probe_archive dump image ≡ found image)
          × (filter_size min_dump_bytes (found dump) ≡ none))
      × ((i : Object)
          → min_image_bytes ≤ i.size
          → (pick_restore head_fails (head_finds (some i)) ≡ from_image)
            × (probe_archive head_fails (head_finds (some i)) ≡ some i))
unfolding pick_restore probe_archive archive_of choose_restore found
pick_restore-probe_archive dump image = (
  picked_archive (found dump) (found image),
  λ i long. (ground (arith, long), ground (arith, long)),
)
