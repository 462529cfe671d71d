-- ===== src/Tiering/Archive.antt =====
-- src/registry.rs: `archive_schema_inner`, the promotions of local files, and the image of a disk.
use pg_fc.Base.{
  leb, ◌==◌, if◌then◌else◌, Str, ℕ, zero, suc, Bool, true, false, not, ◌&&◌, Option, none, some,
  List, [], ◌∷◌, ◌++◌,
}
use pg_fc.Store.Format.{compacted, frozen, archived}
use pg_fc.Offload.Targets.{ImageTarget, target, contradicted, no_vm, resolve_image_target}
use pg_fc.Tiering.{
  Object, Binding, Places, Effect, evicts, stops_leaked, stops, boots, sets_dump, sets_local_dump,
  sets_local_image, sets_tier, puts, kills, Refusal, not_configured, already_offloaded,
  already_offloading, no_longer_frozen, file_missing, too_small, not_stored, not_verified,
  bring_up_failed, dump_failed, live_sessions, contradicts, done, fails, Log, refuse, after,
  tier_of, Config,
}
use pg_fc.Tiering.Images.{
  Head, head_finds, size_of, ImageIo, ImageLog, Spool, DiskChecks, archive_disk, promote_compact,
}

-- What the rest of the system answers to one archiving of one schema.
pub record Answers : Type 0 where
  -- The claim of the schema is taken already; the sessions of its warm entry.
  pub claimed : Bool
  pub sessions : Option ℕ
  -- `ensure_vm`: the VM and the version that its disk holds.
  pub ensured : Option (Str × ℕ)
  -- `dump_to_s3`, and what it leaves at the key of the dump.
  pub dump_ok : Bool
  pub dump_left : Option Object
  -- The upload of a frozen dump, and the request after it.
  pub upload_ok : Bool
  pub upload_left : Option Object
  pub head_after : Head
  -- The image of a disk, and the promotion of a compacted one.
  pub disk : DiskChecks
  pub spool : Spool
  pub image : ImageIo
  -- The write of `set_tier` lands, the kill is carried out, the local file is removed.
  pub landed : Bool
  pub put_landed : Bool
  pub killed : Bool
  pub removed : Bool

unfoldable pub row_if_missing : Option Binding → Str → Bool → List Effect
row_if_missing none id landed = puts id landed ∷ []
row_if_missing (some b) id landed = []

unfoldable pub image_tail : Option Binding → Str → Answers → List Effect
image_tail row id a =
    row_if_missing row id a.put_landed ++ sets_tier archived a.landed ∷ kills id a.killed ∷ []

unfoldable pub image_done : Option Binding → Str → Answers → ImageLog → Log
image_done row id a (es, none) = (es ++ image_tail row id a, done)
image_done row id a (es, some r) = (es, fails r)

unfoldable pub image_archive_now : Option Binding → Str → Answers → Log
image_archive_now row id a = image_done row id a (archive_disk a.disk a.spool a.image)

-- The original refusal comes back when the image fails too.
unfoldable pub or_original : Refusal → Log → Log
or_original r (es, done) = (es, done)
or_original r (es, fails _) = (es, fails r)

unfoldable pub image_archive_fallback :
    Config → Option Binding → Option Str → Answers → Refusal → Log
image_archive_fallback cfg row none a r = refuse r
image_archive_fallback cfg row (some id) a r =
    if cfg.image_archive then or_original r (image_archive_now row id a) else refuse r

unfoldable pub dumped : Config → Option Binding → Str → Answers → Log
dumped cfg row id a =
    if a.dump_ok
    then (sets_dump a.dump_left ∷ sets_tier archived a.landed ∷ kills id a.killed ∷ [], done)
    else after (sets_dump a.dump_left ∷ stops id ∷ [])
        (image_archive_fallback cfg row (some id) a dump_failed)

abbrev pub id_of : Option Binding → Option Str
id_of none = none
id_of (some b) = some b.sandbox_id

unfoldable pub archive_vm : Config → Option Binding → Answers → Log
archive_vm cfg row a = elim a.ensured [
  | none ↦
      after (evicts ∷ stops_leaked ∷ [])
        (image_archive_fallback cfg row (id_of row) a bring_up_failed)
  | some (id, w) ↦ after (evicts ∷ boots id w ∷ []) (dumped cfg row id a)
]

-- The refusal of a schema with sessions.
unfoldable pub unless_active : Option ℕ → Log → Log
unless_active none l = l
unless_active (some zero) l = l
unless_active (some (suc n)) l = refuse (live_sessions (suc n))

unfoldable pub archive_live : Config → Option Binding → Answers → Log
archive_live cfg row a =
    if a.claimed then refuse already_offloading else unless_active a.sessions (archive_vm cfg row a)

abbrev pub remove_dump : Bool → List Effect
remove_dump true = sets_local_dump none ∷ []
remove_dump false = []

abbrev pub remove_image : Bool → List Effect
remove_image true = sets_local_image none ∷ []
remove_image false = []

-- The object at the key has the length of the file.
unfoldable pub has_size : ℕ → Head → Bool
has_size len (head_finds (some o)) = o.size == len
has_size len _ = false

unfoldable pub promote_dump : ℕ → Answers → Log
promote_dump len a =
    if not (leb 512 len)
    then refuse too_small
    else if not a.upload_ok
    then (sets_dump a.upload_left ∷ [], fails not_stored)
    else if not (has_size len a.head_after)
    then (sets_dump a.upload_left ∷ [], fails not_verified)
    else (sets_dump a.upload_left ∷ sets_tier archived a.landed ∷ remove_dump a.removed, done)

unfoldable pub promote_file : Option ℕ → Answers → Log
promote_file none a = refuse file_missing
promote_file (some len) a = promote_dump len a

abbrev pub is_frozen : Option Binding → Bool
is_frozen none = false
is_frozen (some b) = elim b.tier [ frozen ↦ true | _ ↦ false ]

unfoldable pub archive_frozen_schema : Config → Places → Answers → Log
archive_frozen_schema cfg p a =
    if not (cfg.archive && cfg.freeze)
    then refuse not_configured
    else if a.claimed
    then refuse already_offloading
    else if not (is_frozen p.row)
    then refuse no_longer_frozen
    else promote_file (size_of p.local_dump) a

unfoldable pub promoted_image : Answers → ImageLog → Log
promoted_image a (es, none) = (es ++ sets_tier archived a.landed ∷ remove_image a.removed, done)
promoted_image a (es, some r) = (es, fails r)

unfoldable pub archive_compacted_schema : Config → Places → Answers → Log
archive_compacted_schema cfg p a =
    if not (cfg.archive && cfg.compact)
    then refuse not_configured
    else if a.claimed
    then refuse already_offloading
    else promoted_image a (promote_compact (size_of p.local_image) a.image)

-- The row is read before the claim is taken: `seen` is that reading.
unfoldable pub archive_schema_inner : Config → Option Binding → Places → Answers → Log
archive_schema_inner cfg seen p a =
    if not cfg.archive then refuse not_configured else elim (tier_of seen) [
      | some archived ↦ refuse already_offloaded
      | some frozen ↦ archive_frozen_schema cfg p a
      | some compacted ↦ archive_compacted_schema cfg p a
      | _ ↦ archive_live cfg p.row a
    ]

unfoldable pub image_of_target : ImageTarget → Option Binding → Answers → Log
image_of_target no_vm row a = refuse Refusal.no_vm
image_of_target (contradicted bound viewed) row a = refuse (contradicts bound viewed)
image_of_target (target id adopting) row a =
    if a.claimed
    then refuse already_offloading
    else unless_active a.sessions (after (evicts ∷ stops id ∷ []) (image_archive_now row id a))

unfoldable pub archive_schema_as_image_inner :
    Config → Option Binding → Option Str → Places → Answers → Log
archive_schema_as_image_inner cfg seen viewed p a =
    if not (cfg.archive && cfg.image_archive) then refuse not_configured else elim (tier_of seen) [
      | some archived ↦ refuse already_offloaded
      | some frozen ↦ refuse already_offloaded
      | some compacted ↦ refuse already_offloaded
      | _ ↦ image_of_target (resolve_image_target (id_of seen) viewed) p.row a
    ]
