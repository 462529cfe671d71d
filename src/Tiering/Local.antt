-- ===== src/Tiering/Local.antt =====
-- src/registry.rs: `freeze_schema_inner` and `compact_schema_inner`.
use pg_fc.Base.{leb, if◌then◌else◌, Str, ℕ, Bool, true, false, not, Option, none, some, [], ◌∷◌}
use pg_fc.Store.Format.{live, compacted, frozen}
use pg_fc.Tiering.{
  Object, Binding, Places, evicts, stops_leaked, stops, boots, sets_local_dump, sets_tier, kills,
  not_configured, already_offloaded, already_offloading, no_row, bring_up_failed, dump_failed,
  live_sessions, done, fails, Log, refuse, after, Config,
}
use pg_fc.Tiering.Images.{Spool, DiskChecks, ImageLog, compact_disk}
use pg_fc.Tiering.Archive.{unless_active}

-- What the rest of the system answers to one freeze or compaction.
pub record LocalAnswers : Type 0 where
  pub claimed : Bool
  pub sessions : Option ℕ
  pub ensured : Option (Str × ℕ)
  -- The dump that the local server has put in place, if it has.
  pub dump : Option Object
  pub disk : DiskChecks
  pub spool : Spool
  pub renamed : Bool
  pub imaged : Object
  pub landed : Bool
  -- The VM is reached, and the kill is carried out.
  pub killed : Bool

-- The least length of a dump that is trusted.
abbrev pub min_archive_bytes : ℕ
min_archive_bytes = 512

-- `offloaded`, on a row that may be missing.
abbrev pub is_offloaded : Option Binding → Bool
is_offloaded none = false
is_offloaded (some b) = elim b.tier [ live ↦ false | _ ↦ true ]

unfoldable pub dumped_locally : Str → LocalAnswers → Log
dumped_locally id a = elim a.dump [
  | none ↦ (stops id ∷ [], fails dump_failed)
  | some o ↦
      if leb min_archive_bytes o.size
      then (sets_local_dump (some o) ∷ sets_tier frozen a.landed ∷ kills id a.killed ∷ [], done)
      else (sets_local_dump (some o) ∷ stops id ∷ [], fails dump_failed)
]

unfoldable pub freeze_vm : LocalAnswers → Log
freeze_vm a = elim a.ensured [
  | none ↦ (evicts ∷ stops_leaked ∷ [], fails bring_up_failed)
  | some (id, w) ↦ after (evicts ∷ boots id w ∷ []) (dumped_locally id a)
]

-- `seen` is the row before the claim.
unfoldable pub freeze_schema_inner : Config → Option Binding → LocalAnswers → Log
freeze_schema_inner cfg seen a =
    if not cfg.freeze
    then refuse not_configured
    else if is_offloaded seen
    then refuse already_offloaded
    else if a.claimed
    then refuse already_offloading
    else unless_active a.sessions (freeze_vm a)

unfoldable pub compacted_log : Str → LocalAnswers → ImageLog → Log
compacted_log id a (es, none) =
    after (evicts ∷ es) (sets_tier compacted a.landed ∷ kills id a.killed ∷ [], done)
compacted_log id a (es, some r) = (evicts ∷ es, fails r)

unfoldable pub compact_row : Option Binding → LocalAnswers → Log
compact_row none a = (evicts ∷ [], fails no_row)
compact_row (some b) a =
    compacted_log b.sandbox_id a (compact_disk a.disk a.spool a.renamed a.imaged)

-- A warm entry refuses, however many sessions it has.
unfoldable pub unless_warm : Option ℕ → Log → Log
unless_warm none l = l
unless_warm (some n) l = refuse (live_sessions n)

unfoldable pub compact_schema_inner : Config → Option Binding → Places → LocalAnswers → Log
compact_schema_inner cfg seen p a =
    if not cfg.compact
    then refuse not_configured
    else if is_offloaded seen
    then refuse already_offloaded
    else if a.claimed
    then refuse already_offloading
    else unless_warm a.sessions (compact_row p.row a)
