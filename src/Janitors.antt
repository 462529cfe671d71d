-- ===== src/Janitors.antt =====
-- src/registry.rs: the passes that look for VMs which nothing owns, over the daemon's listing.
pub mod Untracked
pub mod Passes
pub mod Purge
pub mod Orphans
use pg_fc.Base.{
  ◌==◌, if◌then◌else◌, Str, str, str_eq, starts_with, contains, Map, get, insert, Bool, true, false,
  not, ◌&&◌, ◌||◌, Option, none, some, List, [], ◌∷◌,
}
use pg_fc.Store.Format.{StoreRecord, Tier, is_live}

pub record VmInfo : Type 0 where
  pub id : Str
  pub name : Str
  pub running : Bool

abbrev pub spare_prefix : Str
spare_prefix = str "spare-pg-"

unfoldable pub strip_prefix : Str → Str → Option Str
strip_prefix s [] = some s
strip_prefix [] (c ∷ p) = none
strip_prefix (d ∷ s) (c ∷ p) = if d == c then strip_prefix s p else none

-- What a pass reads of the rest: the rows, the schemas that have a cell, warm or starting, the
-- schemas that are being offloaded, the VMs of unresolved bring-ups and the spares that are claimed.
pub record Fleet : Type 0 where
  pub rows : Map StoreRecord
  pub tracked : List Str
  pub archiving : List Str
  pub pending : Map Str
  pub claimed : List Str

-- The schema of every live row, by its VM; the last row counts where two have the same.
unfoldable pub live_by_id : Map StoreRecord → Map Str → Map Str
live_by_id [] m = m
live_by_id ((schema, r) ∷ rows) m =
    let live_row = live_by_id rows (insert r.sandbox_id schema m) in
    let other = live_by_id rows m in if is_live r.tier then live_row else other

-- A running `pg-` VM that is not the binding of its schema.
unfoldable pub superseded : Fleet → VmInfo → Option StoreRecord → Str → Option (Str × Bool)
superseded f i none schema = none
superseded f i (some r) schema = if str_eq r.sandbox_id i.id then none else some (schema, true)

unfoldable pub duplicate_of : Fleet → VmInfo → Option Str → Option (Str × Bool)
duplicate_of f i none = none
duplicate_of f i (some schema) = superseded f i (get schema f.rows) schema

-- The schema that a VM belongs to, and whether it is a duplicate.
unfoldable pub owner : Fleet → VmInfo → Option (Str × Bool)
owner f i = elim (get i.id (live_by_id f.rows [])) [
  | some schema ↦ some (schema, false)
  | none ↦ duplicate_of f i (strip_prefix i.name (str "pg-"))
]

abbrev pub is_pending : Option Str → Str → Bool
is_pending none id = false
is_pending (some p) id = str_eq p id

unfoldable pub untracked : Fleet → VmInfo → Str × Bool → Bool
untracked f i (schema, dup) =
    not (contains f.tracked schema && not dup)
    && not (contains f.archiving schema || is_pending (get schema f.pending) i.id)

abbrev pub keep_untracked : Fleet → VmInfo → Option (Str × Bool) → Bool
keep_untracked f i none = false
keep_untracked f i (some o) = untracked f i o

unfoldable pub is_suspect : Fleet → VmInfo → Bool
is_suspect f i =
    i.running
    && not (starts_with i.name spare_prefix || contains f.claimed i.id)
    && keep_untracked f i (owner f i)

-- `reap_untracked`: the VMs that are told to stop, and the suspects of the next pass.
unfoldable pub reap_untracked : Fleet → List Str → List VmInfo → List Str × List Str
reap_untracked f suspects [] = ([], [])
reap_untracked f suspects (i ∷ is) =
    let (stops, seen) = reap_untracked f suspects is in
    if is_suspect f i
    then (if contains suspects i.id then i.id ∷ stops else stops, i.id ∷ seen)
    else (stops, seen)
