-- ===== src/Pending.antt =====
-- src/pending.rs: the ledger of bring-ups that are not resolved.
pub mod Rows
pub mod Steps
use pg_fc.Base.{
  leb, if◌then◌else◌, ◌>>=◌, Str, Map, get, insert, remove, contains_key, ℕ, ◌+◌, ◌-◌, Bool, true,
  false, Option, none, some, List, [], ◌∷◌, ◌++◌,
}
use pg_fc.Text.{lines, split, show_u64, parse_u64}

-- The sandbox id, and when its create was accepted.
pub record Entry : Type 0 where
  pub sandbox_id : Str
  pub started : ℕ

unfoldable pub timed_entry : Str → Option ℕ → Option Entry
timed_entry id none = none
timed_entry id (some ts) = some (record { sandbox_id = id; started = ts })

unfoldable pub entry_row : Str → Option Entry → Option (Str × Entry)
entry_row schema none = none
entry_row schema (some e) = some (schema, e)

-- A line with three fields, of which the third is a number.
unfoldable pub parse_entry : List Str → Option (Str × Entry)
parse_entry (schema ∷ id ∷ ts ∷ _) = entry_row schema (timed_entry id (parse_u64 ts))
parse_entry _ = none

abbrev pub add_entry : Option (Str × Entry) → Map Entry → Map Entry
add_entry none m = m
add_entry (some (schema, e)) m = insert schema e m

unfoldable pub read_entries : List Str → Map Entry → Map Entry
read_entries [] m = m
read_entries (line ∷ rest) m = read_entries rest (add_entry (parse_entry (split b'\t' line)) m)

abbrev pub contents_or_empty : Option Str → Str
contents_or_empty none = []
contents_or_empty (some s) = s

-- `init`: a file that cannot be read is an empty ledger.
unfoldable pub init_ledger : Option Str → Map Entry
init_ledger file = read_entries (lines (contents_or_empty file)) []

unfoldable pub serialize_entry : Str → Entry → Str
serialize_entry schema e = schema ++ b'\t' ∷ (e.sandbox_id ++ b'\t' ∷ show_u64 e.started)

-- The snapshot of `persist`.
unfoldable pub snapshot : Map Entry → Str
snapshot [] = []
snapshot ((schema, e) ∷ m) = serialize_entry schema e ++ b'\n' ∷ snapshot m

-- The ledger and its file. `writing` is the snapshot of the task that holds the order of writes,
-- `owed` counts the tasks that still have to persist, `lost` says that the last write failed.
pub record Ledger : Type 0 where
  pub entries : Map Entry
  pub file : Option Str
  pub writing : Option Str
  pub owed : ℕ
  pub lost : Bool

-- `persist`, up to its write.
unfoldable pub persist_start : ℕ → Ledger → Ledger
persist_start k l = record l { writing = some (snapshot l.entries); owed = k }

-- The temporary file is renamed over the ledger's, or the ledger's stays as it is.
unfoldable pub persist_end : Bool → Str → Ledger → Ledger
persist_end true s l = record l { file = some s; writing = none; lost = false }
persist_end false s l = record l { writing = none; lost = true }

-- `record`, up to `persist`.
unfoldable pub record_entry : Str → Str → ℕ → Ledger → Ledger
record_entry schema id now l = record l {
  entries = insert schema (record { sandbox_id = id; started = now }) l.entries;
  owed = l.owed + 1;
}

-- `clear`, up to `persist`, which it owes only for an entry that was there.
unfoldable pub clear_entry : Str → Ledger → Ledger
clear_entry schema l =
    if contains_key schema l.entries
    then record l { entries = remove schema l.entries; owed = l.owed + 1 }
    else l

unfoldable pub pending_id : Str → Ledger → Option Str
pending_id schema l = do e ← get schema l.entries; some e.sandbox_id

-- `stale`: the entries up to the cutoff.
unfoldable pub stale_entries : ℕ → ℕ → Map Entry → List (Str × Str)
stale_entries now min_age [] = []
stale_entries now min_age ((schema, e) ∷ m) =
    let rest = stale_entries now min_age m in
    if leb e.started (now - min_age) then (schema, e.sandbox_id) ∷ rest else rest
