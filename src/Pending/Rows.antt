-- ===== src/Pending/Rows.antt =====
-- src/pending.rs: the ledger's file is read back as it was written.
use pg_fc.Base.{
  All, Str, Map, IsDistinct, insert_new, Fresh, Fresh-insert, Fresh-nil, insert, ◌≤◌, ◌≡◌, sym, ap,
  some, List, [], ◌∷◌, ◌++◌, append_assoc, append-nil,
}
use pg_fc.Text.{
  IsClean, IsLine, IsLine-field, IsLine-IsClean, split-IsClean, split-field, lines-line, lines,
  split, u64_max, show_u64-IsClean, parse_u64-show_u64, show_u64,
}
use pg_fc.Pending.{
  Entry, timed_entry, entry_row, parse_entry, add_entry, read_entries, init_ledger, serialize_entry,
  snapshot,
}

-- Names without control characters, and a clock of 64 bits.
pub record IsEntry (schema : Str) (e : Entry) : Type 0 where
  pub clean : IsClean schema
  pub clean_id : IsClean e.sandbox_id
  pub clock_fits : e.started ≤ u64_max

abbrev pub AllEntries : Map Entry → Type 0
AllEntries = All (λ p. IsEntry p.0 p.1)

parse_entry-serialize_entry :
    (schema : Str) (e : Entry)
    → IsEntry schema e
    → parse_entry (split b'\t' (serialize_entry schema e)) ≡ some (schema, e)
unfolding parse_entry serialize_entry entry_row timed_entry
parse_entry-serialize_entry schema e h = rw (
  split-field schema _ h.clean,
  split-field e.sandbox_id _ h.clean_id,
  split-IsClean (show_u64 e.started) (show_u64-IsClean e.started),
  parse_u64-show_u64 e.started h.clock_fits,
)

serialize_entry-IsLine :
    (schema : Str) (e : Entry) → IsEntry schema e → IsLine (serialize_entry schema e)
unfolding serialize_entry
serialize_entry-IsLine schema e h = IsLine-field schema _ h.clean (
    IsLine-field e.sandbox_id _ h.clean_id
      (IsLine-IsClean (show_u64 e.started) (show_u64-IsClean e.started)))

read_entries-cons :
    (k : Str) (e : Entry) (line : Str) (rest : List Str) (acc : Map Entry)
    → parse_entry (split b'\t' line) ≡ some (k, e)
    → read_entries (line ∷ rest) acc ≡ read_entries rest (insert k e acc)
unfolding read_entries
read_entries-cons k e line rest acc h = ap (λ o. read_entries rest (add_entry o acc)) h

read_entries-snapshot :
    (m acc : Map Entry)
    → AllEntries m
    → IsDistinct m
    → Fresh acc m
    → read_entries (lines (snapshot m)) acc ≡ acc ++ m
unfolding snapshot
read_entries-snapshot [] acc h d f = unfold lines read_entries in sym (append-nil acc)
read_entries-snapshot ((k, e) ∷ m) acc h d f = rw (
  lines-line (serialize_entry k e) (snapshot m) (serialize_entry-IsLine k e h.0),
  read_entries-cons k e _ (lines (snapshot m)) acc (parse_entry-serialize_entry k e h.0),
  read_entries-snapshot m (insert k e acc) h.1 d.1 (Fresh-insert k e acc m d.0 f.1),
  insert_new k e acc f.0,
  append_assoc,
)

pub init_ledger-snapshot :
    (m : Map Entry) → AllEntries m → IsDistinct m → init_ledger (some (snapshot m)) ≡ m
unfolding init_ledger
init_ledger-snapshot m h d = read_entries-snapshot m [] h d (Fresh-nil m)
