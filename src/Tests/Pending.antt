-- ===== src/Tests/Pending.antt =====
-- src/pending.rs at fixed inputs.
use pg_fc.Base.{Str, str, insert, ◌≡◌, refl, true, none, some, [], ◌∷◌, arith}
use pg_fc.Text.{lines, split, show_u64, parse_u64}
use pg_fc.Pending.{
  Entry, Ledger, init_ledger, record_entry, persist_start, persist_end, stale_entries, read_entries,
  parse_entry, entry_row, timed_entry, snapshot, serialize_entry,
}
use pg_fc.Pending.Rows.{IsEntry}
use pg_fc.Pending.Steps.{
  opened, LedgerRun, opens, goes_on, records, starts_write, ends_write, restart_entries,
}

abbrev booting : Entry
booting = record { sandbox_id = str "sb-1"; started = 1700000000 }

-- A line without a time is skipped.
init_torn : init_ledger (some (str "wb1\tsb-1\t1700000000\nwb2\tsb")) ≡ (str "wb1", booting) ∷ []
unfolding init_ledger read_entries lines parse_entry split entry_row timed_entry parse_u64 insert
init_torn = refl

stale_one : stale_entries 1700000900 600 ((str "wb1", booting) ∷ []) ≡ (str "wb1", str "sb-1") ∷ []
unfolding stale_entries
stale_one = refl

booting-IsEntry : IsEntry (str "wb1") booting
booting-IsEntry = record { clean = ground arith; clean_id = ground arith; clock_fits = omega arith }

recorded : Ledger
recorded = record_entry (str "wb1") (str "sb-1") 1700000000 (opened none)

writing : Ledger
writing = persist_start 0 recorded

abbrev one_line : Str
one_line = str "wb1\tsb-1\t1700000000\n"

written : Ledger
written = persist_end true one_line writing

written-LedgerRun : LedgerRun none written
unfolding written writing recorded persist_end persist_start record_entry init_ledger read_entries
    lines snapshot serialize_entry insert show_u64
written-LedgerRun = goes_on {l = writing} (ends_write true one_line refl) (
    goes_on {l = recorded} (starts_write 0 refl refl) (
      goes_on {l = opened none} (records (str "wb1") (str "sb-1") 1700000000 booting-IsEntry)
        opens))

restart_entries_example : init_ledger written.file ≡ written.entries
unfolding init_ledger read_entries lines written persist_end writing persist_start
restart_entries_example = restart_entries none written tt tt written-LedgerRun refl refl refl
