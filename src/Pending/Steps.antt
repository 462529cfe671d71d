-- ===== src/Pending/Steps.antt =====
-- src/pending.rs: records, clears and writes of concurrent tasks, in any order.
use pg_fc.Base.{
  Bool-cases, Str, eq_of_str_eq, str_eq, Map, IsDistinct, insert-IsDistinct, remove-IsDistinct,
  insert, remove, contains_key, ℕ, suc, ◌≡◌, refl, ap, ◌∙◌, inl, inr, Bool, true, false, Option,
  none, some, [], ◌∷◌, arith,
}
use pg_fc.Pending.{
  Entry, Ledger, init_ledger, snapshot, persist_start, persist_end, record_entry, clear_entry,
}
use pg_fc.Pending.Rows.{IsEntry, AllEntries, init_ledger-snapshot}

pub data LedgerStep (l : Ledger) : Ledger → Type 0 where
  records :
      (schema id : Str) (now : ℕ)
      → IsEntry schema (record { sandbox_id = id; started = now })
      → LedgerStep l (record_entry schema id now l)
  clears : (schema : Str) → LedgerStep l (clear_entry schema l)
  starts_write : (k : ℕ) → l.writing ≡ none → l.owed ≡ suc k → LedgerStep l (persist_start k l)
  ends_write : (ok : Bool) (s : Str) → l.writing ≡ some s → LedgerStep l (persist_end ok s l)

-- A process that has just read its file.
abbrev pub opened : Option Str → Ledger
opened file = record {
  entries = init_ledger file;
  file = file;
  writing = none;
  owed = 0;
  lost = false;
}

pub data LedgerRun (file : Option Str) : Ledger → Type 0 where
  opens : LedgerRun file (opened file)
  goes_on : {l m : Ledger} → LedgerStep l m → LedgerRun file l → LedgerRun file m

pub record IsSound (l : Ledger) : Type 0 where
  pub distinct : IsDistinct l.entries
  pub entries_fit : AllEntries l.entries
  pub newest : (s : Str) → l.writing ≡ some s → l.owed ≡ 0 → s ≡ snapshot l.entries
  pub on_disk : l.writing ≡ none → l.owed ≡ 0 → l.lost ≡ false → init_ledger l.file ≡ l.entries

AllEntries-insert :
    (k : Str) (e : Entry) (m : Map Entry) → IsEntry k e → AllEntries m → AllEntries (insert k e m)
unfolding insert
AllEntries-insert k e [] good h = (good, tt)
AllEntries-insert k e ((j, d) ∷ m) good h = elim (Bool-cases (str_eq j k)) [
  | inl s ↦ rw (s, insert) (rw (eq_of_str_eq j k s) good, h.1)
  | inr s ↦ rw (s, insert) (h.0, AllEntries-insert k e m good h.1)
]

AllEntries-remove : (k : Str) (m : Map Entry) → AllEntries m → AllEntries (remove k m)
unfolding remove
AllEntries-remove k [] h = tt
AllEntries-remove k ((j, d) ∷ m) h = elim (Bool-cases (str_eq j k)) [
  | inl s ↦ rw (s, remove) (AllEntries-remove k m h.1)
  | inr s ↦ rw (s, remove) (h.0, AllEntries-remove k m h.1)
]

LedgerStep-IsSound : {l m : Ledger} → LedgerStep l m → IsSound l → IsSound m
unfolding record_entry clear_entry persist_start persist_end
LedgerStep-IsSound {l} (records schema id now good) v = record {
  distinct = insert-IsDistinct schema _ l.entries v.distinct;
  entries_fit = AllEntries-insert schema _ l.entries good v.entries_fit;
  newest = λ s h o. absurd (omega arith);
  on_disk = λ h o x. absurd (omega arith);
}
LedgerStep-IsSound {l} (clears schema) v = elim (Bool-cases (contains_key schema l.entries)) [
  | inl e ↦
      rw (e, clear_entry)
        (record {
          distinct = remove-IsDistinct schema l.entries v.distinct;
          entries_fit = AllEntries-remove schema l.entries v.entries_fit;
          newest = λ s h o. absurd (omega arith);
          on_disk = λ h o x. absurd (omega arith);
        })
  | inr e ↦ rw (e, clear_entry) v
]
LedgerStep-IsSound {l} (starts_write k e o) v = record {
  distinct = v.distinct;
  entries_fit = v.entries_fit;
  newest = λ s h o. cc;
  on_disk = λ h o x. cc;
}
LedgerStep-IsSound {l} (ends_write true s e) v = record {
  distinct = v.distinct;
  entries_fit = v.entries_fit;
  newest = λ s h o. cc;
  on_disk = λ h o x.
      ap (λ t. init_ledger (some t)) (v.newest s e o)
      ∙ init_ledger-snapshot l.entries v.entries_fit v.distinct;
}
LedgerStep-IsSound {l} (ends_write false s e) v = record {
  distinct = v.distinct;
  entries_fit = v.entries_fit;
  newest = λ s h o. cc;
  on_disk = λ h o x. cc;
}

run_IsSound :
    (file : Option Str) (l : Ledger)
    → IsDistinct (init_ledger file)
    → AllEntries (init_ledger file)
    → LedgerRun file l
    → IsSound l
run_IsSound file l d h opens = record {
  distinct = d;
  entries_fit = h;
  newest = λ s e o. cc;
  on_disk = λ e o x. refl;
}
run_IsSound file m d h (goes_on {l} st r) = LedgerStep-IsSound st (run_IsSound file l d h r)

-- From a file whose entries are distinct and well formed, in whatever order tasks record, clear
-- and write: once no task has still to write and the last write did not fail, a process that is
-- restarted finds exactly the entries of the ledger.
pub restart_entries :
    (file : Option Str) (l : Ledger)
    → IsDistinct (init_ledger file)
    → AllEntries (init_ledger file)
    → LedgerRun file l
    → l.writing ≡ none
    → l.owed ≡ 0
    → l.lost ≡ false
    → init_ledger l.file ≡ l.entries
restart_entries file l d h r = (run_IsSound file l d h r).on_disk
