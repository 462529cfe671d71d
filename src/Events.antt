-- ===== src/Events.antt =====
-- src/events.rs: the event log and the journal in memory, oldest first.
pub mod Rings
use pg_fc.Base.{ltb, leb, ◌==◌, if◌then◌else◌, length, Str, ℕ, ◌-◌, ◌*◌, ◌||◌, List, [], ◌∷◌, ◌++◌}

pub data Event : Type 0 where
  restore_s3 restore_local vm_created offload_done vm_deleted spare_claimed : Event

pub data Level : Type 0 where
  info error : Level

pub record JournalEntry : Type 0 where
  pub time : ℕ
  pub level : Level
  pub kind : Str
  pub msg : Str

abbrev pub retain_secs : ℕ
retain_secs = 25 * 3600

abbrev pub journal_capacity : ℕ
journal_capacity = 1000

abbrev pub capacity : ℕ
capacity = 10000

-- `while front is too old { pop_front }`.
unfoldable pub drop_old : ℕ → List (ℕ × Event) → List (ℕ × Event)
drop_old cutoff [] = []
drop_old cutoff ((t, e) ∷ log) =
    let rest = drop_old cutoff log in if ltb t cutoff then rest else (t, e) ∷ log

-- `while len >= cap { pop_front }`.
unfoldable pub make_room {ℓ} : {A : Type ℓ} → ℕ → List A → List A
make_room cap [] = []
make_room cap (x ∷ xs) =
    let rest = make_room cap xs in if leb cap (length (x ∷ xs)) then rest else x ∷ xs

unfoldable pub push_mem : List (ℕ × Event) → ℕ × Event → List (ℕ × Event)
push_mem log (t, e) = make_room capacity (drop_old (t - retain_secs) log) ++ (t, e) ∷ []

unfoldable pub push_journal_mem : List JournalEntry → JournalEntry → List JournalEntry
push_journal_mem j entry = make_room journal_capacity j ++ entry ∷ []

unfoldable pub sanitize : Str → Str
sanitize [] = []
sanitize (c ∷ s) =
    let rest = sanitize s in
    if c == b'\t' || c == b'\n' || c == b'\r' then b' ' ∷ rest else c ∷ rest

-- `journal_at`, in memory.
unfoldable pub journal_at : Level → Str → Str → ℕ → List JournalEntry → List JournalEntry
journal_at level kind msg t j =
    push_journal_mem j (record { time = t; level = level; kind = kind; msg = sanitize msg })
