-- ===== src/Entries.antt =====
-- src/registry.rs: a warm entry of the registry, its admission and its idle clock. A cell of the map
-- without an entry is a bring-up in flight.
pub mod Slots
pub mod Reaping
pub mod Oldest
use pg_fc.Base.{
  leb, ◌==◌, if◌then◌else◌, take, Str, Map, remove, ℕ, zero, suc, ◌+◌, ◌-◌, Bool, not, ◌&&◌, Option,
  none, some, List, [], ◌∷◌, ◌++◌,
}

-- `free` is what the semaphore has left of `slot_limit`; times are readings of a monotonic clock.
pub record SchemaEntry : Type 0 where
  pub keepalive : Bool
  pub slot_limit : ℕ
  pub free : ℕ
  pub active : ℕ
  pub last_active : ℕ

unfoldable pub new_entry : Bool → ℕ → ℕ → SchemaEntry
new_entry keepalive slots now = record {
  keepalive = keepalive;
  slot_limit = slots;
  free = slots;
  active = 0;
  last_active = now;
}

unfoldable pub touch : ℕ → SchemaEntry → SchemaEntry
touch now e = record e { last_active = now }

unfoldable pub idle_for : ℕ → SchemaEntry → ℕ
idle_for now e = now - e.last_active

unfoldable pub is_idle : ℕ → ℕ → SchemaEntry → Bool
is_idle now timeout e = not e.keepalive && e.active == 0 && leb timeout (idle_for now e)

-- A permit, once there is one.
unfoldable pub take_permit : SchemaEntry → Option SchemaEntry
take_permit e = elim e.free [ zero ↦ none | suc k ↦ some (record e { free = k }) ]

-- The rest of `acquire`.
unfoldable pub count_in : ℕ → SchemaEntry → SchemaEntry
count_in now e = touch now (record e { active = e.active + 1 })

-- `drop`, in front of the permit's own.
unfoldable pub count_out : ℕ → SchemaEntry → SchemaEntry
count_out now e = touch now (record e { active = e.active - 1 })

unfoldable pub return_permit : SchemaEntry → SchemaEntry
return_permit e = record e { free = e.free + 1 }

abbrev pub max_stops_per_pass : ℕ
max_stops_per_pass = 24

abbrev pub Entries : Type 0
Entries = Map (Option SchemaEntry)

-- The idle entries with their ages; the timeout with its jitter, in floating point, is an argument.
unfoldable pub expired_cell : ℕ → (Str → ℕ) → Str → Option SchemaEntry → List (Str × ℕ)
expired_cell now timeout schema none = []
expired_cell now timeout schema (some e) =
    if is_idle now (timeout schema) e then (schema, idle_for now e) ∷ [] else []

unfoldable pub expired : ℕ → (Str → ℕ) → Entries → List (Str × ℕ)
expired now timeout [] = []
expired now timeout ((schema, cell) ∷ m) =
    expired_cell now timeout schema cell ++ expired now timeout m

-- `sort_by_key` with the oldest first; equal ages keep their order.
unfoldable pub insert_oldest : Str × ℕ → List (Str × ℕ) → List (Str × ℕ)
insert_oldest x [] = x ∷ []
insert_oldest x (y ∷ ys) =
    let rest = insert_oldest x ys in if leb y.1 x.1 then x ∷ y ∷ ys else y ∷ rest

unfoldable pub oldest_first : List (Str × ℕ) → List (Str × ℕ)
oldest_first [] = []
oldest_first (x ∷ xs) = insert_oldest x (oldest_first xs)

unfoldable pub remove_all : List (Str × ℕ) → Entries → Entries
remove_all [] m = m
remove_all (x ∷ xs) m = remove_all xs (remove x.0 m)

-- `reap_idle`, under the lock of the map: what it takes out, and the map.
unfoldable pub reap_idle : ℕ → (Str → ℕ) → Entries → List (Str × ℕ) × Entries
reap_idle now timeout m =
    let victims = take max_stops_per_pass (oldest_first (expired now timeout m)) in
    (victims, remove_all victims m)
