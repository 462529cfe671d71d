-- ===== src/Tests/Entries.antt =====
-- The warm entries of src/registry.rs at fixed inputs.
use pg_fc.Base.{
  if◌then◌else◌, length, All, Str, str, str_eq, contains, get, remove, ℕ, ◌≤◌, ◌<◌, ◌≡◌, refl,
  false, none, some, [], ◌∷◌,
}
use pg_fc.Entries.{
  SchemaEntry, new_entry, take_permit, count_in, touch, Entries, is_idle, idle_for, expired,
  expired_cell, oldest_first, insert_oldest, remove_all, reap_idle, max_stops_per_pass,
}
use pg_fc.Entries.Slots.{
  Clients, ClientRun, opens, goes_on, takes, counts, IsBalanced, ClientRun-IsBalanced,
}
use pg_fc.Entries.Reaping.{IsExpired, AllIdle, IsReaped, names, reap_idle_lem}

abbrev quiet : SchemaEntry
quiet = record { keepalive = false; slot_limit = 8; free = 8; active = 0; last_active = 100 }

abbrev busy : SchemaEntry
busy = record quiet { free = 7; active = 1 }

abbrev warm : Entries
warm = (str "wb1", some quiet) ∷ (str "wb2", some busy) ∷ (str "wb3", none) ∷ []

abbrev an_hour : Str → ℕ
an_hour s = 3600

reap_idle_run :
    reap_idle 5000 an_hour warm
    ≡ ((str "wb1", 4900) ∷ [], (str "wb2", some busy) ∷ (str "wb3", none) ∷ [])
unfolding reap_idle expired expired_cell is_idle idle_for oldest_first insert_oldest remove_all
    remove str_eq
reap_idle_run = refl

reap_idle_example :
    let (victims, rest) = reap_idle 5000 an_hour warm in
    (length victims ≤ max_stops_per_pass)
    × All (IsExpired 5000 an_hour warm) victims
    × AllIdle 5000 an_hour (IsReaped victims) warm
    × ((j : Str) → get j rest ≡ (if contains (names victims) j then none else get j warm))
reap_idle_example = reap_idle_lem 5000 an_hour warm

abbrev one_client : Clients
one_client = record {
  entry = record { keepalive = false; slot_limit = 8; free = 7; active = 1; last_active = 20 };
  admitted = 0;
  connected = 1;
  leaving = 0;
}

abbrev one_admitted : Clients
one_admitted = record {
  entry = record { keepalive = false; slot_limit = 8; free = 7; active = 0; last_active = 10 };
  admitted = 1;
  connected = 0;
  leaving = 0;
}

abbrev no_client : Clients
no_client = record { entry = new_entry false 8 10; admitted = 0; connected = 0; leaving = 0 }

one_client-ClientRun : ClientRun false 8 one_client
unfolding new_entry take_permit count_in touch
one_client-ClientRun =
    goes_on {c = one_admitted} (counts 20 0 refl)
      (goes_on {c = no_client} (takes one_admitted.entry refl) (opens 10))

ClientRun-IsBalanced_example :
    IsBalanced 8 one_client
    × (1 ≤ 8)
    × ((now timeout : ℕ) → 0 < 1 → is_idle now timeout one_client.entry ≡ false)
ClientRun-IsBalanced_example = ClientRun-IsBalanced false 8 one_client one_client-ClientRun
