-- ===== src/Entries/Slots.antt =====
-- src/registry.rs: the clients of one entry, as they come and go.
use pg_fc.Base.{ℕ, suc, ◌+◌, ◌≤◌, ◌<◌, ◌≡◌, refl, sym, ◌∙◌, Bool, false, some, arith}
use pg_fc.Entries.{
  SchemaEntry, new_entry, touch, is_idle, take_permit, count_in, count_out, return_permit,
}

-- The entry, the clients that have a permit and are not counted yet, those that are counted, and those
-- that are counted out and have their permit still.
pub record Clients : Type 0 where
  pub entry : SchemaEntry
  pub admitted : ℕ
  pub connected : ℕ
  pub leaving : ℕ

pub data ClientStep (c : Clients) : Clients → Type 0 where
  takes :
      (e : SchemaEntry)
      → take_permit c.entry ≡ some e
      → ClientStep c (record c { entry = e; admitted = c.admitted + 1 })
  counts :
      (now k : ℕ)
      → c.admitted ≡ suc k
      → ClientStep c
          (record c { entry = count_in now c.entry; admitted = k; connected = c.connected + 1 })
  leaves :
      (now k : ℕ)
      → c.connected ≡ suc k
      → ClientStep c
          (record c { entry = count_out now c.entry; connected = k; leaving = c.leaving + 1 })
  returns :
      (k : ℕ)
      → c.leaving ≡ suc k
      → ClientStep c (record c { entry = return_permit c.entry; leaving = k })
  touches : (now : ℕ) → ClientStep c (record c { entry = touch now c.entry })

pub data ClientRun (keepalive : Bool) (slots : ℕ) : Clients → Type 0 where
  opens :
      (now : ℕ)
      → ClientRun keepalive slots (record {
        entry = new_entry keepalive slots now;
        admitted = 0;
        connected = 0;
        leaving = 0;
      })
  goes_on :
      {c d : Clients} → ClientStep c d → ClientRun keepalive slots c → ClientRun keepalive slots d

-- Every permit is free or with a client, and the counter counts the clients that are connected.
pub record IsBalanced (slots : ℕ) (c : Clients) : Type 0 where
  pub limit : c.entry.slot_limit ≡ slots
  pub permits : c.entry.free + c.admitted + c.connected + c.leaving ≡ slots
  pub counted : c.entry.active ≡ c.connected

take_permit-free :
    (e e' : SchemaEntry)
    → take_permit e ≡ some e'
    → (e.free ≡ e'.free + 1) × (e.active ≡ e'.active) × (e.slot_limit ≡ e'.slot_limit)
unfolding take_permit
take_permit-free e e' h = ground (arith, h)

ClientStep-IsBalanced :
    (slots : ℕ) {c d : Clients} → ClientStep c d → IsBalanced slots c → IsBalanced slots d
unfolding count_in count_out return_permit touch
ClientStep-IsBalanced slots {c} (takes e h) v =
    let (f, a, l) = take_permit-free c.entry e h in
    record {
      limit = sym l ∙ v.limit;
      permits = omega (arith, f, v.permits);
      counted = sym a ∙ v.counted;
    }
ClientStep-IsBalanced slots (counts now k h) v = record {
  limit = v.limit;
  permits = omega (arith, h, v.permits);
  counted = omega (arith, v.counted);
}
ClientStep-IsBalanced slots (leaves now k h) v = record {
  limit = v.limit;
  permits = omega (arith, h, v.permits);
  counted = omega (arith, v.counted, h);
}
ClientStep-IsBalanced slots (returns k h) v = record {
  limit = v.limit;
  permits = omega (arith, h, v.permits);
  counted = v.counted;
}
ClientStep-IsBalanced slots (touches now) v = record {
  limit = v.limit;
  permits = v.permits;
  counted = v.counted;
}

run_IsBalanced :
    (keepalive : Bool) (slots : ℕ) (c : Clients) → ClientRun keepalive slots c → IsBalanced slots c
unfolding new_entry
run_IsBalanced keepalive slots c (opens now) = record {
  limit = refl;
  permits = omega arith;
  counted = refl;
}
run_IsBalanced keepalive slots d (goes_on {c} st r) =
    ClientStep-IsBalanced slots st (run_IsBalanced keepalive slots c r)

-- However clients come and go: the entry counts exactly those that are connected, no more of them than
-- it has slots; every permit that no client has is free, so none is ever lost; and while one client is
-- connected the entry is not idle.
pub ClientRun-IsBalanced :
    (keepalive : Bool) (slots : ℕ) (c : Clients)
    → ClientRun keepalive slots c
    → IsBalanced slots c
      × (c.entry.active ≤ slots)
      × ((now timeout : ℕ) → 0 < c.connected → is_idle now timeout c.entry ≡ false)
unfolding is_idle
ClientRun-IsBalanced keepalive slots c r =
    let v = run_IsBalanced keepalive slots c r in
    (v, omega (arith, v.permits, v.counted), λ now timeout h. ground (arith, v.counted, h))
