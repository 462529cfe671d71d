-- ===== src/Janitors/Purge.antt =====
-- src/registry.rs: `purge_pass` and `pending_pass`, the two passes that delete VMs.
use pg_fc.Base.{
  if◌then◌else◌, Bool-cases, All, Any, All-append, All-map, Str, str_eq, starts_with, contains, Map,
  ◌≡◌, refl, ◌≢◌, ◌↔◌, ◌⊎◌, inl, inr, Bool, true, false, not, ◌||◌, Option, none, some, List, [],
  ◌∷◌, ◌++◌, map, arith,
}
use pg_fc.Store.Format.{StoreRecord, Tier, live, compacted, frozen, archived, is_live}
use pg_fc.Offload.Targets.{DaemonState, present, gone, unanswered}
use pg_fc.Janitors.{VmInfo, spare_prefix}

-- The daemon's answer for a VM that its listing does not name.
abbrev pub is_present : DaemonState → Bool
is_present (present x) = true
is_present _ = false

-- `purge_pass` starts with the VMs of rows that are not live, as the rows were at its start.
unfoldable pub leftovers : List Str → (Str → DaemonState) → Map StoreRecord → List Str
leftovers listed daemon [] = []
leftovers listed daemon ((schema, r) ∷ rows) =
    let rest = leftovers listed daemon rows in
    if is_live r.tier
    then rest
    else if contains listed r.sandbox_id || is_present (daemon r.sandbox_id)
    then r.sandbox_id ∷ rest
    else rest

-- What is read of the bindings and of the claims.
pub record Owned : Type 0 where
  pub bound : List Str
  pub claimed : List Str

unfoldable pub owns : Owned → Str → Bool
owns o id = contains o.bound id || contains o.claimed id

-- A spare is looked up at the start of the pass and again in front of its kill: `again` is the second
-- reading, by the VM.
unfoldable pub unclaimed_spares : Owned → (Str → Owned) → List VmInfo → List Str
unclaimed_spares start again [] = []
unclaimed_spares start again (i ∷ is) =
    let rest = unclaimed_spares start again is in
    if not (starts_with i.name spare_prefix) || owns start i.id
    then rest
    else if owns (again i.id) i.id
    then rest
    else i.id ∷ rest

-- The VMs that the pass deletes, in its order.
unfoldable pub purge_pass :
    (Str → DaemonState) → Map StoreRecord → Owned → (Str → Owned) → List VmInfo → List Str
purge_pass daemon rows start again infos =
    leftovers (map (λ i. i.id) infos) daemon rows ++ unclaimed_spares start again infos

-- The listing has a VM of this id, with the name of a spare.
abbrev pub IsSpare : List VmInfo → Str → Type 0
IsSpare infos id = Any (λ i. (i.id ≡ id) × (starts_with i.name spare_prefix ≡ true)) infos

-- Why a VM is deleted: a row that was not live named it, or it is listed as a spare, and nobody had it at
-- the start and when it was deleted.
pub data Waste (rows : Map StoreRecord) (start : Owned) (again : Str → Owned) (infos : List VmInfo)
    (id : Str) : Type 0 where
  offloaded_row :
      Any (λ e. (e.1.tier ≢ live) × (e.1.sandbox_id ≡ id)) rows → Waste rows start again infos id
  free_spare :
      IsSpare infos id
      → owns start id ≡ false
      → owns (again id) id ≡ false
      → Waste rows start again infos id

is_live-not : (t : Tier) → is_live t ≡ false → t ≢ live
unfolding is_live
is_live-not live l e = cc
is_live-not compacted l e = cc
is_live-not frozen l e = cc
is_live-not archived l e = cc

leftovers_waste :
    (listed : List Str) (daemon : Str → DaemonState) (rows : Map StoreRecord)
    → All
        (λ id. Any (λ e. (e.1.tier ≢ live) × (e.1.sandbox_id ≡ id)) rows)
        (leftovers listed daemon rows)
unfolding leftovers
leftovers_waste listed daemon [] = tt
leftovers_waste listed daemon ((schema, r) ∷ rows) =
    let rest =
      All-map _ (λ id. Any (λ e. (e.1.tier ≢ live) × (e.1.sandbox_id ≡ id)) ((schema, r) ∷ rows))
        (leftovers listed daemon rows) (λ id a. inr a) (leftovers_waste listed daemon rows) in
    elim (Bool-cases (is_live r.tier)) [
      | inl l ↦ rw (l, leftovers) rest
      | inr l ↦
          elim (Bool-cases (contains listed r.sandbox_id || is_present (daemon r.sandbox_id))) [
            | inl c ↦ rw (l, c, leftovers) (inl (is_live-not r.tier l, refl), rest)
            | inr c ↦ rw (l, c, leftovers) rest
          ]
    ]

unclaimed_spares_free :
    (start : Owned) (again : Str → Owned) (is : List VmInfo)
    → All
        (λ id. IsSpare is id × (owns start id ≡ false) × (owns (again id) id ≡ false))
        (unclaimed_spares start again is)
unfolding unclaimed_spares
unclaimed_spares_free start again [] = tt
unclaimed_spares_free start again (i ∷ is) =
    let rest =
      All-map _ (λ id. IsSpare (i ∷ is) id × (owns start id ≡ false) × (owns (again id) id ≡ false))
        (unclaimed_spares start again is) (λ id (spare, a, b). (inr spare, a, b))
        (unclaimed_spares_free start again is) in
    elim (Bool-cases (not (starts_with i.name spare_prefix) || owns start i.id)) [
      | inl a ↦ rw (a, unclaimed_spares) rest
      | inr a ↦ elim (Bool-cases (owns (again i.id) i.id)) [
        | inl b ↦ rw (a, b, unclaimed_spares) rest
        | inr b ↦
            rw (a, b, unclaimed_spares)
              ((inl (refl, ground (arith, a)), ground (arith, a), b), rest)
      ]
    ]

-- A purge deletes nothing but the VMs of rows that were not live at its start, and VMs whose listed name
-- is a spare's and that are neither bound nor claimed when the pass starts nor when they are deleted.
pub purge_pass-Waste :
    (daemon : Str → DaemonState) (rows : Map StoreRecord) (start : Owned) (again : Str → Owned)
    (infos : List VmInfo)
    → All (Waste rows start again infos) (purge_pass daemon rows start again infos)
unfolding purge_pass
purge_pass-Waste daemon rows start again infos =
    All-append (Waste rows start again infos) (leftovers (map (λ i. i.id) infos) daemon rows)
      (unclaimed_spares start again infos)
      (All-map _ (Waste rows start again infos) (leftovers (map (λ i. i.id) infos) daemon rows)
        (λ id a. offloaded_row a) (leftovers_waste _ daemon rows))
      (All-map _ (Waste rows start again infos) (unclaimed_spares start again infos)
        (λ id (spare, unowned, still_unowned). free_spare spare unowned still_unowned)
        (unclaimed_spares_free start again infos))

-- `pending_pass`, on one entry of the ledger: the row of its schema, whether a bring-up of it is in
-- flight, the daemon's answer, and whether a kill succeeds.
pub data Settling : Type 0 where
  settled : Settling
  deleted : Settling
  left_alone : Settling

unfoldable pub by_daemon : DaemonState → Bool → Settling
by_daemon gone killed = settled
by_daemon (present x) killed = if killed then deleted else left_alone
by_daemon unanswered killed = left_alone

abbrev pub binds : Option StoreRecord → Str → Bool
binds none id = false
binds (some r) id = str_eq r.sandbox_id id

unfoldable pub settle_pending : Option StoreRecord → Str → Bool → DaemonState → Bool → Settling
settle_pending row id in_flight daemon killed =
    if binds row id then settled else if in_flight then left_alone else by_daemon daemon killed

by_daemon_lem :
    (daemon : DaemonState) (killed : Bool)
    → ((by_daemon daemon killed ≡ deleted)
        ↔ ((false ≡ false) × (false ≡ false) × (is_present daemon ≡ true) × (killed ≡ true)))
      × ((by_daemon daemon killed ≡ settled)
          ↔ ((false ≡ true) ⊎ ((false ≡ false) × (daemon ≡ gone))))
unfolding by_daemon
by_daemon_lem (present x) true =
    ((λ e. (refl, refl, refl, refl), λ h. refl), (λ e. cc, λ h. elim h [ inl y ↦ cc | inr y ↦ cc ]))
by_daemon_lem (present x) false =
    ((λ e. cc, λ h. cc), (λ e. cc, λ h. elim h [ inl y ↦ cc | inr y ↦ cc ]))
by_daemon_lem gone killed = ((λ e. cc, λ h. cc), (λ e. inr (refl, refl), λ h. refl))
by_daemon_lem unanswered killed =
    ((λ e. cc, λ h. cc), (λ e. cc, λ h. elim h [ inl y ↦ cc | inr y ↦ cc ]))

-- The janitor deletes a VM only if the daemon has it, its schema's row does not bind it and no bring-up
-- of the schema is in flight; and it gives an entry up only if the row binds the VM, or no bring-up is
-- in flight and the VM is gone.
pub settle_pending_lem :
    (row : Option StoreRecord) (id : Str) (in_flight : Bool) (daemon : DaemonState) (killed : Bool)
    → ((settle_pending row id in_flight daemon killed ≡ deleted) ↔ (
        (binds row id ≡ false)
        × (in_flight ≡ false)
        × (is_present daemon ≡ true)
        × (killed ≡ true)))
      × ((settle_pending row id in_flight daemon killed ≡ settled)
          ↔ ((binds row id ≡ true) ⊎ ((in_flight ≡ false) × (daemon ≡ gone))))
unfolding settle_pending by_daemon
settle_pending_lem row id in_flight daemon killed = elim (Bool-cases (binds row id)) [
  | inl b ↦ rw (b, settle_pending) ((λ e. cc, λ h. cc), (λ e. inl refl, λ h. refl))
  | inr b ↦ elim (Bool-cases in_flight) [
    | inl f ↦
        rw (b, f, settle_pending)
          ((λ e. cc, λ h. cc), (λ e. cc, λ h. elim h [ inl x ↦ cc | inr x ↦ cc ]))
    | inr f ↦ rw (b, f, settle_pending) (by_daemon_lem daemon killed)
  ]
]
