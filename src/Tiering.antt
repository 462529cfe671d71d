-- ===== src/Tiering.antt =====
-- src/registry.rs, src/imgarchive.rs and src/vm.rs: where the data of one schema is while it is
-- offloaded and restored. An operation is the list of what it changes outside of its own task, in the
-- order in which it makes the changes, so a crash is a shorter list.
pub mod Images
pub mod Archive
pub mod Local
pub mod Checkout
pub mod Kept
pub mod Steps
pub mod Outcomes
pub mod Serving
pub mod Overtaking
use pg_fc.Base.{
  if◌then◌else◌, Str, Map, insert, remove, ℕ, Bool, not, Option, none, some, List, [], ◌∷◌, ◌++◌,
}
use pg_fc.Store.Format.{Tier, live, compacted, frozen, archived}

-- A stored copy: the version of the data that it holds, its length, and what else tells two objects
-- of S3 apart, the entity tag and the time.
pub record Object : Type 0 where
  pub version : ℕ
  pub size : ℕ
  pub tag : ℕ

-- The part of a row of the registry that says where the data is.
pub record Binding : Type 0 where
  pub sandbox_id : Str
  pub tier : Tier

-- The row in memory and in the file, the data disks of the VMs, the two objects of S3, the two local
-- files. `behind`: the last write of the file has not landed.
pub record Places : Type 0 where
  pub row : Option Binding
  pub file : Option Binding
  pub behind : Bool
  pub disks : Map ℕ
  pub dump : Option Object
  pub image : Option Object
  pub local_dump : Option Object
  pub local_image : Option Object

-- The changes. The flags say whether a write landed and whether a kill was carried out.
pub data Effect : Type 0 where
  evicts stops_leaked clears_pending : Effect
  stops : Str → Effect
  boots : Str → ℕ → Effect
  sets_dump sets_image sets_local_dump sets_local_image : Option Object → Effect
  sets_tier : Tier → Bool → Effect
  puts : Str → Bool → Effect
  kills : Str → Bool → Effect

-- `set_tier` leaves a missing row missing.
abbrev pub retier : Tier → Option Binding → Option Binding
retier t none = none
retier t (some b) = some (record b { tier = t })

unfoldable pub write_row : Option Binding → Bool → Places → Places
write_row r landed p = record p {
  row = r;
  file = if landed then r else p.file;
  behind = not landed;
}

unfoldable pub apply : Effect → Places → Places
apply (boots id w) p = record p { disks = insert id w p.disks }
apply (sets_dump o) p = record p { dump = o }
apply (sets_image o) p = record p { image = o }
apply (sets_local_dump o) p = record p { local_dump = o }
apply (sets_local_image o) p = record p { local_image = o }
apply (sets_tier t landed) p = write_row (retier t p.row) landed p
apply (puts id landed) p = write_row (some (record { sandbox_id = id; tier = live })) landed p
apply (kills id done) p = if done then record p { disks = remove id p.disks } else p
apply evicts p = p
apply stops_leaked p = p
apply clears_pending p = p
apply (stops id) p = p

unfoldable pub replay : List Effect → Places → Places
replay [] p = p
replay (e ∷ es) p = replay es (apply e p)

-- Why an operation stopped.
pub data Refusal : Type 0 where
  not_configured already_offloaded already_offloading no_longer_frozen no_row no_vm : Refusal
  file_missing too_small not_stored not_verified stale_dump_left bring_up_failed : Refusal
  dump_failed disk_refused : Refusal
  live_sessions : ℕ → Refusal
  contradicts : Str → Str → Refusal

pub data Verdict : Type 0 where
  done : Verdict
  fails : Refusal → Verdict

abbrev pub Log : Type 0
Log = List Effect × Verdict

abbrev pub refuse : Refusal → Log
refuse r = ([], fails r)

-- What an operation did before.
abbrev pub after : List Effect → Log → Log
after es (fs, v) = (es ++ fs, v)

abbrev pub tier_of : Option Binding → Option Tier
tier_of none = none
tier_of (some b) = some b.tier

-- Which tiers are configured.
pub record Config : Type 0 where
  pub archive : Bool
  pub freeze : Bool
  pub compact : Bool
  pub image_archive : Bool
