-- ===== src/Spares.antt =====
-- src/spares.rs: the pool of warm spares. A set of ids is a list, in which an id stands once.
pub mod Sets
pub mod Plan
pub mod Steps
pub mod Taking
pub mod Culling
use pg_fc.Base.{
  leb, if◌then◌else◌, length, Str, str_eq, contains, Map, remove, ℕ, Bool, true, false, ◌||◌,
  Option, none, some, List, [], ◌∷◌,
}

-- `retain(|r| r != id)` on the shelf, `remove(id)` on a set.
unfoldable pub without : Str → List Str → List Str
without id [] = []
without id (x ∷ xs) = let rest = without id xs in if str_eq id x then rest else x ∷ rest

pub record SparePool : Type 0 where
  pub target : ℕ
  pub claimed : List Str
  pub ready : List Str
  pub sick_since : Map ℕ

abbrev max_spares : ℕ
max_spares = 16

unfoldable pub new_pool : ℕ → SparePool
new_pool target = record {
  target = if leb target max_spares then target else max_spares;
  claimed = [];
  ready = [];
  sick_since = [];
}

pub depth : SparePool → ℕ × ℕ
depth p = (length p.ready, p.target)

-- Bound or claimed.
unfoldable pub is_taken : List Str → List Str → Str → Bool
is_taken bound claimed id = contains bound id || contains claimed id

-- The inner loop of `take`: what it pops is claimed or discarded.
unfoldable pub pop_ready : List Str → List Str → List Str → Option (Str × List Str)
pop_ready bound claimed [] = none
pop_ready bound claimed (id ∷ ready) =
    let rest = pop_ready bound claimed ready in
    if is_taken bound claimed id then rest else some (id, ready)

unfoldable pub claimed_pool : Option (Str × List Str) → SparePool → Option Str × SparePool
claimed_pool none p = (none, record p { ready = [] })
claimed_pool (some (id, ready)) p = (some id, record p { claimed = id ∷ p.claimed; ready = ready })

-- The critical section of `take`.
unfoldable pub pop_claim : List Str → SparePool → Option Str × SparePool
pop_claim bound p = claimed_pool (pop_ready bound p.claimed p.ready) p

unfoldable pub unclaim : Str → SparePool → SparePool
unclaim id p = record p { claimed = without id p.claimed }

-- What the daemon says of a claimed spare.
pub data Reply : Type 0 where
  no_connection running not_running not_found flaking : Reply

-- A flaking daemon does not speak against the spare.
unfoldable pub is_usable : Reply → Bool
is_usable running = true
is_usable flaking = true
is_usable _ = false

-- One claim for each reply that the daemon would give, `TAKE_MAX_ATTEMPTS` of them at most.
unfoldable pub take_spare : List Str → List Reply → SparePool → Option Str × SparePool
take_spare bound [] p = (none, p)
take_spare bound (reply ∷ replies) p =
    let (found, claiming) = pop_claim bound p in
    elim found [
      | none ↦ (none, claiming)
      | some id ↦ elim (is_usable reply) [
        | true ↦ (some id, claiming)
        | false ↦ take_spare bound replies (unclaim id claiming)
      ]
    ]

-- `release_failed` before its kill, and after a kill that is confirmed.
unfoldable pub release_start : Str → SparePool → SparePool
release_start id p = record p { ready = without id p.ready; sick_since = remove id p.sick_since }

unfoldable pub release_killed : Str → SparePool → SparePool
release_killed id p = record p { claimed = without id p.claimed }

-- The ids that `publish` puts on the shelf, each once.
unfoldable pub shelve : List Str → List Str → List Str → List Str → List Str
shelve bound claimed seen [] = []
shelve bound claimed seen (id ∷ ids) =
    let skipped = shelve bound claimed seen ids in
    let kept = shelve bound claimed (id ∷ seen) ids in
    if is_taken bound claimed id || contains seen id then skipped else id ∷ kept

unfoldable pub publish : List Str → List Str → SparePool → SparePool
publish ids bound p = record p { ready = shelve bound p.claimed [] ids }
