-- ===== src/Store/Locks.antt =====
-- src/store.rs: the two mutexes, `map` and `bound_cache`, as `put` and `bound_ids` take them. `put`
-- holds the map while it clears the cache; `bound_ids` holds the cache while it reads the map.

use pg_fc.Base.{if◌then◌else◌, ◌≡◌, refl, ◌↔◌, ◌⊎◌, Bool, true, false, Option, none, some, arith}

-- Where a `put` with a new binding is: it takes the map, then the cache, and drops both.
pub data PutAt : Type 0 where
  put_waits put_has_map put_has_both put_done : PutAt

-- Where a `bound_ids` that finds no cached set is: it takes the cache, then the map.
pub data BoundAt : Type 0 where
  bound_waits bound_has_cache bound_has_both bound_done : BoundAt

pub record Locks : Type 0 where
  pub putter : PutAt
  pub binder : BoundAt

map_taken_by_binder : BoundAt → Bool
map_taken_by_binder bound_has_both = true
map_taken_by_binder _ = false

cache_taken_by_binder : BoundAt → Bool
cache_taken_by_binder bound_has_cache = true
cache_taken_by_binder bound_has_both = true
cache_taken_by_binder _ = false

map_taken_by_putter : PutAt → Bool
map_taken_by_putter put_has_map = true
map_taken_by_putter put_has_both = true
map_taken_by_putter _ = false

cache_taken_by_putter : PutAt → Bool
cache_taken_by_putter put_has_both = true
cache_taken_by_putter _ = false

-- One lock taken, or all dropped, by either task. A lock that the other holds is waited for.
pub step_putter : Locks → Option Locks
step_putter l = elim l.putter [
  | put_waits ↦
      if map_taken_by_binder l.binder then none else some (record l { putter = put_has_map })
  | put_has_map ↦
      if cache_taken_by_binder l.binder then none else some (record l { putter = put_has_both })
  | put_has_both ↦ some (record l { putter = put_done })
  | put_done ↦ none
]

pub step_binder : Locks → Option Locks
step_binder l = elim l.binder [
  | bound_waits ↦
      if cache_taken_by_putter l.putter then none else some (record l { binder = bound_has_cache })
  | bound_has_cache ↦
      if map_taken_by_putter l.putter then none else some (record l { binder = bound_has_both })
  | bound_has_both ↦ some (record l { binder = bound_done })
  | bound_done ↦ none
]

abbrev pub entered : Locks
entered = record { putter = put_waits; binder = bound_waits }

abbrev pub deadlocked : Locks
deadlocked = record { putter = put_has_map; binder = bound_has_cache }

abbrev pub finished : Locks
finished = record { putter = put_done; binder = bound_done }

pub data Reach : Locks → Type 0 where
  start : Reach entered
  by_putter : {l m : Locks} → Reach l → step_putter l ≡ some m → Reach m
  by_binder : {l m : Locks} → Reach l → step_binder l ≡ some m → Reach m

stuck_states :
    (l : Locks)
    → ((step_putter l ≡ none) × (step_binder l ≡ none)) ↔ ((l ≡ deadlocked) ⊎ (l ≡ finished))
unfolding step_putter step_binder map_taken_by_binder cache_taken_by_binder map_taken_by_putter
    cache_taken_by_putter
stuck_states l = (λ h. ground arith, λ h. (ground arith, ground arith))

-- The two tasks block each other for ever in one reachable state, `put` holding the map and
-- `bound_ids` the cache: it is reached, neither can move, and every other state in which neither can
-- move is the one where both are done.
pub put_bound_ids_deadlock :
    Reach deadlocked
    × ((l : Locks)
        → ((step_putter l ≡ none) × (step_binder l ≡ none)) ↔ ((l ≡ deadlocked) ⊎ (l ≡ finished)))
unfolding step_putter step_binder map_taken_by_binder cache_taken_by_putter
put_bound_ids_deadlock = (by_binder (by_putter start refl) refl, stuck_states)
