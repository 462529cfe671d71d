-- ===== src/Spares/Steps/Exclusive.antt =====
-- src/spares.rs: no spare is in two hands, whatever the tasks do.
use pg_fc.Base.{
  Bool-cases, All, All-middle, Str, str_eq_refl, str_eq_iff, contains, ℕ, ◌≡◌, refl, sym, inl, inr,
  true, false, ◌||◌, Option, none, some, List, [], ◌∷◌, ◌++◌, arith,
}
use pg_fc.Spares.{
  SparePool, new_pool, without, is_taken, pop_ready, claimed_pool, pop_claim, unclaim,
  release_start, release_killed, shelve, publish,
}
use pg_fc.Spares.Sets.{
  IsNodup, AllClaimed, IsNodup-without, All-without, free_without, free_cons, claimed_cons,
  claimed_without, not_held, IsNodup-middle,
}
use pg_fc.Spares.Steps.{
  World, Step, claims, finds_none, puts_back, starts_release, kills, publishes, Run, begins,
  continues,
}

-- What is in somebody's hands is claimed and is in one pair of hands; the shelf holds nothing that is
-- claimed, and nothing twice.
pub record IsExclusive (w : World) : Type 0 where
  pub held_once : IsNodup w.held
  pub held_claimed : AllClaimed true w.pool.claimed w.held
  pub ready_once : IsNodup w.pool.ready
  pub ready_free : AllClaimed false w.pool.claimed w.pool.ready

-- What is popped was not claimed, and is not on the shelf any more.
pub record Popped (bound claimed : List Str) (id : Str) (rest : List Str) : Type 0 where
  pub unclaimed : contains claimed id ≡ false
  pub unbound : contains bound id ≡ false
  pub off_shelf : contains rest id ≡ false
  pub rest_once : IsNodup rest
  pub rest_free : AllClaimed false claimed rest

pub pop_ready-Popped :
    (bound claimed ready : List Str) (id : Str) (rest : List Str)
    → IsNodup ready
    → AllClaimed false claimed ready
    → pop_ready bound claimed ready ≡ some (id, rest)
    → Popped bound claimed id rest
unfolding pop_ready is_taken
pop_ready-Popped bound claimed [] id rest n f h = cc
pop_ready-Popped bound claimed (x ∷ ready) id rest n f h = elim (Bool-cases (contains bound x)) [
  | inl e ↦ pop_ready-Popped bound claimed ready id rest n.1 f.1 (ground arith)
  | inr e ↦
      let x_id : x ≡ id = ground arith in
      let same : ready ≡ rest = ground arith in
      rw (sym x_id, sym same)
        (record { unclaimed = f.0; unbound = e; off_shelf = n.0; rest_once = n.1; rest_free = f.1 })
]

contains-cons : (x : Str) (xs : List Str) → contains (x ∷ xs) x ≡ true
unfolding contains
contains-cons x xs = ground (arith, str_eq_refl x)

-- What a claim leaves, whether it found a spare or not.
claimed_IsExclusive :
    (bound : List Str) (found : Option (Str × List Str)) (w : World) (id : Str) (p : SparePool)
    → pop_ready bound w.pool.claimed w.pool.ready ≡ found
    → claimed_pool found w.pool ≡ (some id, p)
    → IsExclusive w
    → IsExclusive (record { pool = p; held = id ∷ w.held })
unfolding claimed_pool
claimed_IsExclusive bound none w id p e h v = cc
claimed_IsExclusive bound (some (x, rest)) w id p e h v =
    let q = pop_ready-Popped bound w.pool.claimed w.pool.ready x rest v.ready_once v.ready_free e in
    let x_id : x ≡ id = cc in
    let pool : record w.pool { claimed = x ∷ w.pool.claimed; ready = rest } ≡ p = cc in
    rw (sym x_id, sym pool)
      (record {
        held_once = (not_held x w.pool.claimed w.held q.unclaimed v.held_claimed, v.held_once);
        held_claimed =
            (contains-cons x w.pool.claimed, claimed_cons x w.pool.claimed w.held v.held_claimed);
        ready_once = q.rest_once;
        ready_free = free_cons x w.pool.claimed rest q.off_shelf q.rest_free;
      })

empty_IsExclusive :
    (found : Option (Str × List Str)) (w : World) (p : SparePool)
    → claimed_pool found w.pool ≡ (none, p)
    → IsExclusive w
    → IsExclusive (record w { pool = p })
unfolding claimed_pool
empty_IsExclusive none w p h v =
    let pool : record w.pool { ready = [] } ≡ p = cc in
    rw (sym pool) (record {
      held_once = v.held_once;
      held_claimed = v.held_claimed;
      ready_once = tt;
      ready_free = tt;
    })
empty_IsExclusive (some x) w p h v = cc

-- A spare leaves the hands it was in, and the set of the claimed.
released_IsExclusive :
    (before after : List Str) (id : Str) (w : World)
    → w.held ≡ before ++ id ∷ after
    → IsExclusive w
    → IsExclusive (record {
      pool = record w.pool { claimed = without id w.pool.claimed };
      held = before ++ after;
    })
released_IsExclusive before after id w e v =
    let (gone, once) = IsNodup-middle before id after (rw e at v.held_once) in
    let claimed =
      All-middle (λ x. contains w.pool.claimed x ≡ true) before id after (rw e at v.held_claimed) in
    record {
      held_once = once;
      held_claimed = claimed_without id w.pool.claimed (before ++ after) gone claimed.1;
      ready_once = v.ready_once;
      ready_free = free_without id w.pool.claimed w.pool.ready v.ready_free;
    }

unseen_one :
    (id : Str) (seen xs : List Str)
    → All (λ x. contains (id ∷ seen) x ≡ false) xs
    → (contains xs id ≡ false) × All (λ x. contains seen x ≡ false) xs
unfolding contains
unseen_one id seen [] h = (refl, tt)
unseen_one id seen (x ∷ xs) h =
    let (a, b) = unseen_one id seen xs h.1 in
    (ground (arith, str_eq_iff x id, str_eq_iff id x, h.0), (ground (arith, h.0), b))

-- What is put on the shelf: nothing twice, nothing claimed, nothing seen before.
record Shelved (claimed seen xs : List Str) : Type 0 where
  once : IsNodup xs
  free : AllClaimed false claimed xs
  unseen : All (λ x. contains seen x ≡ false) xs

shelve-Shelved :
    (bound claimed seen ids : List Str) → Shelved claimed seen (shelve bound claimed seen ids)
unfolding shelve
shelve-Shelved bound claimed seen [] = record { once = tt; free = tt; unseen = tt }
shelve-Shelved bound claimed seen (id ∷ ids) =
    elim (Bool-cases (is_taken bound claimed id || contains seen id)) [
      | inl e ↦ rw (e, shelve) (shelve-Shelved bound claimed seen ids)
      | inr e ↦
          let kept = shelve-Shelved bound claimed (id ∷ seen) ids in
          let (new, unseen) =
            unseen_one id seen (shelve bound claimed (id ∷ seen) ids) kept.unseen in
          rw (e, shelve)
            (record {
              once = (new, kept.once);
              free = (unfold is_taken in ground arith, kept.free);
              unseen = (ground arith, unseen);
            })
    ]

Step-IsExclusive : {w u : World} → Step w u → IsExclusive w → IsExclusive u
unfolding pop_claim unclaim release_start release_killed publish
Step-IsExclusive {w} (claims bound id p e) v =
    claimed_IsExclusive bound (pop_ready bound w.pool.claimed w.pool.ready) w id p refl e v
Step-IsExclusive {w} (finds_none bound p e) v =
    empty_IsExclusive (pop_ready bound w.pool.claimed w.pool.ready) w p e v
Step-IsExclusive {w} (puts_back before after id e) v = released_IsExclusive before after id w e v
Step-IsExclusive {w} (starts_release id) v = record {
  held_once = v.held_once;
  held_claimed = v.held_claimed;
  ready_once = IsNodup-without id w.pool.ready v.ready_once;
  ready_free = All-without (λ x. contains w.pool.claimed x ≡ false) id w.pool.ready v.ready_free;
}
Step-IsExclusive {w} (kills before after id e) v = released_IsExclusive before after id w e v
Step-IsExclusive {w} (publishes ids bound) v =
    let s = shelve-Shelved bound w.pool.claimed [] ids in
    record {
      held_once = v.held_once;
      held_claimed = v.held_claimed;
      ready_once = s.once;
      ready_free = s.free;
    }

-- In every state that the tasks reach, in any order of claims, failed confirmations, releases and
-- replenish passes: a spare is in one pair of hands at most, whoever holds one has it claimed, and
-- the shelf from which the next claim is served holds no spare that is claimed and none twice.
pub Run-IsExclusive : (target : ℕ) (w : World) → Run target w → IsExclusive w
unfolding new_pool
Run-IsExclusive target w begins = record {
  held_once = tt;
  held_claimed = tt;
  ready_once = tt;
  ready_free = tt;
}
Run-IsExclusive target u (continues {w} st r) = Step-IsExclusive st (Run-IsExclusive target w r)
