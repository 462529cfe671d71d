-- ===== src/Tests/Spares.antt =====
-- src/spares.rs at fixed inputs.
use pg_fc.Base.{
  length, All, Str, str, str_eq, contains, IsDistinct, get, insert, ◌≤◌, ◌≡◌, refl, Bool, true,
  false, some, List, [], ◌∷◌,
}
use pg_fc.Spares.{
  SparePool, new_pool, running, not_found, flaking, pop_claim, is_taken, take_spare, publish,
  is_usable, without, claimed_pool, pop_ready, unclaim, shelve,
}
use pg_fc.Spares.Plan.{plan_replenish, ReplenishPlan}
use pg_fc.Spares.Steps.{World, Run, begins, continues, publishes, claims}
use pg_fc.Spares.Steps.Exclusive.{IsExclusive, Run-IsExclusive}
use pg_fc.Spares.Culling.{
  max_culls, IsLongSick, cull_sick, cull_sick-IsLongSick, doom, still_sick, mark_sick, since_of,
}
use pg_fc.Spares.Taking.{Takes, take_spare-Takes}

abbrev shelf : SparePool
shelf = record {
  target = 3;
  claimed = str "s0" ∷ [];
  ready = str "s1" ∷ str "s2" ∷ str "s3" ∷ [];
  sick_since = [];
}

-- The first is bound, the second gone.
take_third : (take_spare (str "s1" ∷ []) (not_found ∷ running ∷ []) shelf).0 ≡ some (str "s3")
unfolding take_spare pop_claim claimed_pool pop_ready is_taken contains str_eq is_usable unclaim
    without
take_third = refl

take_spare-Takes_example :
    Takes (str "s1" ∷ []) shelf (take_spare (str "s1" ∷ []) (not_found ∷ flaking ∷ []) shelf)
unfolding contains str_eq
take_spare-Takes_example =
    take_spare-Takes (str "s1" ∷ []) (not_found ∷ flaking ∷ []) shelf
      ((refl, (refl, (refl, tt))), (refl, (refl, (refl, tt))))

abbrev spares : List (Str × Bool)
spares = (str "a", true) ∷ (str "b", false) ∷ (str "c", false) ∷ (str "d", false) ∷ []

abbrev plan : ReplenishPlan
plan = plan_replenish spares (str "d" ∷ []) [] 2

after_publish : World
after_publish = record {
  pool = publish (str "s1" ∷ str "s2" ∷ str "s1" ∷ []) [] (new_pool 2);
  held = [];
}

after_claim : World
after_claim = record { pool = (pop_claim [] after_publish.pool).1; held = str "s1" ∷ [] }

Run-claim : Run 2 after_claim
unfolding after_claim after_publish pop_claim pop_ready claimed_pool publish shelve new_pool
    contains is_taken str_eq
Run-claim =
    continues {w = after_publish} (claims [] (str "s1") after_claim.pool refl)
      (continues (publishes (str "s1" ∷ str "s2" ∷ str "s1" ∷ []) []) begins)

Run-IsExclusive_example : IsExclusive after_claim
Run-IsExclusive_example = Run-IsExclusive 2 after_claim Run-claim

abbrev sick_pool : SparePool
sick_pool = record shelf { sick_since = (str "s8", 100) ∷ (str "s9", 350) ∷ [] }

cull_one :
    (cull_sick 400 (λ id. true) (str "s8" ∷ str "s9" ∷ str "s7" ∷ []) sick_pool).0 ≡ str "s8" ∷ []
unfolding cull_sick doom still_sick mark_sick since_of contains str_eq get insert
cull_one = refl

sick_pool-IsDistinct : IsDistinct sick_pool.sick_since
unfolding get str_eq
sick_pool-IsDistinct = (refl, (refl, tt))

cull_sick-IsLongSick_example :
    All
      (IsLongSick 400 (str "s8" ∷ str "s9" ∷ []) sick_pool.sick_since)
      (cull_sick 400 (λ id. true) (str "s8" ∷ str "s9" ∷ []) sick_pool).0
    × (length (cull_sick 400 (λ id. true) (str "s8" ∷ str "s9" ∷ []) sick_pool).0 ≤ max_culls)
cull_sick-IsLongSick_example =
    cull_sick-IsLongSick 400 (λ id. true) (str "s8" ∷ str "s9" ∷ []) sick_pool sick_pool-IsDistinct
