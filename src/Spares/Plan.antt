-- ===== src/Spares/Plan.antt =====
-- src/spares.rs: `plan_replenish`.
use pg_fc.Base.{
  leb, if◌then◌else◌, length, take, drop, All, Str, ℕ, zero, suc, ◌+◌, ◌-◌, ◌≤◌, ◌≡◌, refl, ap, ◌⊎◌,
  inl, inr, Bool, true, false, not, ◌&&◌, List, [], ◌∷◌, ◌++◌, arith,
}
use pg_fc.Spares.{is_taken}

pub record ReplenishPlan : Type 0 where
  pub start : List Str
  pub create : ℕ
  pub delete : List Str

same : Bool → Bool → Bool
same true up = up
same false up = not up

-- The free spares that are running, or that are not.
pub free_spares : Bool → List Str → List Str → List (Str × Bool) → List Str
free_spares up bound claimed [] = []
free_spares up bound claimed ((id, is_up) ∷ spares) =
    let rest = free_spares up bound claimed spares in
    if same up is_up && not (is_taken bound claimed id) then id ∷ rest else rest

pub plan_replenish : List (Str × Bool) → List Str → List Str → ℕ → ReplenishPlan
plan_replenish spares bound claimed target =
    let stopped = free_spares false bound claimed spares in
    let deficit = target - length (free_spares true bound claimed spares) in
    record {
      start = take deficit stopped;
      create = deficit - length (take deficit stopped);
      delete = drop deficit stopped;
    }

take-append-drop : (n : ℕ) (xs : List Str) → take n xs ++ drop n xs ≡ xs
take-append-drop zero xs = refl
take-append-drop (suc n) [] = refl
take-append-drop (suc n) (x ∷ xs) = ap (λ l. x ∷ l) (take-append-drop n xs)

-- A prefix is as long as was asked, or it is the whole list.
length-take_or_all :
    (n : ℕ) (xs : List Str)
    → (length (take n xs) ≡ n) ⊎ ((length (take n xs) ≤ n) × (drop n xs ≡ []))
length-take_or_all zero xs = inl refl
length-take_or_all (suc n) [] = inr (omega arith, refl)
length-take_or_all (suc n) (x ∷ xs) = ground (arith, length-take_or_all n xs)

free_spares-All :
    (up : Bool) (bound claimed : List Str) (spares : List (Str × Bool))
    → All (λ id. is_taken bound claimed id ≡ false) (free_spares up bound claimed spares)
unfolding free_spares
free_spares-All up bound claimed [] = tt
free_spares-All up bound claimed ((id, is_up) ∷ spares) =
    ground (arith, free_spares-All up bound claimed spares)

-- A plan brings the free running spares to the target where they are below it and starts nothing
-- where they are not; it starts and deletes only spares that are stopped, neither bound nor claimed,
-- and decides on every one of those; and it deletes none while it has to create one.
pub plan_replenish_lem :
    (spares : List (Str × Bool)) (bound claimed : List Str) (target : ℕ)
    → let plan = plan_replenish spares bound claimed target in
      let running = length (free_spares true bound claimed spares) in
      (running + (length plan.start + plan.create)
        ≡ (if leb running target then target else running))
      × (plan.start ++ plan.delete ≡ free_spares false bound claimed spares)
      × All (λ id. is_taken bound claimed id ≡ false) (plan.start ++ plan.delete)
      × ((plan.create ≡ 0) ⊎ (plan.delete ≡ []))
unfolding plan_replenish
plan_replenish_lem spares bound claimed target =
    let stopped = free_spares false bound claimed spares in
    let deficit = target - length (free_spares true bound claimed spares) in
    let whole = take-append-drop deficit stopped in
    (
      ground (arith, length-take_or_all deficit stopped),
      whole,
      rw whole (free_spares-All false bound claimed spares),
      ground (arith, length-take_or_all deficit stopped),
    )
