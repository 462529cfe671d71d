-- ===== src/Entries/Oldest.antt =====
-- src/registry.rs: the order in which `reap_idle` takes idle entries.
use pg_fc.Base.{
  leb, Bool-cases, length, take, drop, All, Any, All-map, Str, ℕ, zero, suc, ◌≤◌, ◌≡◌, refl, sym,
  ap, ◌⊎◌, inl, inr, List, [], ◌∷◌, ◌++◌, arith,
}
use pg_fc.Entries.{insert_oldest, oldest_first}

module _ (P : Str × ℕ → Type 0) where
  insert_oldest-All :
      (x : Str × ℕ) (ys : List (Str × ℕ)) → P x → All P ys → All P (insert_oldest x ys)
  unfolding insert_oldest
  insert_oldest-All x [] p a = (p, tt)
  insert_oldest-All x (y ∷ ys) p a = elim (Bool-cases (leb y.1 x.1)) [
    | inl l ↦ rw (l, insert_oldest) (p, a)
    | inr l ↦ rw (l, insert_oldest) (a.0, insert_oldest-All x ys p a.1)
  ]

  pub oldest_first-All : (xs : List (Str × ℕ)) → All P xs → All P (oldest_first xs)
  unfolding oldest_first
  oldest_first-All [] a = tt
  oldest_first-All (x ∷ xs) a = insert_oldest-All x (oldest_first xs) a.0 (oldest_first-All xs a.1)

  drop-All : (n : ℕ) (xs : List (Str × ℕ)) → All P xs → All P (drop n xs)
  drop-All zero xs a = a
  drop-All (suc n) [] a = tt
  drop-All (suc n) (x ∷ xs) a = drop-All n xs a.1

-- Every one is as old as each behind it.
abbrev pub IsOldestFirst : List (Str × ℕ) → Type 0
IsOldestFirst [] = Unit
IsOldestFirst (x ∷ xs) = All (λ y. y.1 ≤ x.1) xs × IsOldestFirst xs

insert_oldest-IsOldestFirst :
    (x : Str × ℕ) (ys : List (Str × ℕ)) → IsOldestFirst ys → IsOldestFirst (insert_oldest x ys)
unfolding insert_oldest
insert_oldest-IsOldestFirst x [] h = (tt, tt)
insert_oldest-IsOldestFirst x (y ∷ ys) h = elim (Bool-cases (leb y.1 x.1)) [
  | inl l ↦
      let le : y.1 ≤ x.1 = ground (arith, l) in
      rw (l, insert_oldest) ((le, All-map _ _ ys (λ z a. omega (arith, a, le)) h.0), h)
  | inr l ↦
      rw (l, insert_oldest)
        (
          insert_oldest-All (λ z. z.1 ≤ y.1) x ys (ground (arith, l)) h.0,
          insert_oldest-IsOldestFirst x ys h.1,
        )
]

pub oldest_first-IsOldestFirst : (xs : List (Str × ℕ)) → IsOldestFirst (oldest_first xs)
unfolding oldest_first
oldest_first-IsOldestFirst [] = tt
oldest_first-IsOldestFirst (x ∷ xs) =
    insert_oldest-IsOldestFirst x (oldest_first xs) (oldest_first-IsOldestFirst xs)

pub split_oldest :
    (n : ℕ) (xs : List (Str × ℕ))
    → IsOldestFirst xs
    → All (λ v. All (λ y. y.1 ≤ v.1) (drop n xs)) (take n xs)
split_oldest zero xs h = tt
split_oldest (suc n) [] h = tt
split_oldest (suc n) (x ∷ xs) h = (drop-All (λ y. y.1 ≤ x.1) n xs h.0, split_oldest n xs h.1)

-- The same for an element that is somewhere.
module _ (P : Str × ℕ → Type 0) where
  pub Any-right : (xs ys : List (Str × ℕ)) → Any P ys → Any P (xs ++ ys)
  Any-right [] ys a = a
  Any-right (x ∷ xs) ys a = inr (Any-right xs ys a)

  insert_oldest-Any :
      (x : Str × ℕ) (ys : List (Str × ℕ)) → P x ⊎ Any P ys → Any P (insert_oldest x ys)
  unfolding insert_oldest
  insert_oldest-Any x [] a = a
  insert_oldest-Any x (y ∷ ys) a = elim (Bool-cases (leb y.1 x.1)) [
    | inl l ↦ rw (l, insert_oldest) a
    | inr l ↦
        rw (l, insert_oldest)
          (elim a [
            | inl p ↦ inr (insert_oldest-Any x ys (inl p))
            | inr (inl p) ↦ inl p
            | inr (inr p) ↦ inr (insert_oldest-Any x ys (inr p))
          ])
  ]

  pub oldest_first-Any : (xs : List (Str × ℕ)) → Any P xs → Any P (oldest_first xs)
  unfolding oldest_first
  oldest_first-Any [] a = a
  oldest_first-Any (x ∷ xs) (inl p) = insert_oldest-Any x (oldest_first xs) (inl p)
  oldest_first-Any (x ∷ xs) (inr p) =
      insert_oldest-Any x (oldest_first xs) (inr (oldest_first-Any xs p))

  pub take_or_drop :
      (n : ℕ) (xs : List (Str × ℕ))
      → Any P xs
      → Any P (take n xs) ⊎ ((length (take n xs) ≡ n) × Any P (drop n xs))
  take_or_drop zero xs a = inr (refl, a)
  take_or_drop (suc n) [] a = absurd a
  take_or_drop (suc n) (x ∷ xs) (inl p) = inl (inl p)
  take_or_drop (suc n) (x ∷ xs) (inr a) = elim (take_or_drop n xs a) [
    | inl p ↦ inl (inr p)
    | inr (l, p) ↦ inr (ap suc l, p)
  ]

pub at_any :
    (P : Str × ℕ → Type 0) (x : Str × ℕ) (xs : List (Str × ℕ))
    → All P xs
    → Any (λ y. y ≡ x) xs
    → P x
at_any P x [] h a = absurd a
at_any P x (y ∷ ys) h (inl e) = rw (sym e) h.0
at_any P x (y ∷ ys) h (inr a) = at_any P x ys h.1 a
