-- ===== src/Spares/Sets.antt =====
-- src/spares.rs: the laws of the sets of ids.
use pg_fc.Base.{
  if◌then◌else◌, Bool-cases, All, All-map, Str, str_eq_iff, str_eq, contains, ◌≡◌, refl, inl, inr,
  Bool, true, false, ◌||◌, List, [], ◌∷◌, ◌++◌, arith,
}
use pg_fc.Spares.{without}

-- No id stands twice.
abbrev pub IsNodup : List Str → Type 0
IsNodup [] = Unit
IsNodup (x ∷ xs) = (contains xs x ≡ false) × IsNodup xs

-- All of a list are claimed, or none of it is.
abbrev pub AllClaimed : Bool → List Str → List Str → Type 0
AllClaimed b claimed = All (λ id. contains claimed id ≡ b)

pub contains-without :
    (i : Str) (xs : List Str) (j : Str)
    → contains (without i xs) j ≡ (if str_eq i j then false else contains xs j)
unfolding contains without
contains-without i [] j = ground arith
contains-without i (x ∷ xs) j =
    ground (arith, contains-without i xs j, str_eq_iff i j, str_eq_iff i x, str_eq_iff x j)

pub IsNodup-without : (i : Str) (xs : List Str) → IsNodup xs → IsNodup (without i xs)
unfolding without
IsNodup-without i [] h = tt
IsNodup-without i (x ∷ xs) h = elim (Bool-cases (str_eq i x)) [
  | inl e ↦ rw (e, without) (IsNodup-without i xs h.1)
  | inr e ↦ rw (e, without) (ground (arith, contains-without i xs x), IsNodup-without i xs h.1)
]

pub All-without : (P : Str → Type 0) (i : Str) (xs : List Str) → All P xs → All P (without i xs)
unfolding without
All-without P i [] h = tt
All-without P i (x ∷ xs) h = elim (Bool-cases (str_eq i x)) [
  | inl e ↦ rw (e, without) (All-without P i xs h.1)
  | inr e ↦ rw (e, without) (h.0, All-without P i xs h.1)
]

-- Fewer are claimed: what was free stays free.
pub free_without :
    (i : Str) (claimed xs : List Str)
    → AllClaimed false claimed xs
    → AllClaimed false (without i claimed) xs
free_without i claimed xs =
    All-map (λ j. contains claimed j ≡ false) (λ j. contains (without i claimed) j ≡ false) xs
      (λ j h. ground (arith, contains-without i claimed j))

-- One more is claimed, which is not on the list.
pub free_cons :
    (i : Str) (claimed xs : List Str)
    → contains xs i ≡ false
    → AllClaimed false claimed xs
    → AllClaimed false (i ∷ claimed) xs
unfolding contains
free_cons i claimed [] n h = tt
free_cons i claimed (x ∷ xs) n h =
    (ground (arith, str_eq_iff i x, str_eq_iff x i), free_cons i claimed xs (ground arith) h.1)

pub claimed_cons :
    (i : Str) (claimed xs : List Str)
    → AllClaimed true claimed xs
    → AllClaimed true (i ∷ claimed) xs
unfolding contains
claimed_cons i claimed xs =
    All-map (λ j. contains claimed j ≡ true) (λ j. contains (i ∷ claimed) j ≡ true) xs
      (λ j h. ground arith)

pub claimed_without :
    (i : Str) (claimed xs : List Str)
    → contains xs i ≡ false
    → AllClaimed true claimed xs
    → AllClaimed true (without i claimed) xs
unfolding contains
claimed_without i claimed [] n h = tt
claimed_without i claimed (x ∷ xs) n h = (
  ground (arith, contains-without i claimed x, str_eq_iff i x, str_eq_iff x i),
  claimed_without i claimed xs (ground arith) h.1,
)

-- Who is not claimed is not on a list of claimed ones.
pub not_held :
    (i : Str) (claimed xs : List Str)
    → contains claimed i ≡ false
    → AllClaimed true claimed xs
    → contains xs i ≡ false
unfolding contains
not_held i claimed [] n h = refl
not_held i claimed (x ∷ xs) n h = ground (arith, str_eq_iff x i, not_held i claimed xs n h.1)

pub contains-append :
    (xs ys : List Str) (i : Str) → contains (xs ++ ys) i ≡ (contains xs i || contains ys i)
unfolding contains
contains-append [] ys i = refl
contains-append (x ∷ xs) ys i = ground (arith, contains-append xs ys i)

-- The one in the middle is nowhere else.
pub IsNodup-middle :
    (xs : List Str) (i : Str) (ys : List Str)
    → IsNodup (xs ++ i ∷ ys)
    → (contains (xs ++ ys) i ≡ false) × IsNodup (xs ++ ys)
unfolding contains
IsNodup-middle [] i ys h = h
IsNodup-middle (x ∷ xs) i ys h =
    let (gone, rest) = IsNodup-middle xs i ys h.1 in
    let a = contains-append xs (i ∷ ys) x in
    let b = contains-append xs ys x in
    (ground (arith, str_eq_iff x i, str_eq_iff i x), (ground (arith, str_eq_iff i x), rest))
