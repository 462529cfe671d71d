-- ===== src/Spares/Culling.antt =====
-- src/spares.rs: `cull_sick`, with one reading of the clock, in seconds.
use pg_fc.Base.{
  leb, if◌then◌else◌, Bool-cases, Option-cases, length, take, All, All-map, All-take, length-take,
  Str, str_eq_refl, str_eq_iff, contains, Map, get-insert, IsDistinct, get, insert, remove, ℕ, ◌-◌,
  ◌≤◌, ◌≡◌, refl, ◌⊎◌, inl, inr, Bool, true, Option, none, some, List, [], ◌∷◌, arith,
}
use pg_fc.Spares.{SparePool}

abbrev pub sick_grace : ℕ
sick_grace = 300

abbrev pub max_culls : ℕ
max_culls = 2

-- `since.retain(…)`.
unfoldable pub still_sick : List Str → Map ℕ → Map ℕ
still_sick sick [] = []
still_sick sick ((id, t) ∷ m) =
    let rest = still_sick sick m in if contains sick id then (id, t) ∷ rest else rest

-- `entry(id).or_insert(now)`.
unfoldable pub since_of : Option ℕ → ℕ → ℕ
since_of none now = now
since_of (some t) now = t

unfoldable pub mark_sick : Str → ℕ → Map ℕ → Map ℕ
mark_sick id now since = insert id (since_of (get id since) now) since

-- The spares that have been sick for the whole grace, and the marks.
unfoldable pub doom : ℕ → List Str → Map ℕ → List Str × Map ℕ
doom now [] since = ([], since)
doom now (id ∷ sick) since =
    let (rest, marks) = doom now sick (mark_sick id now since) in
    ((if leb sick_grace (now - since_of (get id since) now) then id ∷ rest else rest), marks)

-- What the marks are after the kills, of which some fail.
unfoldable pub unmark : List Str → (Str → Bool) → Map ℕ → Map ℕ
unmark [] killed since = since
unmark (id ∷ ids) killed since = unmark ids killed (if killed id then remove id since else since)

unfoldable pub cull_sick : ℕ → (Str → Bool) → List Str → SparePool → List Str × SparePool
unfolding doom unmark still_sick
cull_sick now killed sick p =
    let (doomed, marks) = doom now sick (still_sick sick p.sick_since) in
    let dying = take max_culls doomed in
    (dying, record p { sick_since = unmark dying killed marks })

-- Sick in this pass, and marked by an earlier one that is as long ago as the grace.
abbrev pub IsLongSick : ℕ → List Str → Map ℕ → Str → Type 0
IsLongSick now sick since id =
    (contains sick id ≡ true) × ((t : ℕ) × (get id since ≡ some t) × (sick_grace ≤ now - t))

get-still_sick :
    (sick : List Str) (m : Map ℕ) (id : Str) (t : ℕ)
    → IsDistinct m
    → get id (still_sick sick m) ≡ some t
    → get id m ≡ some t
unfolding still_sick get
get-still_sick sick [] id t d h = cc
get-still_sick sick ((j, x) ∷ m) id t d h =
    ground (arith, get-still_sick sick m id t d.1, str_eq_iff j id, d.0)

-- A mark of the time before is one that was there, in the map that the loop began with.
abbrev OldMarks : ℕ → Map ℕ → Map ℕ → Type 0
OldMarks now since m = (id : Str) (t : ℕ) → get id m ≡ some t → (get id since ≡ some t) ⊎ (t ≡ now)

since_of-none : (now : ℕ) → since_of none now ≡ now
unfolding since_of
since_of-none now = refl

since_of-some : (t now : ℕ) → since_of (some t) now ≡ t
unfolding since_of
since_of-some t now = refl

mark_sick-OldMarks :
    (now : ℕ) (since m : Map ℕ) (id : Str)
    → OldMarks now since m
    → OldMarks now since (mark_sick id now m)
unfolding mark_sick
mark_sick-OldMarks now since m id old j t h = elim (Option-cases (get id m)) [
  | inl e ↦ ground (arith, get-insert id j (since_of (get id m) now) m, old j t, since_of-none now)
  | inr (x, e) ↦ ground (
    arith,
    get-insert id j (since_of (get id m) now) m,
    old j t,
    str_eq_iff id j,
    since_of-some x now,
  )
]

long_sick :
    (now : ℕ) (all_sick : List Str) (since m : Map ℕ) (id : Str)
    → OldMarks now since m
    → contains all_sick id ≡ true
    → leb sick_grace (now - since_of (get id m) now) ≡ true
    → IsLongSick now all_sick since id
unfolding since_of
long_sick now all_sick since m id old h e = elim (Option-cases (get id m)) [
  | inl n ↦ absurd (ground arith)
  | inr (t, n) ↦ (h, (t, ground (arith, old id t n), ground arith))
]

contains-first : (x : Str) (xs : List Str) → contains (x ∷ xs) x ≡ true
unfolding contains
contains-first x xs = ground (arith, str_eq_refl x)

contains-later :
    (x : Str) (xs : List Str) (id : Str) → contains xs id ≡ true → contains (x ∷ xs) id ≡ true
unfolding contains
contains-later x xs id h = ground arith

doom-IsLongSick :
    (now : ℕ) (all_sick sick : List Str) (since m : Map ℕ)
    → OldMarks now since m
    → All (λ id. contains all_sick id ≡ true) sick
    → All (IsLongSick now all_sick since) (doom now sick m).0
unfolding doom
doom-IsLongSick now all_sick [] since m old h = tt
doom-IsLongSick now all_sick (id ∷ sick) since m old h =
    let rest =
      doom-IsLongSick now all_sick sick since (mark_sick id now m)
        (mark_sick-OldMarks now since m id old) h.1 in
    elim (Bool-cases (leb sick_grace (now - since_of (get id m) now))) [
      | inl e ↦ rw e (long_sick now all_sick since m id old h.0 e, rest)
      | inr e ↦ rw e rest
    ]

All-sick_are : (xs : List Str) → All (λ id. contains xs id ≡ true) xs
All-sick_are [] = tt
All-sick_are (x ∷ xs) = (
  contains-first x xs,
  All-map (λ id. contains xs id ≡ true) (λ id. contains (x ∷ xs) id ≡ true) xs (contains-later x xs)
      (All-sick_are xs),
)

-- With at most one mark for each spare, a pass deletes two spares at most, and only spares that
-- are sick in this pass and were already marked sick by an earlier one, five minutes ago or more.
pub cull_sick-IsLongSick :
    (now : ℕ) (killed : Str → Bool) (sick : List Str) (p : SparePool)
    → IsDistinct p.sick_since
    → All (IsLongSick now sick p.sick_since) (cull_sick now killed sick p).0
      × (length (cull_sick now killed sick p).0 ≤ max_culls)
unfolding cull_sick
cull_sick-IsLongSick now killed sick p d =
    let all_doomed = (doom now sick (still_sick sick p.sick_since)).0 in
    (
      All-take (IsLongSick now sick p.sick_since) max_culls all_doomed (
          doom-IsLongSick now sick sick p.sick_since (still_sick sick p.sick_since)
            (λ id t h. inl (get-still_sick sick p.sick_since id t d h)) (All-sick_are sick)),
      length-take max_culls all_doomed,
    )
