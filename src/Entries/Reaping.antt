-- ===== src/Entries/Reaping.antt =====
-- src/registry.rs: what one pass of the idle reaper takes out of the map.
use pg_fc.Base.{
  if◌then◌else◌, Bool-cases, length, take, drop, All, Any, All-append, All-map, All-take,
  length-take, Str, contains, get-remove, get, remove, ℕ, ◌≤◌, ◌≡◌, refl, ◌⊎◌, inl, inr, true,
  Option, none, some, List, [], ◌∷◌, ◌++◌, map, arith,
}
use pg_fc.Entries.{
  SchemaEntry, idle_for, is_idle, Entries, expired_cell, expired, oldest_first, remove_all,
  reap_idle, max_stops_per_pass,
}
use pg_fc.Entries.Oldest.{
  oldest_first-All, oldest_first-IsOldestFirst, IsOldestFirst, split_oldest, Any-right,
  oldest_first-Any, take_or_drop, at_any,
}

-- An entry of the map that is idle, with its age.
abbrev pub IsExpired : ℕ → (Str → ℕ) → Entries → Str × ℕ → Type 0
IsExpired now timeout m x =
    Any
      (λ c.
        (e : SchemaEntry) × (c.1 ≡ some e)
        × (c.0 ≡ x.0)
        × (idle_for now e ≡ x.1)
        × (is_idle now (timeout x.0) e ≡ true))
      m

expired_cell-IsExpired :
    (now : ℕ) (timeout : Str → ℕ) (schema : Str) (cell : Option SchemaEntry) (m : Entries)
    → All (IsExpired now timeout ((schema, cell) ∷ m)) (expired_cell now timeout schema cell)
unfolding expired_cell
expired_cell-IsExpired now timeout schema none m = tt
expired_cell-IsExpired now timeout schema (some e) m =
    elim (Bool-cases (is_idle now (timeout schema) e)) [
      | inl i ↦ rw (i, expired_cell) (inl (e, refl, refl, refl, i), tt)
      | inr i ↦ rw (i, expired_cell) tt
    ]

expired-IsExpired :
    (now : ℕ) (timeout : Str → ℕ) (m : Entries)
    → All (IsExpired now timeout m) (expired now timeout m)
unfolding expired
expired-IsExpired now timeout [] = tt
expired-IsExpired now timeout ((schema, cell) ∷ m) =
    All-append (IsExpired now timeout ((schema, cell) ∷ m)) (expired_cell now timeout schema cell)
      (expired now timeout m) (expired_cell-IsExpired now timeout schema cell m)
      (All-map (IsExpired now timeout m) (IsExpired now timeout ((schema, cell) ∷ m))
        (expired now timeout m) (λ x a. inr a) (expired-IsExpired now timeout m))

-- What holds of every idle entry of the map, by its name and its age.
abbrev pub AllIdle : ℕ → (Str → ℕ) → (Str × ℕ → Type 0) → Entries → Type 0
AllIdle now timeout P m =
    All
      (λ c.
        (e : SchemaEntry)
        → c.1 ≡ some e
        → is_idle now (timeout c.0) e ≡ true
        → P (c.0, idle_for now e))
      m

cell_found :
    (now : ℕ) (timeout : Str → ℕ) (schema : Str) (e : SchemaEntry) (cell : Option SchemaEntry)
    (rest : List (Str × ℕ))
    → cell ≡ some e
    → is_idle now (timeout schema) e ≡ true
    → Any (λ y. y ≡ (schema, idle_for now e)) (expired_cell now timeout schema cell ++ rest)
unfolding expired_cell
cell_found now timeout schema e cell rest same i = rw (same, expired_cell, i) (inl refl)

expired-AllIdle :
    (now : ℕ) (timeout : Str → ℕ) (m : Entries)
    → AllIdle now timeout (λ x. Any (λ y. y ≡ x) (expired now timeout m)) m
unfolding expired
expired-AllIdle now timeout [] = tt
expired-AllIdle now timeout ((schema, cell) ∷ m) = (
  λ e same i. cell_found now timeout schema e cell (expired now timeout m) same i,
  All-map _ _ m
      (λ c found e same i.
        Any-right (λ y. y ≡ (c.0, idle_for now e)) (expired_cell now timeout schema cell)
          (expired now timeout m) (found e same i))
      (expired-AllIdle now timeout m),
)

-- An idle entry is taken out, or as many as one pass takes are, none of them younger.
abbrev pub IsReaped : List (Str × ℕ) → Str × ℕ → Type 0
IsReaped victims x =
    Any (λ y. y ≡ x) victims
    ⊎ ((length victims ≡ max_stops_per_pass) × All (λ v. x.1 ≤ v.1) victims)

sorted-IsReaped :
    (sorted : List (Str × ℕ)) (x : Str × ℕ)
    → IsOldestFirst sorted
    → Any (λ y. y ≡ x) sorted
    → IsReaped (take max_stops_per_pass sorted) x
sorted-IsReaped sorted x h found =
    elim (take_or_drop (λ y. y ≡ x) max_stops_per_pass sorted found) [
      | inl t ↦ inl t
      | inr (full, d) ↦ inr (
        full,
        All-map _ _ (take max_stops_per_pass sorted)
            (λ v left. at_any (λ y. y.1 ≤ v.1) x (drop max_stops_per_pass sorted) left d)
            (split_oldest max_stops_per_pass sorted h),
      )
    ]

abbrev pub names : List (Str × ℕ) → List Str
names xs = map (λ x. x.0) xs

get-remove_all :
    (xs : List (Str × ℕ)) (m : Entries) (j : Str)
    → get j (remove_all xs m) ≡ (if contains (names xs) j then none else get j m)
unfolding remove_all contains
get-remove_all [] m j = refl
get-remove_all (x ∷ xs) m j = ground (arith, get-remove_all xs (remove x.0 m) j, get-remove x.0 j m)

-- One pass takes at most twenty-four entries out, all of them idle; every idle entry of the map is taken
-- out, unless twenty-four are, none of them younger than it; and every other entry of the map stays as
-- it was.
pub reap_idle_lem :
    (now : ℕ) (timeout : Str → ℕ) (m : Entries)
    → let (victims, rest) = reap_idle now timeout m in
      (length victims ≤ max_stops_per_pass)
      × All (IsExpired now timeout m) victims
      × AllIdle now timeout (IsReaped victims) m
      × ((j : Str) → get j rest ≡ (if contains (names victims) j then none else get j m))
unfolding reap_idle
reap_idle_lem now timeout m =
    let sorted = oldest_first (expired now timeout m) in
    (
      length-take max_stops_per_pass sorted,
      All-take (IsExpired now timeout m) max_stops_per_pass sorted (
          oldest_first-All (IsExpired now timeout m) (expired now timeout m)
            (expired-IsExpired now timeout m)),
      All-map _ _ m
          (λ c found e same i.
            sorted-IsReaped sorted (c.0, idle_for now e)
              (oldest_first-IsOldestFirst (expired now timeout m))
              (oldest_first-Any (λ y. y ≡ (c.0, idle_for now e)) (expired now timeout m)
                (found e same i)))
          (expired-AllIdle now timeout m),
      λ j. get-remove_all (take max_stops_per_pass sorted) m j,
    )
