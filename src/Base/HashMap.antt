-- ===== src/Base/HashMap.antt =====
-- `HashMap<String, V>` as an association list: the list's order stands for the order in which the
-- map is iterated, which the standard library leaves open.
use mathlib.Core.Path.{◌≡◌, refl}
use mathlib.Core.Bool.{Bool, true, false}
use mathlib.Core.List.{List, [], ◌∷◌, ◌++◌}
use mathlib.Core.Option.{Option, none, some}
use native.Mathlib.Omega.{arith}
use pg_fc.Base.Tests.{if◌then◌else◌}
use pg_fc.Base.Strings.{Str, str_eq, str_eq_iff, str_eq_refl}

abbrev pub Map {ℓ} : Type ℓ → Type ℓ
Map V = List (Str × V)

module _ {ℓ} {V : Type ℓ} where
  unfoldable pub get : Str → Map V → Option V
  get k [] = none
  get k ((j, v) ∷ m) = if str_eq j k then some v else get k m

  -- A known key keeps its place.
  unfoldable pub insert : Str → V → Map V → Map V
  insert k v [] = (k, v) ∷ []
  insert k v ((j, w) ∷ m) =
      let rest = insert k v m in if str_eq j k then (j, v) ∷ m else (j, w) ∷ rest

  unfoldable pub remove : Str → Map V → Map V
  remove k [] = []
  remove k ((j, v) ∷ m) = let rest = remove k m in if str_eq j k then rest else (j, v) ∷ rest

  unfoldable pub contains_key : Str → Map V → Bool
  contains_key k m = elim (get k m) [ none ↦ false | some v ↦ true ]

  pub get-insert :
      (k j : Str) (v : V) (m : Map V)
      → get j (insert k v m) ≡ (if str_eq k j then some v else get j m)
  unfolding get insert
  get-insert k j v [] = refl
  get-insert k j v ((i, w) ∷ m) =
      ground (arith, str_eq_iff k j, str_eq_iff i k, str_eq_iff i j, get-insert k j v m)

  pub get-remove :
      (k j : Str) (m : Map V) → get j (remove k m) ≡ (if str_eq k j then none else get j m)
  unfolding get remove
  get-remove k j [] = ground arith
  get-remove k j ((i, w) ∷ m) =
      ground (arith, str_eq_iff k j, str_eq_iff i k, str_eq_iff i j, get-remove k j m)

  pub get-insert_self : (k : Str) (v : V) (m : Map V) → get k (insert k v m) ≡ some v
  get-insert_self k v m = simp (get-insert, str_eq_refl)

  pub get-remove_self : (k : Str) (m : Map V) → get k (remove k m) ≡ none
  get-remove_self k m = simp (get-remove, str_eq_refl)

  -- No key stands twice, as in every `HashMap`.
  abbrev pub IsDistinct : Map V → Type ℓ
  IsDistinct [] = Unit
  IsDistinct ((k, v) ∷ m) = (get k m ≡ none) × IsDistinct m

  pub insert-IsDistinct : (k : Str) (v : V) (m : Map V) → IsDistinct m → IsDistinct (insert k v m)
  unfolding get insert
  insert-IsDistinct k v [] h = (refl, tt)
  insert-IsDistinct k v ((j, w) ∷ m) h =
      ground
        (arith, get-insert k j v m, str_eq_iff j k, str_eq_iff k j, insert-IsDistinct k v m h.1)

  pub remove-IsDistinct : (k : Str) (m : Map V) → IsDistinct m → IsDistinct (remove k m)
  unfolding get remove
  remove-IsDistinct k [] h = h
  remove-IsDistinct k ((j, w) ∷ m) h = ground (arith, get-remove k j m, remove-IsDistinct k m h.1)

  -- No key of `m` stands in `acc`.
  abbrev pub Fresh : Map V → Map V → Type ℓ
  Fresh acc [] = Unit
  Fresh acc ((k, v) ∷ m) = (get k acc ≡ none) × Fresh acc m

  pub Fresh-insert :
      (k : Str) (v : V) (acc m : Map V) → get k m ≡ none → Fresh acc m → Fresh (insert k v acc) m
  unfolding get
  Fresh-insert k v acc [] e h = tt
  Fresh-insert k v acc ((j, w) ∷ m) e h = (
    ground (arith, get-insert k j v acc, str_eq_iff k j, str_eq_iff j k),
    Fresh-insert k v acc m (ground arith) h.1,
  )

  pub Fresh-nil : (m : Map V) → Fresh [] m
  unfolding get
  Fresh-nil [] = tt
  Fresh-nil ((k, v) ∷ m) = (refl, Fresh-nil m)

  -- A key that was put in and taken out again leaves the map as it was.
  pub remove-insert_new :
      (k : Str) (v : V) (m : Map V) → get k m ≡ none → remove k (insert k v m) ≡ m
  unfolding get insert remove
  remove-insert_new k v [] h = ground (arith, str_eq_refl k)
  remove-insert_new k v ((j, w) ∷ m) h = ground (arith, remove-insert_new k v m)

  -- A new key goes to the end.
  pub insert_new : (k : Str) (v : V) (m : Map V) → get k m ≡ none → insert k v m ≡ m ++ (k, v) ∷ []
  unfolding get insert
  insert_new k v [] h = refl
  insert_new k v ((j, w) ∷ m) h = ground (arith, insert_new k v m)

pub ruleset map_laws = (get-insert, get-remove)
