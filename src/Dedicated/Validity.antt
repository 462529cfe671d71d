-- ===== src/Dedicated/Validity.antt =====
-- src/dedicated.rs: the invariant of the credential set, and what `create` does on every branch.
use pg_fc.Base.{
  if◌then◌else◌, Bool-cases, length, length-append, All-append, Str, str_eq_iff, str_eq, Map,
  IsDistinct, insert-IsDistinct, remove-IsDistinct, insert_new, remove-insert_new, get, insert,
  remove, contains_key, ℕ, ◌≤◌, ◌<◌, ◌≡◌, refl, ap, ◌∙◌, ◌⊎◌, inl, inr, Bool, true, false, none,
  some, List, [], ◌∷◌, ◌++◌, arith,
}
use pg_fc.Text.{u64_max}
use pg_fc.Dedicated.Format.{Credential, values, parse, serialize}
use pg_fc.Dedicated.Format.RoundTrip.{IsRecord, AllRecords, get-parse-serialize}
use pg_fc.Dedicated.Atomic.{Disk, Fault, write_atomic, write_atomic_private, private_mode}
use pg_fc.Dedicated.Names.{checked-IsRecord}
use pg_fc.Dedicated.{
  Credentials, Refusal, Result, ok, err, max_records, load, file_text, find_role, checked, admit,
  keep, store_record, create,
}

-- No role stands twice.
abbrev pub UniqueRoles : List Credential → Type 0
UniqueRoles [] = Unit
UniqueRoles (c ∷ cs) = (find_role c.role cs ≡ none) × UniqueRoles cs

pub record IsValid (m : Map Credential) : Type 0 where
  pub distinct : IsDistinct m
  pub records : AllRecords m
  pub roles : UniqueRoles (values m)
  pub bounded : length m ≤ max_records

find_role-snoc :
    (r k : Str) (c : Credential) (m : Map Credential)
    → find_role r (values (m ++ (k, c) ∷ [])) ≡ (elim (find_role r (values m)) [
      | some d ↦ some d
      | none ↦ if str_eq c.role r then some c else none
    ])
unfolding find_role values
find_role-snoc r k c [] = ground arith
find_role-snoc r k c ((j, d) ∷ m) = ground (arith, find_role-snoc r k c m)

UniqueRoles-snoc :
    (k : Str) (c : Credential) (m : Map Credential)
    → find_role c.role (values m) ≡ none
    → UniqueRoles (values m)
    → UniqueRoles (values (m ++ (k, c) ∷ []))
unfolding values find_role
UniqueRoles-snoc k c [] h u = (refl, tt)
UniqueRoles-snoc k c ((j, d) ∷ m) h u = (
  ground (arith, find_role-snoc d.role k c m, str_eq_iff c.role d.role, str_eq_iff d.role c.role),
  UniqueRoles-snoc k c m (ground arith) u.1,
)

-- What `admit` has checked when it accepts.
admit-ok :
    (c : Credential) (m m' : Map Credential)
    → admit c m ≡ ok m'
    → (get c.database m ≡ none)
      × (length m < max_records)
      × (find_role c.role (values m) ≡ none)
      × (m' ≡ insert c.database c m)
unfolding admit contains_key
admit-ok c m m' h = (ground arith, ground arith, ground arith, ground arith)

insert-IsValid :
    (c : Credential) (m : Map Credential)
    → IsRecord c
    → get c.database m ≡ none
    → length m < max_records
    → find_role c.role (values m) ≡ none
    → IsValid m
    → IsValid (insert c.database c m)
insert-IsValid c m good new room role v = record {
  distinct = insert-IsDistinct c.database c m v.distinct;
  records =
      rw (insert_new c.database c m new)
        (All-append (λ p. (p.1.database ≡ p.0) × IsRecord p.1) m _ v.records ((refl, good), tt));
  roles = rw (insert_new c.database c m new) (UniqueRoles-snoc c.database c m role v.roles);
  bounded = rw (insert_new c.database c m new, length-append m) (omega arith);
}

find_role-remove :
    (r k : Str) (m : Map Credential)
    → find_role r (values m) ≡ none
    → find_role r (values (remove k m)) ≡ none
unfolding find_role values remove
find_role-remove r k [] h = refl
find_role-remove r k ((j, d) ∷ m) h = ground (arith, find_role-remove r k m)

UniqueRoles-remove :
    (k : Str) (m : Map Credential) → UniqueRoles (values m) → UniqueRoles (values (remove k m))
unfolding values remove
UniqueRoles-remove k [] u = tt
UniqueRoles-remove k ((j, d) ∷ m) u = elim (Bool-cases (str_eq j k)) [
  | inl e ↦ rw e (UniqueRoles-remove k m u.1)
  | inr e ↦ rw e (find_role-remove d.role k m u.0, UniqueRoles-remove k m u.1)
]

AllRecords-remove : (k : Str) (m : Map Credential) → AllRecords m → AllRecords (remove k m)
unfolding remove
AllRecords-remove k [] h = tt
AllRecords-remove k ((j, d) ∷ m) h = elim (Bool-cases (str_eq j k)) [
  | inl e ↦ rw e (AllRecords-remove k m h.1)
  | inr e ↦ rw e (h.0, AllRecords-remove k m h.1)
]

length-remove-le : (k : Str) (m : Map Credential) → length (remove k m) ≤ length m
unfolding remove
length-remove-le k [] = omega arith
length-remove-le k ((j, d) ∷ m) = ground (arith, length-remove-le k m)

pub remove-IsValid : (k : Str) (m : Map Credential) → IsValid m → IsValid (remove k m)
remove-IsValid k m v = record {
  distinct = remove-IsDistinct k m v.distinct;
  records = AllRecords-remove k m v.records;
  roles = UniqueRoles-remove k m v.roles;
  bounded = omega (arith, length-remove-le k m, v.bounded);
}

-- `create` either returns the record, which is then served and found again after a restart, with
-- every other credential kept; or it returns an error and has changed neither the served
-- credentials nor the file.
abbrev pub Created : Credentials → Result Credential × Credentials → Type 0
Created s (ok c, t) =
    (get c.database s.by_database ≡ none)
    × (t.by_database ≡ insert c.database c s.by_database)
    × ((k : Str) → get k (load t.disk).by_database ≡ get k t.by_database)
Created s (err e, t) = (t.by_database ≡ s.by_database) × (t.disk.file ≡ s.disk.file)

keep-Created :
    (c : Credential) (m : Map Credential) (s : Credentials) (p : Disk × Bool)
    → m ≡ insert c.database c s.by_database
    → get c.database s.by_database ≡ none
    → IsValid m
    → ((p.1 ≡ true) × (p.0.file ≡ some (record { contents = serialize m; mode = private_mode })))
      ⊎ ((p.1 ≡ false) × (p.0.file ≡ s.disk.file))
    → Created s (keep c m p)
unfolding keep load
keep-Created c m s (d, true) e new v (inl (_, f)) = (
  new,
  e,
  λ k.
      ap (λ x. get k (parse (file_text x))) f
      ∙ unfold file_text in get-parse-serialize m k v.records v.distinct,
)
keep-Created c m s (d, true) e new v (inr (f, _)) = cc
keep-Created c m s (d, false) e new v (inl (f, _)) = cc
keep-Created c m s (d, false) e new v (inr (_, f)) =
    (rw e (remove-insert_new c.database c s.by_database new), f)

pub Result-cases {ℓ} :
    {A : Type ℓ} (r : Result A) → ((a : A) × (r ≡ ok a)) ⊎ ((e : Refusal) × (r ≡ err e))
Result-cases (ok a) = inl (a, refl)
Result-cases (err e) = inr (e, refl)

-- A property of what `create` returns: it holds of every refusal, and of the write's two outcomes.
create_cases {ℓ} :
    (P : Result Credential × Credentials → Type ℓ) (f : Fault) (database role password : Str)
    (now : ℕ) (s : Credentials)
    → ((e : Refusal) → P (err e, s))
    → ((c : Credential) (m : Map Credential)
        → checked database role password now ≡ ok c
        → admit c s.by_database ≡ ok m
        → P (keep c m (write_atomic f (serialize m) s.disk)))
    → P (create f database role password now s)
unfolding create
create_cases P f database role password now s refused kept =
    elim (Result-cases (checked database role password now)) [
      | inr (e, h) ↦ rw (h, create) (refused e)
      | inl (c, h) ↦
          rw (h, create)
            (unfold store_record in
              elim (Result-cases (admit c s.by_database)) [
                | inr (e, g) ↦ rw (g, store_record) (refused e)
                | inl (m, g) ↦ rw (g, store_record) (kept c m h g)
              ])
    ]

admitted-IsValid :
    (c : Credential) (m m' : Map Credential)
    → IsRecord c
    → admit c m ≡ ok m'
    → IsValid m
    → IsValid m'
admitted-IsValid c m m' good h v =
    let (new, room, role, e) = admit-ok c m m' h in rw e (insert-IsValid c m good new room role v)

-- From a valid set, with a clock of 64 bits, and wherever the write stops, `create` is all or
-- nothing: either it returns the record, which was not there before, is served now, and is found
-- again after a restart with every other credential kept; or it returns an error, and has changed
-- neither the served credentials nor the file.
pub create-Created :
    (f : Fault) (database role password : Str) (now : ℕ) (s : Credentials)
    → now ≤ u64_max
    → IsValid s.by_database
    → Created s (create f database role password now s)
create-Created f database role password now s b v =
    create_cases (Created s) f database role password now s (λ e. (refl, refl))
      λ c m h g.
        let (new, _, _, e) = admit-ok c s.by_database m g in
        let good = checked-IsRecord database role password now c b h in
        keep-Created c m s (write_atomic f (serialize m) s.disk) e new
          (admitted-IsValid c s.by_database m good g v)
          (write_atomic_private f (serialize m) s.disk)

keep-IsValid :
    (c : Credential) (m : Map Credential) (p : Disk × Bool)
    → IsValid m
    → IsValid (keep c m p).1.by_database
unfolding keep
keep-IsValid c m (d, true) v = v
keep-IsValid c m (d, false) v = remove-IsValid c.database m v

-- From a valid set, with a clock of 64 bits, whatever its other arguments and whether or not its
-- write succeeds, `create` keeps the set valid: keys distinct, every record under its own name
-- with fields that the file can hold, roles unique, and no more than 512 records.
pub create-IsValid :
    (f : Fault) (database role password : Str) (now : ℕ) (s : Credentials)
    → now ≤ u64_max
    → IsValid s.by_database
    → IsValid (create f database role password now s).1.by_database
create-IsValid f database role password now s b v =
    create_cases (λ p. IsValid p.1.by_database) f database role password now s (λ e. v)
      λ c m h g.
        keep-IsValid c m _ (
          admitted-IsValid c s.by_database m (checked-IsRecord database role password now c b h) g
            v)
