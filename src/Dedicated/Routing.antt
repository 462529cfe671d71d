-- ===== src/Dedicated/Routing.antt =====
-- src/dedicated.rs: which client reaches which database, with which password.
use pg_fc.Base.{
  Option-cases, Str, str_eq_iff, Map, IsDistinct, get, contains_key, ◌≡◌, ◌≢◌, ◌↔◌, inl, inr,
  Option, none, some, [], ◌∷◌, arith,
}
use pg_fc.Dedicated.Format.{Credential, values}
use pg_fc.Dedicated.Format.RoundTrip.{AllRecords}
use pg_fc.Dedicated.Validity.{IsValid, UniqueRoles}
use pg_fc.Dedicated.{Credentials, find_role, by_role, is_dedicated, challenge_password, authorize}

find_role-get :
    (role : Str) (c : Credential) (m : Map Credential)
    → AllRecords m
    → IsDistinct m
    → find_role role (values m) ≡ some c
    → (get c.database m ≡ some c) × (c.role ≡ role)
unfolding find_role values get
find_role-get role c [] h d e = cc
find_role-get role c ((j, x) ∷ m) h d e = ground (
  arith,
  str_eq_iff x.role role,
  find_role-get role c m h.1 d.1,
  h.0.0,
  str_eq_iff j c.database,
  str_eq_iff x.database c.database,
)

-- A role that is found further down is not the one in front.
get-find_role_ne :
    (k role : Str) (c : Credential) (m : Map Credential)
    → find_role role (values m) ≡ none
    → get k m ≡ some c
    → c.role ≢ role
unfolding find_role values get
get-find_role_ne k role c [] h e = cc
get-find_role_ne k role c ((j, x) ∷ m) h e =
    ground (arith, str_eq_iff x.role role, get-find_role_ne k role c m)

get-find_role :
    (k : Str) (c : Credential) (m : Map Credential)
    → UniqueRoles (values m)
    → get k m ≡ some c
    → find_role c.role (values m) ≡ some c
unfolding find_role values get
get-find_role k c [] u e = cc
get-find_role k c ((j, x) ∷ m) u e =
    ground
      (arith, str_eq_iff x.role c.role, get-find_role k c m u.1, get-find_role_ne k x.role c m u.0)

get-database :
    (k : Str) (c : Credential) (m : Map Credential)
    → AllRecords m
    → get k m ≡ some c
    → c.database ≡ k
unfolding get
get-database k c [] h e = cc
get-database k c ((j, x) ∷ m) h e = ground (arith, str_eq_iff j k, h.0.0, get-database k c m h.1)

module _ (s : Credentials) (v : IsValid s.by_database) where
  owner_of_open :
      (database role : Str) (c : Credential)
      → get database s.by_database ≡ some c
      → authorize s role database ≡ none
      → role ≡ c.role
  unfolding authorize by_role is_dedicated contains_key
  owner_of_open database role c e h = elim (Option-cases (find_role role (values s.by_database))) [
    | inl missing ↦ ground arith
    | inr (d, found) ↦ ground (
      arith,
      str_eq_iff d.database database,
      find_role-get role d s.by_database v.records v.distinct found,
    )
  ]

  -- In a valid set, a dedicated database is opened by exactly one role, its own, whoever else has
  -- authenticated: a client that passed the shared password or another credential is refused.
  pub authorize_owner :
      (database role : Str) (c : Credential)
      → get database s.by_database ≡ some c
      → (authorize s role database ≡ none) ↔ (role ≡ c.role)
  unfolding authorize by_role
  authorize_owner database role c e = (
    owner_of_open database role c e,
    λ h. ground (
      arith,
      get-find_role database c s.by_database v.roles e,
      get-database database c s.by_database v.records e,
      str_eq_iff c.database database,
    ),
  )

  -- In a valid set, the role of a credential is challenged for the credential's own password,
  -- whatever the shared one is, and opens exactly one database: no other name, dedicated, ordinary
  -- or new.
  pub role_is_single_purpose :
      (k database : Str) (c : Credential) (shared : Option Str)
      → get k s.by_database ≡ some c
      → (challenge_password s c.role shared ≡ some c.password)
        × ((authorize s c.role database ≡ none) ↔ (database ≡ k))
  unfolding authorize challenge_password by_role
  role_is_single_purpose k database c shared e =
      let found = get-find_role k c s.by_database v.roles e in
      let key = get-database k c s.by_database v.records e in
      (
        rw (found, challenge_password),
        (
          λ h. ground (arith, str_eq_iff c.database database),
          λ h. ground (arith, str_eq_iff c.database database),
        ),
      )
