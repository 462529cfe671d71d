-- ===== src/Dedicated.antt =====
-- src/dedicated.rs: databases with a credential of their own.
-- `now` is the reading of the clock that `create` makes.
pub mod Format
pub mod Atomic
mod Names
pub mod Validity
pub mod Routing
pub mod Revoking
use pg_fc.Base.{
  ltb, leb, ◌==◌, if◌then◌else◌, length, all, Str, str, str_eq, is_empty, starts_with, contains,
  Map, insert, remove, contains_key, ℕ, Bool, true, false, not, ◌&&◌, ◌||◌, Option, none, some,
  List, [], ◌∷◌,
}
use pg_fc.Text.{trim, byte_len}
use pg_fc.Dedicated.Format.{Credential, values, parse, serialize, sort_records}
use pg_fc.Dedicated.Atomic.{Disk, Fault, File, write_atomic}

pub data Field : Type 0 where
  database_field role_field : Field

-- The messages of `bail!`.
pub data Refusal : Type 0 where
  name_required name_too_long bad_first bad_character reserved_prefix : Field → Refusal
  reserved_database reserved_role : Refusal
  password_short password_long password_unprintable : Refusal
  already_provisioned too_many : Refusal
  role_taken : Str → Refusal
  not_persisted : Refusal

pub data Result {ℓ} (A : Type ℓ) : Type ℓ where
  ok : A → Result A
  err : Refusal → Result A

-- A guard in front: its refusal, or what comes next.
infixl 5 ◌>>◌
abbrev pub ◌>>◌ {κ} : {B : Type κ} → Result (Unit {0}) → Result B → Result B
err refusal >> next = err refusal
ok _ >> next = next

-- `?`
infixl 5 ◌>>=◌
abbrev pub ◌>>=◌ {κ ℓ} : {B : Type κ} {A : Type ℓ} → Result B → (B → Result A) → Result A
err refusal >>= next = err refusal
ok b >>= next = next b

-- `if bad { bail!(e) }`
abbrev pub bail_if : Bool → Refusal → Result (Unit {0})
bail_if true e = err e
bail_if false e = ok tt

abbrev pub max_records : ℕ
max_records = 512

abbrev reserved_databases : List Str
reserved_databases = str "postgres" ∷ str "template0" ∷ str "template1" ∷ []

abbrev reserved_roles : List Str
reserved_roles = str "postgres" ∷ str "root" ∷ []

abbrev is_lower : ℕ → Bool
is_lower c = leb 97 c && leb c 122

abbrev is_digit : ℕ → Bool
is_digit c = leb 48 c && leb c 57

abbrev is_name_char : ℕ → Bool
is_name_char c = is_lower c || is_digit c || c == b'_'

unfoldable pub first_is_lower : Str → Bool
first_is_lower [] = false
first_is_lower (c ∷ s) = is_lower c

unfoldable pub check_name : Str → Field → Result Str
check_name s what = do
  bail_if (is_empty s) (name_required what)
  bail_if (ltb 63 (byte_len s)) (name_too_long what)
  bail_if (not (first_is_lower s)) (bad_first what)
  bail_if (not (all is_name_char s)) (bad_character what)
  bail_if (starts_with s (str "pg_") || starts_with s (str "spare")) (reserved_prefix what)
  ok s

unfoldable pub validate_identifier : Str → Field → Result Str
validate_identifier s what = check_name (trim s) what

unfoldable pub validate_password : Str → Result (Unit {0})
validate_password p = do
  bail_if (ltb (byte_len p) 12) password_short
  bail_if (ltb 128 (byte_len p)) password_long
  bail_if (not (all (λ c. leb 33 c && leb c 126) p)) password_unprintable
  ok tt

pub record Credentials : Type 0 where
  pub by_database : Map Credential
  pub disk : Disk

unfoldable pub file_text : Option File → Str
file_text none = []
file_text (some f) = f.contents

unfoldable pub load : Disk → Credentials
unfolding file_text
load d = record { by_database = parse (file_text d.file); disk = d }

-- `values().find(|c| c.role == role)`
unfoldable pub find_role : Str → List Credential → Option Credential
find_role role [] = none
find_role role (c ∷ cs) =
    let rest = find_role role cs in if str_eq c.role role then some c else rest

unfoldable pub by_role : Credentials → Str → Option Credential
by_role s role = find_role role (values s.by_database)

unfoldable pub is_dedicated : Credentials → Str → Bool
is_dedicated s database = contains_key database s.by_database

unfoldable pub challenge_password : Credentials → Str → Option Str → Option Str
challenge_password s role shared = elim (by_role s role) [
  | some c ↦ some c.password
  | none ↦ shared
]

pub data Denial : Type 0 where
  role_is_pinned_to : Str → Denial
  database_is_dedicated : Denial

-- `none` lets the client through.
unfoldable pub authorize : Credentials → Str → Str → Option Denial
authorize s role database = elim (by_role s role) [
  | some c ↦ if str_eq c.database database then none else some (role_is_pinned_to c.database)
  | none ↦ if is_dedicated s database then some database_is_dedicated else none
]

unfoldable pub checked : Str → Str → Str → ℕ → Result Credential
checked database role password now = do
  database' ← validate_identifier database database_field
  role' ← validate_identifier role role_field
  bail_if (contains reserved_databases database') reserved_database
  bail_if (contains reserved_roles role') reserved_role
  validate_password password
  ok (record { database = database'; role = role'; password = password; created_at = now })

unfoldable pub refuse_taken : Option Credential → Result (Unit {0})
refuse_taken none = ok tt
refuse_taken (some other) = err (role_taken other.database)

-- The part of `create` under the lock.
unfoldable pub admit : Credential → Map Credential → Result (Map Credential)
unfolding refuse_taken
admit c m = do
  bail_if (contains_key c.database m) already_provisioned
  bail_if (leb max_records (length m)) too_many
  refuse_taken (find_role c.role (values m))
  ok (insert c.database c m)

-- The write, and the roll-back of the map if it fails.
unfoldable pub keep : Credential → Map Credential → Disk × Bool → Result Credential × Credentials
keep c m (d, true) = (ok c, record { by_database = m; disk = d })
keep c m (d, false) = (err not_persisted, record { by_database = remove c.database m; disk = d })

unfoldable pub store_record : Fault → Credential → Credentials → Result Credential × Credentials
unfolding keep
store_record f c s = elim (admit c s.by_database) [
  | err e ↦ (err e, s)
  | ok m ↦ keep c m (write_atomic f (serialize m) s.disk)
]

unfoldable pub create : Fault → Str → Str → Str → ℕ → Credentials → Result Credential × Credentials
create f database role password now s = elim (checked database role password now) [
  | err e ↦ (err e, s)
  | ok c ↦ store_record f c s
]

unfoldable pub revoked : Map Credential → Disk × Bool → Result Bool × Credentials
revoked m (d, true) = (ok true, record { by_database = m; disk = d })
revoked m (d, false) = (err not_persisted, record { by_database = m; disk = d })

-- The map has lost the entry by the time that the write can fail.
unfoldable pub remove_database : Fault → Str → Credentials → Result Bool × Credentials
unfolding revoked
remove_database f database s =
    if contains_key database s.by_database
    then (let m = remove database s.by_database in revoked m (write_atomic f (serialize m) s.disk))
    else (ok false, s)
