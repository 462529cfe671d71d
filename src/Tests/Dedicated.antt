-- ===== src/Tests/Dedicated.antt =====
-- src/dedicated.rs at fixed inputs.
use pg_fc.Base.{
  all, str, str_eq, is_empty, starts_with, contains, Map, get, insert, contains_key, ◌≡◌, refl, ◌↔◌,
  false, none, some, [], ◌∷◌, arith,
}
use pg_fc.Text.{lines, split, trim, byte_len, show_u64, parse_u64}
use pg_fc.Dedicated.{
  Credentials, ok, err, not_persisted, database_field, bad_character, role_taken, load, create,
  authorize, challenge_password, remove_database, database_is_dedicated, find_role,
  validate_identifier, check_name, first_is_lower, by_role, is_dedicated, checked,
  validate_password, store_record, admit, refuse_taken, keep,
}
use pg_fc.Dedicated.Format.{
  Credential, parse, serialize, values, serialize_records, sort_records, insert_sorted, str_leb,
  serialize_record, parse_lines, parse_line, parse_fields, created,
}
use pg_fc.Dedicated.Format.RoundTrip.{IsRecord, AllRecords, get-parse-serialize}
use pg_fc.Dedicated.Atomic.{Disk, no_fault, rename_fails, write_atomic, private_mode}
use pg_fc.Dedicated.Validity.{IsValid, Created, create-Created}
use pg_fc.Dedicated.Routing.{authorize_owner, role_is_single_purpose}
use pg_fc.Dedicated.Revoking.{remove_retry_lost}

abbrev acme : Credential
acme = record {
  database = str "acme";
  role = str "acme_rw";
  password = str "correct-horse-1";
  created_at = 1700000000;
}

abbrev beta : Credential
beta = record {
  database = str "beta";
  role = str "beta_rw";
  password = str "correct-horse-2";
  created_at = 1700000500;
}

abbrev acme_and_beta : Map Credential
acme_and_beta = (str "beta", beta) ∷ (str "acme", acme) ∷ []

acme-IsRecord : IsRecord acme
acme-IsRecord = record {
  database_name = ground arith;
  role_name = ground arith;
  has_password = λ e. cc;
  clean_password = ground arith;
  clock_fits = omega arith;
}

beta-IsRecord : IsRecord beta
beta-IsRecord = record {
  database_name = ground arith;
  role_name = ground arith;
  has_password = λ e. cc;
  clean_password = ground arith;
  clock_fits = omega arith;
}

acme_and_beta-AllRecords : AllRecords acme_and_beta
acme_and_beta-AllRecords = ((refl, beta-IsRecord), ((refl, acme-IsRecord), tt))

acme_and_beta-IsValid : IsValid acme_and_beta
unfolding get str_eq values find_role
acme_and_beta-IsValid = record {
  distinct = (refl, (refl, tt));
  records = acme_and_beta-AllRecords;
  roles = (refl, (refl, tt));
  bounded = omega arith;
}

abbrev on_disk : Disk
on_disk = record {
  file = some (record {
    contents =
        str
          "acme\tacme_rw\tcorrect-horse-1\t1700000000\nbeta\tbeta_rw\tcorrect-horse-2\t1700000500\n";
    mode = private_mode;
  });
  tmp = none;
}

abbrev two_credentials : Credentials
two_credentials = record { by_database = acme_and_beta; disk = on_disk }

-- The file is sorted by name, whatever the order of the map.
serialize-acme_and_beta :
    serialize acme_and_beta
    ≡ str "acme\tacme_rw\tcorrect-horse-1\t1700000000\nbeta\tbeta_rw\tcorrect-horse-2\t1700000500\n"
unfolding serialize serialize_records sort_records values insert_sorted str_leb serialize_record
    show_u64
serialize-acme_and_beta = refl

create_bad_name :
    (create no_fault (str "my-db") (str "rw") (str "correct-horse-1") 5 two_credentials).0
    ≡ err (bad_character database_field)
unfolding create checked validate_identifier check_name is_empty trim byte_len first_is_lower all
create_bad_name = refl

create_taken_role :
    (create no_fault (str " gamma ") (str "acme_rw") (str "correct-horse-1") 5 two_credentials).0
    ≡ err (role_taken (str "acme"))
unfolding create checked validate_identifier check_name first_is_lower validate_password
    store_record admit refuse_taken find_role values keep write_atomic trim byte_len is_empty
    starts_with contains str_eq insert get contains_key all
create_taken_role = refl

create_gamma :
    (create no_fault (str " gamma ") (str "gamma_rw") (str "correct-horse-3") 5 two_credentials).0
    ≡ ok (record {
      database = str "gamma";
      role = str "gamma_rw";
      password = str "correct-horse-3";
      created_at = 5;
    })
unfolding create checked validate_identifier check_name first_is_lower validate_password
    store_record admit refuse_taken find_role values keep write_atomic trim byte_len is_empty
    starts_with contains str_eq insert get contains_key all
create_gamma = refl

authorize_shared :
    authorize two_credentials (str "postgres") (str "acme") ≡ some database_is_dedicated
unfolding authorize by_role find_role values str_eq is_dedicated contains_key get
authorize_shared = refl

get-parse-serialize_example : get (str "acme") (parse (serialize acme_and_beta)) ≡ some acme
unfolding get str_eq
get-parse-serialize_example =
    get-parse-serialize acme_and_beta (str "acme") acme_and_beta-AllRecords
      acme_and_beta-IsValid.distinct

create-Created_example :
    Created two_credentials
      (create no_fault (str " gamma ") (str "gamma_rw") (str "correct-horse-3") 5 two_credentials)
create-Created_example =
    create-Created no_fault (str " gamma ") (str "gamma_rw") (str "correct-horse-3") 5
      two_credentials (omega arith) acme_and_beta-IsValid

authorize_owner_example :
    (authorize two_credentials (str "beta_rw") (str "acme") ≡ none) ↔ (str "beta_rw" ≡ acme.role)
unfolding get str_eq
authorize_owner_example =
    authorize_owner two_credentials acme_and_beta-IsValid (str "acme") (str "beta_rw") acme refl

role_is_single_purpose_example :
    (challenge_password two_credentials acme.role (some (str "shared")) ≡ some acme.password)
    × ((authorize two_credentials acme.role (str "beta") ≡ none) ↔ (str "beta" ≡ str "acme"))
unfolding get str_eq
role_is_single_purpose_example =
    role_is_single_purpose two_credentials acme_and_beta-IsValid (str "acme") (str "beta") acme
      (some (str "shared")) refl

-- What a revocation leaves whose rename failed.
half_revoked : Credentials
half_revoked = (remove_database rename_fails (str "acme") two_credentials).1

remove_retry_lost_example :
    ((remove_database rename_fails (str "acme") two_credentials).0 ≡ err not_persisted)
    × (remove_database no_fault (str "acme") half_revoked ≡ (ok false, half_revoked))
    × (get (str "acme") (load half_revoked.disk).by_database ≡ some acme)
unfolding half_revoked write_atomic get str_eq load parse parse_lines lines parse_line is_empty trim
    parse_fields split insert created parse_u64
remove_retry_lost_example =
    remove_retry_lost rename_fails no_fault (str "acme") two_credentials acme refl refl refl
