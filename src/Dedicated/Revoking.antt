-- ===== src/Dedicated/Revoking.antt =====
-- src/dedicated.rs: revoking a credential.
use pg_fc.Base.{
  if◌then◌else◌, Str, str_eq, Map, get-remove, get-remove_self, get, remove, contains_key, ◌≡◌,
  refl, ◌∙◌, Bool, true, false, none, some, arith,
}
use pg_fc.Dedicated.Format.{Credential, serialize}
use pg_fc.Dedicated.Format.RoundTrip.{get-parse-serialize}
use pg_fc.Dedicated.Atomic.{Disk, Fault, no_fault, write_atomic, write_atomic_private}
use pg_fc.Dedicated.Validity.{IsValid, remove-IsValid}
use pg_fc.Dedicated.{Credentials, ok, err, not_persisted, load, file_text, remove_database, revoked}

contains_key-get :
    (k : Str) (c : Credential) (m : Map Credential) → get k m ≡ some c → contains_key k m ≡ true
unfolding contains_key
contains_key-get k c m e = rw (e, contains_key)

-- From a valid set, a revocation of a credential that is there, whose write succeeds, takes out
-- that credential alone, also from what a restart loads.
pub remove_database_lem :
    (database : Str) (s : Credentials) (c : Credential) (k : Str)
    → IsValid s.by_database
    → get database s.by_database ≡ some c
    → ((remove_database no_fault database s).0 ≡ ok true)
      × (get k (load (remove_database no_fault database s).1.disk).by_database
          ≡ (if str_eq database k then none else get k s.by_database))
unfolding remove_database revoked write_atomic load file_text
remove_database_lem database s c k v e =
    let m = remove database s.by_database in
    let w = remove-IsValid database s.by_database v in
    rw (contains_key-get database c s.by_database e, remove_database)
      (refl, get-parse-serialize m k w.records w.distinct ∙ get-remove database k s.by_database)

revoked_fail :
    (m : Map Credential) (p : Disk × Bool)
    → p.1 ≡ false
    → revoked m p ≡ (err not_persisted, record { by_database = m; disk = p.0 })
unfolding revoked
revoked_fail m (d, true) h = cc
revoked_fail m (d, false) h = refl

-- The file that a failing write leaves.
same_file :
    (d : Disk) (contents : Str) (f : Fault)
    → (write_atomic f contents d).1 ≡ false
    → (write_atomic f contents d).0.file ≡ d.file
same_file d contents f h = ground (arith, write_atomic_private f contents d)

-- A revocation that could not be written is lost for good: the credential is gone from memory, so
-- that the retry finds nothing to do and returns `Ok(false)` without a write, whatever the disk
-- would have done; and a restart serves the credential again, if the file had it.
pub remove_retry_lost :
    (f g : Fault) (database : Str) (s : Credentials) (c : Credential)
    → (write_atomic f (serialize (remove database s.by_database)) s.disk).1 ≡ false
    → get database s.by_database ≡ some c
    → get database (load s.disk).by_database ≡ some c
    → let t = (remove_database f database s).1 in
      ((remove_database f database s).0 ≡ err not_persisted)
      × (remove_database g database t ≡ (ok false, t))
      × (get database (load t.disk).by_database ≡ some c)
unfolding remove_database load contains_key
remove_retry_lost f g database s c fails e on_disk =
    let m = remove database s.by_database in
    let p = write_atomic f (serialize m) s.disk in
    let gone : contains_key database m ≡ false =
      rw (get-remove_self database s.by_database, contains_key) in
    rw (contains_key-get database c s.by_database e, remove_database, revoked_fail m p fails)
      (refl, rw (gone, remove_database), rw (same_file s.disk (serialize m) f fails) on_disk)
