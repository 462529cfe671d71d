-- ===== src/Dedicated/Names.antt =====
-- src/dedicated.rs: what the checks of `create` guarantee of the record.
use pg_fc.Base.{ltb, leb, all, Str, ℕ, ◌≤◌, ◌≡◌, ◌≢◌, true, false, ◌&&◌, [], ◌∷◌, arith}
use pg_fc.Text.{IsClean, trim, byte_len, u64_max}
use pg_fc.Dedicated.Format.{Credential}
use pg_fc.Dedicated.Format.RoundTrip.{IsName, IsRecord}
use pg_fc.Dedicated.{
  Field, ok, is_name_char, first_is_lower, check_name, validate_identifier, validate_password,
  checked, database_field, role_field,
}

name_chars-IsClean : (s : Str) → all is_name_char s ≡ true → IsClean s
unfolding all
name_chars-IsClean [] h = tt
name_chars-IsClean (c ∷ s) h = (ground arith, name_chars-IsClean s (ground arith))

IsName-chars : (s : Str) → first_is_lower s ≡ true → all is_name_char s ≡ true → IsName s
unfolding first_is_lower all
IsName-chars [] f h = cc
IsName-chars (c ∷ s) f h = (ground arith, ground arith, name_chars-IsClean s (ground arith))

check_name-IsName : (s d : Str) (what : Field) → check_name s what ≡ ok d → IsName d
unfolding check_name
check_name-IsName s d what h =
    let same : s ≡ d = ground arith in rw (← same) (IsName-chars s (ground arith) (ground arith))

password_chars-IsClean : (s : Str) → all (λ c. leb 33 c && leb c 126) s ≡ true → IsClean s
unfolding all
password_chars-IsClean [] h = tt
password_chars-IsClean (c ∷ s) h = (ground arith, password_chars-IsClean s (ground arith))

long-ne-nil : (s : Str) → ltb (byte_len s) 12 ≡ false → s ≢ []
unfolding byte_len
long-ne-nil [] h e = cc
long-ne-nil (c ∷ s) h e = cc

validate_password-good : (p : Str) → validate_password p ≡ ok tt → (p ≢ []) × IsClean p
unfolding validate_password
validate_password-good p h = (long-ne-nil p (ground arith), password_chars-IsClean p (ground arith))

checked_parts :
    (database role password : Str) (now : ℕ) (c : Credential)
    → checked database role password now ≡ ok c
    → (validate_identifier database database_field ≡ ok c.database)
      × (validate_identifier role role_field ≡ ok c.role)
      × (validate_password c.password ≡ ok tt)
      × (c.created_at ≡ now)
unfolding checked
checked_parts database role password now c h = ground arith

pub checked-IsRecord :
    (database role password : Str) (now : ℕ) (c : Credential)
    → now ≤ u64_max
    → checked database role password now ≡ ok c
    → IsRecord c
unfolding validate_identifier
checked-IsRecord database role password now c b h =
    let (d, r, p, t) = checked_parts database role password now c h in
    let good = validate_password-good c.password p in
    record {
      database_name = check_name-IsName (trim database) c.database database_field d;
      role_name = check_name-IsName (trim role) c.role role_field r;
      has_password = good.0;
      clean_password = good.1;
      clock_fits = rw t b;
    }
