-- ===== src/Dedicated/Format.antt =====
-- src/dedicated.rs: credentials, and the format of their file.
pub mod RoundTrip
use pg_fc.Base.{
  ltb, ◌==◌, if◌then◌else◌, unwrap_or, Str, is_empty, Map, insert, ℕ, Bool, true, false, ◌||◌,
  Option, none, some, List, [], ◌∷◌, ◌++◌,
}
use pg_fc.Text.{lines, split, trim, show_u64, parse_u64}

pub record Credential : Type 0 where
  pub database : Str
  pub role : Str
  pub password : Str
  pub created_at : ℕ

-- `str::cmp`: lexicographic.
unfoldable pub str_leb : Str → Str → Bool
str_leb [] t = true
str_leb (a ∷ s) [] = false
str_leb (a ∷ s) (b ∷ t) = let rest = str_leb s t in if a == b then rest else ltb a b

unfoldable pub insert_sorted : Credential → List Credential → List Credential
insert_sorted c [] = c ∷ []
insert_sorted c (d ∷ ds) =
    let rest = insert_sorted c ds in if str_leb c.database d.database then c ∷ d ∷ ds else d ∷ rest

-- `sort_by` on the database name; `values` come in the order of the map.
unfoldable pub sort_records : List Credential → List Credential
sort_records [] = []
sort_records (c ∷ cs) = insert_sorted c (sort_records cs)

unfoldable pub values : Map Credential → List Credential
values [] = []
values ((k, c) ∷ m) = c ∷ values m

unfoldable pub created : List Str → ℕ
created [] = 0
created (field ∷ _) = unwrap_or (parse_u64 field) 0

unfoldable pub parse_fields : List Str → Option Credential
parse_fields (database ∷ role ∷ password ∷ rest) =
    if is_empty database || is_empty role || is_empty password
    then none
    else some (record {
      database = database;
      role = role;
      password = password;
      created_at = created rest;
    })
parse_fields _ = none

-- A blank line is skipped, and so is one with a field that is missing or empty.
unfoldable pub parse_line : Str → Option Credential
parse_line line = if is_empty (trim line) then none else parse_fields (split b'\t' line)

abbrev add_record : Option Credential → Map Credential → Map Credential
add_record none m = m
add_record (some c) m = insert c.database c m

unfoldable pub parse_lines : List Str → Map Credential → Map Credential
parse_lines [] m = m
parse_lines (line ∷ rest) m = parse_lines rest (add_record (parse_line line) m)

unfoldable pub parse : Str → Map Credential
parse s = parse_lines (lines s) []

unfoldable pub serialize_record : Credential → Str
serialize_record c =
    c.database ++ b'\t' ∷ (c.role ++ b'\t' ∷ (c.password ++ b'\t' ∷ show_u64 c.created_at))

unfoldable pub serialize_records : List Credential → Str
serialize_records [] = []
serialize_records (c ∷ cs) = serialize_record c ++ b'\n' ∷ serialize_records cs

unfoldable pub serialize : Map Credential → Str
serialize m = serialize_records (sort_records (values m))
