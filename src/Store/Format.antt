-- ===== src/Store/Format.antt =====
-- src/store.rs: the tiers, the records and the registry file's format.
pub mod RoundTrip
use pg_fc.Base.{
  if◌then◌else◌, unwrap_or, Str, str, str_eq, is_empty, Map, insert, ℕ, Bool, true, false, not,
  ◌||◌, Option, none, some, List, [], ◌∷◌, ◌++◌,
}
use pg_fc.Text.{lines, split, show_u64, parse_u64}

pub data Tier : Type 0 where
  live compacted frozen archived : Tier

pub record StoreRecord : Type 0 where
  pub sandbox_id : Str
  pub last_active : ℕ
  pub tier : Tier

unfoldable pub as_str : Tier → Str
as_str live = str "live"
as_str compacted = str "compacted"
as_str frozen = str "frozen"
as_str archived = str "archived"

unfoldable pub parse_tier : Str → Tier
parse_tier s =
    if str_eq s (str "archived")
    then archived
    else if str_eq s (str "frozen")
    then frozen
    else if str_eq s (str "compacted")
    then compacted
    else live

unfoldable pub is_live : Tier → Bool
is_live live = true
is_live _ = false

unfoldable pub offloaded : StoreRecord → Bool
unfolding is_live
offloaded r = not (is_live r.tier)

-- The fields behind the schema and the id: the clock, where it parses, and the tier.
unfoldable pub row_record : Str → List Str → ℕ → StoreRecord
row_record id [] now = record { sandbox_id = id; last_active = now; tier = live }
row_record id (clock ∷ []) now = record {
  sandbox_id = id;
  last_active = unwrap_or (parse_u64 clock) now;
  tier = live;
}
row_record id (clock ∷ state ∷ _) now = record {
  sandbox_id = id;
  last_active = unwrap_or (parse_u64 clock) now;
  tier = parse_tier state;
}

unfoldable pub parse_fields : List Str → ℕ → Option (Str × StoreRecord)
parse_fields (schema ∷ id ∷ rest) now =
    if is_empty schema || is_empty id then none else some (schema, row_record id rest now)
parse_fields _ now = none

-- One line of the file: `none` is a line that is skipped.
unfoldable pub parse_row : Str → ℕ → Option (Str × StoreRecord)
unfolding parse_fields row_record
parse_row line now = parse_fields (split b'\t' line) now

abbrev pub add_row : Option (Str × StoreRecord) → Map StoreRecord → Map StoreRecord
add_row none m = m
add_row (some (schema, r)) m = insert schema r m

-- `collect` inserts the rows in the order of the lines.
unfoldable pub parse_rows : List Str → ℕ → Map StoreRecord → Map StoreRecord
parse_rows [] now m = m
parse_rows (line ∷ rest) now m = parse_rows rest now (add_row (parse_row line now) m)

unfoldable pub parse : Str → ℕ → Map StoreRecord
unfolding parse_row parse_rows
parse s now = parse_rows (lines s) now []

unfoldable pub serialize_row : Str → StoreRecord → Str
serialize_row schema r =
    schema ++ b'\t' ∷ (r.sandbox_id ++ b'\t' ∷ (show_u64 r.last_active ++ b'\t' ∷ as_str r.tier))

unfoldable pub serialize : Map StoreRecord → Str
serialize [] = []
serialize ((schema, r) ∷ m) = serialize_row schema r ++ b'\n' ∷ serialize m
