-- ===== src/Store/Format/RoundTrip.antt =====
-- src/store.rs: what `serialize` writes, `parse` reads back.
use pg_fc.Base.{
  All, Str, str_eq, is_empty, Map, IsDistinct, insert_new, Fresh, Fresh-insert, Fresh-nil, insert,
  ℕ, ◌≤◌, ◌≡◌, refl, sym, ap, ◌≢◌, false, some, List, [], ◌∷◌, ◌++◌, append_assoc, append-nil,
  arith,
}
use pg_fc.Text.{
  IsClean, IsLine, IsLine-field, IsLine-IsClean, split-IsClean, split-field, lines-line, lines,
  u64_max, show_u64-IsClean, parse_u64-show_u64, show_u64,
}
use pg_fc.Store.Format.{
  Tier, live, compacted, frozen, archived, StoreRecord, as_str, parse_tier, parse_row, add_row,
  parse_rows, parse, serialize_row, serialize,
}

-- What the callers guarantee of a row: a name and an id with no control characters, neither of
-- them empty, and a clock of 64 bits.
pub record IsRow (schema : Str) (r : StoreRecord) : Type 0 where
  pub named : schema ≢ []
  pub clean : IsClean schema
  pub bound : r.sandbox_id ≢ []
  pub clean_id : IsClean r.sandbox_id
  pub clock_fits : r.last_active ≤ u64_max

abbrev pub AllRows : Map StoreRecord → Type 0
AllRows = All (λ p. IsRow p.0 p.1)

parse_tier-as_str : (t : Tier) → parse_tier (as_str t) ≡ t
unfolding parse_tier as_str str_eq
parse_tier-as_str live = refl
parse_tier-as_str compacted = refl
parse_tier-as_str frozen = refl
parse_tier-as_str archived = refl

as_str-IsClean : (t : Tier) → IsClean (as_str t)
unfolding as_str
as_str-IsClean live = omega arith
as_str-IsClean compacted = omega arith
as_str-IsClean frozen = omega arith
as_str-IsClean archived = omega arith

is_empty-false : (s : Str) → s ≢ [] → is_empty s ≡ false
unfolding is_empty
is_empty-false [] h = absurd (h refl)
is_empty-false (c ∷ s) h = refl

parse_row-serialize_row :
    (schema : Str) (r : StoreRecord) (now : ℕ)
    → IsRow schema r
    → parse_row (serialize_row schema r) now ≡ some (schema, r)
unfolding parse_row serialize_row
parse_row-serialize_row schema r now h = rw (
  split-field schema _ h.clean,
  split-field r.sandbox_id _ h.clean_id,
  split-field (show_u64 r.last_active) _ (show_u64-IsClean r.last_active),
  split-IsClean (as_str r.tier) (as_str-IsClean r.tier),
  is_empty-false schema h.named,
  is_empty-false r.sandbox_id h.bound,
  parse_u64-show_u64 r.last_active h.clock_fits,
  parse_tier-as_str r.tier,
)

serialize_row-IsLine :
    (schema : Str) (r : StoreRecord) → IsRow schema r → IsLine (serialize_row schema r)
unfolding serialize_row
serialize_row-IsLine schema r h = IsLine-field schema _ h.clean (
    IsLine-field r.sandbox_id _ h.clean_id (
      IsLine-field (show_u64 r.last_active) _ (show_u64-IsClean r.last_active)
        (IsLine-IsClean (as_str r.tier) (as_str-IsClean r.tier))))

parse_rows-cons :
    (k : Str) (r : StoreRecord) (line : Str) (rest : List Str) (now : ℕ) (acc : Map StoreRecord)
    → parse_row line now ≡ some (k, r)
    → parse_rows (line ∷ rest) now acc ≡ parse_rows rest now (insert k r acc)
unfolding parse_rows
parse_rows-cons k r line rest now acc e = ap (λ o. parse_rows rest now (add_row o acc)) e

parse_rows-serialize :
    (m acc : Map StoreRecord) (now : ℕ)
    → AllRows m
    → IsDistinct m
    → Fresh acc m
    → parse_rows (lines (serialize m)) now acc ≡ acc ++ m
unfolding serialize
parse_rows-serialize [] acc now h d f = unfold lines parse_rows in sym (append-nil acc)
parse_rows-serialize ((k, r) ∷ m) acc now h d f = rw (
  lines-line (serialize_row k r) (serialize m) (serialize_row-IsLine k r h.0),
  parse_rows-cons k r _ (lines (serialize m)) now acc (parse_row-serialize_row k r now h.0),
  parse_rows-serialize m (insert k r acc) now h.1 d.1 (Fresh-insert k r acc m d.0 f.1),
  insert_new k r acc f.0,
  append_assoc,
)

-- Whatever order the map is iterated in, a file that `serialize` wrote is read back as the map it
-- was written from, at any time, if every row is one that the pooler makes (IsRow) and no key stands
-- twice.
pub parse-serialize :
    (m : Map StoreRecord) (now : ℕ) → AllRows m → IsDistinct m → parse (serialize m) now ≡ m
unfolding parse
parse-serialize m now h d = parse_rows-serialize m [] now h d (Fresh-nil m)
