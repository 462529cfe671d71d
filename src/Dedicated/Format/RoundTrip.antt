-- ===== src/Dedicated/Format/RoundTrip.antt =====
-- src/dedicated.rs: what `serialize` writes, `parse` reads back, in another order.
use pg_fc.Base.{
  Bool-cases, All, Str, str_eq_iff, is_empty, Map, IsDistinct, insert_new, Fresh, Fresh-insert,
  Fresh-nil, get, insert, ◌≤◌, ◌≡◌, refl, sym, ap, ◌∙◌, ◌≢◌, inl, inr, false, none, some, List, [],
  ◌∷◌, ◌++◌, append_assoc, append-nil, arith,
}
use pg_fc.Text.{
  IsClean, IsLine, IsLine-field, IsLine-IsClean, split-IsClean, split-field, lines-line,
  trim-ne-nil, lines, trim, u64_max, show_u64-IsClean, parse_u64-show_u64, show_u64,
}
use pg_fc.Dedicated.Format.{
  Credential, str_leb, insert_sorted, sort_records, values, created, parse_fields, parse_line,
  add_record, parse_lines, parse, serialize_record, serialize_records, serialize,
}

-- A name that starts with a lowercase letter and holds no control character.
abbrev pub IsName : Str → Type 0
IsName [] = ⊥
IsName (c ∷ s) = (97 ≤ c) × (c ≤ 122) × IsClean s

-- Fields as `create` lets them through, and a clock of 64 bits.
pub record IsRecord (c : Credential) : Type 0 where
  pub database_name : IsName c.database
  pub role_name : IsName c.role
  pub has_password : c.password ≢ []
  pub clean_password : IsClean c.password
  pub clock_fits : c.created_at ≤ u64_max

-- Every entry holds a good record, and under its own database.
abbrev pub AllRecords : Map Credential → Type 0
AllRecords = All (λ p. (p.1.database ≡ p.0) × IsRecord p.1)

name-IsClean : (s : Str) → IsName s → IsClean s
name-IsClean [] h = absurd h
name-IsClean (c ∷ s) h = (omega arith, h.2)

is_empty-name : (s : Str) → IsName s → is_empty s ≡ false
unfolding is_empty
is_empty-name [] h = absurd h
is_empty-name (c ∷ s) h = refl

is_empty-false : (s : Str) → s ≢ [] → is_empty s ≡ false
unfolding is_empty
is_empty-false [] h = absurd (h refl)
is_empty-false (c ∷ s) h = refl

visible : (s t : Str) → IsName s → is_empty (trim (s ++ t)) ≡ false
visible [] t h = absurd h
visible (c ∷ s) t h = is_empty-false _ (trim-ne-nil c (s ++ t) (ground arith))

parse_line-serialize_record :
    (c : Credential) → IsRecord c → parse_line (serialize_record c) ≡ some c
unfolding parse_line serialize_record parse_fields created
parse_line-serialize_record c h = rw (
  visible c.database _ h.database_name,
  split-field c.database _ (name-IsClean c.database h.database_name),
  split-field c.role _ (name-IsClean c.role h.role_name),
  split-field c.password _ h.clean_password,
  split-IsClean (show_u64 c.created_at) (show_u64-IsClean c.created_at),
  is_empty-name c.database h.database_name,
  is_empty-name c.role h.role_name,
  is_empty-false c.password h.has_password,
  parse_u64-show_u64 c.created_at h.clock_fits,
)

serialize_record-IsLine : (c : Credential) → IsRecord c → IsLine (serialize_record c)
unfolding serialize_record
serialize_record-IsLine c h = IsLine-field c.database _ (name-IsClean c.database h.database_name) (
    IsLine-field c.role _ (name-IsClean c.role h.role_name) (
      IsLine-field c.password _ h.clean_password
        (IsLine-IsClean _ (show_u64-IsClean c.created_at))))

-- The map that lists its records under their databases.
keyed : List Credential → Map Credential
keyed [] = []
keyed (c ∷ cs) = (c.database, c) ∷ keyed cs

parse_lines-cons :
    (c : Credential) (line : Str) (rest : List Str) (acc : Map Credential)
    → parse_line line ≡ some c
    → parse_lines (line ∷ rest) acc ≡ parse_lines rest (insert c.database c acc)
unfolding parse_lines
parse_lines-cons c line rest acc e = ap (λ o. parse_lines rest (add_record o acc)) e

parse_lines-serialize :
    (cs : List Credential) (acc : Map Credential)
    → All IsRecord cs
    → IsDistinct (keyed cs)
    → Fresh acc (keyed cs)
    → parse_lines (lines (serialize_records cs)) acc ≡ acc ++ keyed cs
unfolding serialize_records keyed
parse_lines-serialize [] acc h d f = unfold lines parse_lines in sym (append-nil acc)
parse_lines-serialize (c ∷ cs) acc h d f = rw (
  lines-line (serialize_record c) (serialize_records cs) (serialize_record-IsLine c h.0),
  parse_lines-cons c _ (lines (serialize_records cs)) acc (parse_line-serialize_record c h.0),
  parse_lines-serialize cs (insert c.database c acc) h.1 d.1
      (Fresh-insert c.database c acc (keyed cs) d.0 f.1),
  insert_new c.database c acc f.0,
  append_assoc,
)

get-insert_sorted :
    (k : Str) (c : Credential) (cs : List Credential)
    → get c.database (keyed cs) ≡ none
    → get k (keyed (insert_sorted c cs)) ≡ get k (keyed (c ∷ cs))
unfolding insert_sorted keyed get
get-insert_sorted k c [] h = refl
get-insert_sorted k c (d ∷ ds) h = ground (
  arith,
  get-insert_sorted k c ds,
  str_eq_iff c.database k,
  str_eq_iff d.database k,
  str_eq_iff d.database c.database,
)

insert_sorted-IsDistinct :
    (c : Credential) (cs : List Credential)
    → get c.database (keyed cs) ≡ none
    → IsDistinct (keyed cs)
    → IsDistinct (keyed (insert_sorted c cs))
unfolding insert_sorted keyed get
insert_sorted-IsDistinct c [] h d = (refl, tt)
insert_sorted-IsDistinct c (e ∷ es) h d = ground (
  arith,
  insert_sorted-IsDistinct c es,
  get-insert_sorted e.database c es,
  str_eq_iff c.database e.database,
  str_eq_iff e.database c.database,
)

All-insert_sorted :
    (c : Credential) (cs : List Credential)
    → IsRecord c
    → All IsRecord cs
    → All IsRecord (insert_sorted c cs)
unfolding insert_sorted
All-insert_sorted c [] h a = (h, tt)
All-insert_sorted c (d ∷ ds) h a = elim (Bool-cases (str_leb c.database d.database)) [
  | inl e ↦ rw e (h, a)
  | inr e ↦ rw e (a.0, All-insert_sorted c ds h a.1)
]

-- Sorting keeps every lookup, the distinctness of the keys and what holds of each record.
record SortedAs (m : Map Credential) (cs : List Credential) : Type 0 where
  same_get : (k : Str) → get k (keyed cs) ≡ get k m
  distinct : IsDistinct (keyed cs)
  good : All IsRecord cs

sort-SortedAs :
    (m : Map Credential) → AllRecords m → IsDistinct m → SortedAs m (sort_records (values m))
unfolding sort_records values keyed get
sort-SortedAs [] h d = record { same_get = λ k. refl; distinct = tt; good = tt }
sort-SortedAs ((j, c) ∷ m) h d =
    let ih = sort-SortedAs m h.1 d.1 in
    let new : get c.database (keyed (sort_records (values m))) ≡ none =
      rw (h.0.0) (ih.same_get j ∙ d.0) in
    record {
      same_get = λ k.
          get-insert_sorted k c (sort_records (values m)) new
          ∙ ground (arith, ih.same_get k, h.0.0);
      distinct = insert_sorted-IsDistinct c _ new ih.distinct;
      good = All-insert_sorted c _ h.0.1 ih.good;
    }

-- A map that `serialize` wrote is read back with the same credential under every name, if each of
-- its records is one that `create` makes, stands under its own database, and no key stands twice.
pub get-parse-serialize :
    (m : Map Credential) (k : Str)
    → AllRecords m
    → IsDistinct m
    → get k (parse (serialize m)) ≡ get k m
unfolding parse serialize
get-parse-serialize m k h d =
    let s = sort-SortedAs m h d in
    ap (get k) (parse_lines-serialize _ [] s.good s.distinct (Fresh-nil _)) ∙ s.same_get k
