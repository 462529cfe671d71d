-- ===== src/Store/Rows.antt =====
-- src/store.rs: how the operations change the rows and the ids bound in them.
use pg_fc.Base.{
  Bool-cases, Str, eq_of_str_eq, str_eq, Map, get, insert, ◌≡◌, inl, inr, some, [], ◌∷◌, arith,
}
use pg_fc.Store.Format.{StoreRecord}
use pg_fc.Store.Format.RoundTrip.{IsRow, AllRows}
use pg_fc.Store.{row_ids}

-- A row that keeps its id keeps the list of ids.
pub row_ids-insert_same :
    (k : Str) (r r' : StoreRecord) (m : Map StoreRecord)
    → get k m ≡ some r
    → r'.sandbox_id ≡ r.sandbox_id
    → row_ids (insert k r' m) ≡ row_ids m
unfolding row_ids get insert
row_ids-insert_same k r r' [] e h = cc
row_ids-insert_same k r r' ((j, w) ∷ m) e h = ground (arith, row_ids-insert_same k r r' m)

pub AllRows-insert :
    (k : Str) (r : StoreRecord) (m : Map StoreRecord)
    → IsRow k r
    → AllRows m
    → AllRows (insert k r m)
unfolding insert
AllRows-insert k r [] e h = (e, tt)
AllRows-insert k r ((j, w) ∷ m) e h = elim (Bool-cases (str_eq j k)) [
  | inl same ↦ rw same (rw (eq_of_str_eq j k same) e, h.1)
  | inr other ↦ rw other (h.0, AllRows-insert k r m e h.1)
]

pub AllRows-get :
    (k : Str) (r : StoreRecord) (m : Map StoreRecord) → AllRows m → get k m ≡ some r → IsRow k r
unfolding get
AllRows-get k r [] h e = cc
AllRows-get k r ((j, w) ∷ m) h e = elim (Bool-cases (str_eq j k)) [
  | inl same ↦
      let found : w ≡ r = ground arith in let p = eq_of_str_eq j k same in rw (← p, ← found) h.0
  | inr other ↦ AllRows-get k r m h.1 (ground arith)
]
