-- ===== src/Tests/Store.antt =====
-- src/store.rs at fixed inputs.
use pg_fc.Base.{
  Str, str, str_eq, is_empty, Map, IsDistinct, get, insert, ◌≡◌, refl, false, none, some, [], ◌∷◌,
  arith,
}
use pg_fc.Text.{lines, split, show_u64, parse_u64}
use pg_fc.Store.Atomic.{Disk, no_fault, write_atomic}
use pg_fc.Store.Format.{
  live, frozen, archived, StoreRecord, parse, serialize, serialize_row, as_str, parse_tier,
}
use pg_fc.Store.Format.RoundTrip.{IsRow, AllRows, parse-serialize}
use pg_fc.Store.{
  Store, load, put, set_tier, write_latest, bound_ids, row_ids, put_new, stamp, bind_row, landed,
}
use pg_fc.Store.Steps.{World, put_step, puts, writes, Reach, at_start, extends}
use pg_fc.Store.Steps.Bindings.{RowsInv}
use pg_fc.Store.Steps.Restart.{started, restart_rows, bound_ids_fresh, set_tier_durable}
use pg_fc.Store.Steps.Advance.{Advances, Reach-Advances}

abbrev wb1 : StoreRecord
wb1 = record { sandbox_id = str "sb-1"; last_active = 1700000000; tier = live }

abbrev wb2 : StoreRecord
wb2 = record { sandbox_id = str "sb-2"; last_active = 1700000500; tier = frozen }

abbrev two_rows : Map StoreRecord
two_rows = (str "wb1", wb1) ∷ (str "wb2", wb2) ∷ []

abbrev two_lines : Str
two_lines = str "wb1\tsb-1\t1700000000\tlive\nwb2\tsb-2\t1700000500\tfrozen\n"

serialize-two_rows : serialize two_rows ≡ two_lines
unfolding serialize serialize_row show_u64 as_str
serialize-two_rows = refl

-- The legacy format takes the time of the load; a blank id drops the line.
parse_legacy :
    parse (str "wb\tsb-9\nbad\t\t5\tlive\nwb2\tsb-2\t7\tarchived") 12345
    ≡ (str "wb", record { sandbox_id = str "sb-9"; last_active = 12345; tier = live })
      ∷ (str "wb2", record { sandbox_id = str "sb-2"; last_active = 7; tier = archived })
      ∷ []
unfolding parse lines split is_empty insert str_eq parse_u64 parse_tier
parse_legacy = refl

wb1-IsRow : IsRow (str "wb1") wb1
wb1-IsRow = record {
  named = λ e. cc;
  clean = ground arith;
  bound = λ e. cc;
  clean_id = ground arith;
  clock_fits = omega arith;
}

wb2-IsRow : IsRow (str "wb2") wb2
wb2-IsRow = record {
  named = λ e. cc;
  clean = ground arith;
  bound = λ e. cc;
  clean_id = ground arith;
  clock_fits = omega arith;
}

two_rows-fit : AllRows two_rows
two_rows-fit = (wb1-IsRow, (wb2-IsRow, tt))

two_rows-IsDistinct : IsDistinct two_rows
unfolding get pg_fc.Base.str_eq
two_rows-IsDistinct = (refl, (refl, tt))

parse-serialize_example : parse (serialize two_rows) 5 ≡ two_rows
parse-serialize_example = parse-serialize two_rows 5 two_rows-fit two_rows-IsDistinct

abbrev empty_disk : Disk
empty_disk = record { file = none; tmp = none }

fresh_start : World
fresh_start = started empty_disk 50

bound_once : World
bound_once = put_step (str "wb1") (str "sb-1") 1700000000 fresh_start

abbrev one_row : Map StoreRecord
one_row = (str "wb1", wb1) ∷ []

landed_once : World
unfolding bound_once
landed_once = record bound_once {
  store = write_latest no_fault (1, serialize one_row) bound_once.store;
  queued = [];
}

fresh-RowsInv : RowsInv (load empty_disk 50)
unfolding load parse pg_fc.Text.lines
fresh-RowsInv = record { distinct = tt; rows_fit = tt; cached = λ ids. cc }

run_once : Reach fresh_start landed_once
unfolding fresh_start bound_once landed_once load parse put_step put serialize get lines put_new
    stamp bind_row serialize_row insert
run_once =
    extends (writes [] [] (1, serialize one_row) no_fault refl)
      (extends (puts (str "wb1") (str "sb-1") 1700000000 wb1-IsRow) at_start)

restart_rows_example : (load landed_once.store.disk 60).rows ≡ landed_once.store.rows
unfolding fresh_start bound_once landed_once load parse put_step put serialize write_latest get
    lines put_new stamp bind_row landed write_atomic
restart_rows_example =
    restart_rows empty_disk 50 landed_once fresh-RowsInv run_once refl refl (omega arith) refl 60

bound_ids_fresh_example : (bound_ids landed_once.store).0 ≡ row_ids landed_once.store.rows
unfolding fresh_start
bound_ids_fresh_example = bound_ids_fresh empty_disk 50 landed_once fresh-RowsInv run_once

Reach-Advances_example : Advances fresh_start.store landed_once.store
Reach-Advances_example = Reach-Advances run_once

abbrev two_row_store : Store
two_row_store = record {
  rows = two_rows;
  seq = 3;
  written = 2;
  dirty = false;
  bound_cache = none;
  disk = empty_disk;
}

two_row-RowsInv : RowsInv two_row_store
two_row-RowsInv = record {
  distinct = two_rows-IsDistinct;
  rows_fit = two_rows-fit;
  cached = λ ids. cc;
}

set_tier_durable_example :
    (get (str "wb1") (set_tier no_fault (str "wb1") archived two_row_store).rows
      ≡ some (record wb1 { tier = archived }))
    × (get (str "wb1") (load (set_tier no_fault (str "wb1") archived two_row_store).disk 60).rows
        ≡ some (record wb1 { tier = archived }))
unfolding get pg_fc.Base.str_eq
set_tier_durable_example =
    set_tier_durable (str "wb1") archived two_row_store wb1 60 two_row-RowsInv (omega arith) refl
