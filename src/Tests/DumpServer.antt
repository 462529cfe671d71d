-- ===== src/Tests/DumpServer.antt =====
-- src/dumpsrv.rs at fixed inputs.
use pg_fc.Base.{
  length, str, str_eq, get, insert, ◌≤◌, ◌≡◌, refl, ◌≢◌, true, false, none, some, List, [], ◌∷◌,
  arith,
}
use pg_fc.DumpServer.{
  finish_put, receive, failed_put, same_mode, is_live, put_mode, get_mode, Grant, DumpServer,
  Status, ok, Chunk, bytes, broken, Io, authorize, upload, upload_completed, handle_put,
  handle_commit, handle_abort, handle_get, max_dump_bytes, finish_put, land_put, with_grant,
  hold_put, suspend,
}
use pg_fc.DumpServer.Access.{SameFiles, writes_stay_in_schema}
use pg_fc.DumpServer.Uploads.{Whole, streamed_upload, failed_put_changes_nothing}

abbrev shop_put : Grant
shop_put = record {
  schema = str "shop";
  mode = put_mode;
  issued = 100;
  completed = none;
  pending = none;
}

abbrev one_token : DumpServer
one_token = record {
  tokens = (str "t1", shop_put) ∷ [];
  dumps = (str "shop", str "old") ∷ (str "blog", str "posts") ∷ [];
  tmps = [];
}

abbrev io_works : Io
io_works = record { create_ok = true; sync_ok = true; rename_ok = true }

abbrev body : List Chunk
body = bytes (str "new") ∷ bytes (str "-dump") ∷ []

abbrev broken_body : List Chunk
broken_body = bytes (str "new") ∷ broken ∷ []

get_after_put :
    handle_get (str "t2") 150 (record ((handle_put io_works (str "t1") true body 150 one_token).1) {
      tokens = (str "t2", record shop_put { mode = get_mode }) ∷ [];
    })
    ≡ (ok, some (str "new-dump"))
unfolding handle_get authorize get str_eq handle_put finish_put upload land_put with_grant insert
get_after_put = refl

t1_good : authorize (str "t1") put_mode 150 one_token ≡ some (str "shop")
unfolding authorize get str_eq
t1_good = refl

t1_old : authorize (str "t1") put_mode 3700 one_token ≡ none
unfolding authorize get str_eq
t1_old = refl

uploaded : upload io_works body ≡ some (str "new-dump")
unfolding upload
uploaded = refl

t1_not_blog : authorize (str "t1") put_mode 150 one_token ≢ some (str "blog")
unfolding authorize get str_eq same_mode is_live
t1_not_blog h = ground arith

writes_stay_in_schema_example :
    SameFiles (str "blog") one_token (handle_put io_works (str "t1") true body 150 one_token).1
    × SameFiles (str "blog") one_token (handle_commit io_works (str "t1") 150 one_token).1
    × SameFiles (str "blog") one_token (handle_abort (str "t1") 150 one_token).1
writes_stay_in_schema_example =
    writes_stay_in_schema io_works (str "t1") true body 150 one_token (str "blog") t1_not_blog

put_done : DumpServer
put_done = (handle_put io_works (str "t1") false body 150 one_token).1

committed : Status × DumpServer
committed = handle_commit io_works (str "t1") 200 put_done

streamed_upload_example :
    (put_done.dumps ≡ one_token.dumps)
    × (upload_completed (str "t1") put_done ≡ upload_completed (str "t1") one_token)
    × (committed.0 ≡ ok)
    × (get (str "shop") committed.1.dumps ≡ some (str "new-dump"))
    × (upload_completed (str "t1") committed.1 ≡ some (length (str "new-dump")))
    × (length (str "new-dump") ≤ max_dump_bytes)
    × Whole body (str "new-dump")
unfolding put_done committed authorize get str_eq
streamed_upload_example =
    streamed_upload io_works (str "t1") body 150 one_token (str "shop") t1_good io_works 200
      (str "new-dump") uploaded refl refl

broken_put_fails : (handle_put io_works (str "t1") true broken_body 150 one_token).0 ≢ ok
unfolding handle_put finish_put upload receive failed_put authorize get str_eq same_mode is_live
broken_put_fails h = cc

failed_put_changes_nothing_example :
    ((handle_put io_works (str "t1") true broken_body 150 one_token).1.dumps ≡ one_token.dumps)
    × ((handle_put io_works (str "t1") true broken_body 150 one_token).1.tokens ≡ one_token.tokens)
failed_put_changes_nothing_example =
    failed_put_changes_nothing io_works (str "t1") true broken_body 150 one_token broken_put_fails

aborted : Status × DumpServer
unfolding put_done
aborted = handle_abort (str "t1") 160 put_done

put_done_good : authorize (str "t1") put_mode 160 put_done ≡ some (str "shop")
unfolding put_done authorize get handle_put str_eq finish_put upload hold_put with_grant insert
    suspend
put_done_good = refl

put_done_later : authorize (str "t1") put_mode 170 put_done ≡ some (str "shop")
unfolding put_done authorize get handle_put str_eq finish_put upload hold_put with_grant insert
    suspend
put_done_later = refl
