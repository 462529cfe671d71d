-- ===== src/DumpServer/Uploads.antt =====
-- src/dumpsrv.rs: when an upload becomes the schema's dump.
use pg_fc.Base.{
  Bool-cases, Option-cases, ◌>>=◌, length, length-append, Str, get-insert_self, get-remove_self,
  get, insert, remove, ℕ, ◌+◌, ◌≤◌, ◌≡◌, refl, ap, ◌∙◌, ◌≢◌, inl, inr, Bool, true, false, Option,
  none, some, List, [], ◌∷◌, ◌++◌, append_assoc, append-nil, arith,
}
use pg_fc.DumpServer.{
  Mode, put_mode, Grant, DumpServer, Io, Chunk, bytes, unwritten, broken, ok, max_dump_bytes,
  authorize, receive, upload, with_grant, hold_put, finish_put, handle_put, suspend, settle,
  handle_commit, commit_known, commit_pending, rename_tmp, upload_completed, land_put, handle_abort,
  failed_put, discard, conflict,
}

-- The bytes of a body that arrived whole.
abbrev pub Whole : List Chunk → Str → Type 0
Whole [] file = file ≡ []
Whole (bytes b ∷ rest) file = (s : Str) × (file ≡ b ++ s) × Whole rest s
Whole (unwritten b ∷ rest) file = ⊥
Whole (broken ∷ rest) file = ⊥

receive-Whole :
    (body : List Chunk) (start file : Str)
    → length start ≤ max_dump_bytes
    → receive body start ≡ some file
    → (length file ≤ max_dump_bytes) × ((s : Str) × (file ≡ start ++ s) × Whole body s)
unfolding receive
receive-Whole [] start file b h = (ground arith, ([], ground (arith, append-nil start), refl))
receive-Whole (bytes b ∷ rest) start file l h =
    let small : length start + length b ≤ max_dump_bytes = ground arith in
    let w =
      receive-Whole rest (start ++ b) file (omega (arith, length-append start b)) (ground arith) in
    (w.0, (b ++ w.1.0, w.1.1 ∙ append_assoc start b w.1.0, (w.1.0, refl, w.1.2)))
receive-Whole (unwritten b ∷ rest) start file l h = cc
receive-Whole (broken ∷ rest) start file l h = cc

received :
    (io : Io) (body : List Chunk) (file : Str)
    → upload io body ≡ some file
    → receive body [] ≡ some file
unfolding upload
received io body file h = ground arith

-- What `upload` lets through is the whole body, within the limit.
pub upload-Whole :
    (io : Io) (body : List Chunk) (file : Str)
    → upload io body ≡ some file
    → (length file ≤ max_dump_bytes) × Whole body file
upload-Whole io body file h =
    let w = receive-Whole body [] file (omega arith) (received io body file h) in
    (w.0, rw (w.1.1) w.1.2)

with_grant_found :
    (token : Str) (f : Grant → Grant) (g : Grant) (s : DumpServer)
    → get token s.tokens ≡ some g
    → with_grant token f s ≡ record s { tokens = insert token (f g) s.tokens }
unfolding with_grant
with_grant_found token f g s e = rw (e, with_grant)

-- An operation on the grant that keeps its mode, its schema and its age keeps its access.
authorize-insert :
    (token : Str) (mode : Mode) (now : ℕ) (s t : DumpServer) (g h : Grant)
    → get token s.tokens ≡ some g
    → t.tokens ≡ insert token h s.tokens
    → h.mode ≡ g.mode
    → h.schema ≡ g.schema
    → h.issued ≡ g.issued
    → authorize token mode now t ≡ authorize token mode now s
unfolding authorize
authorize-insert token mode now s t g h e f m c i =
    rw (f, get-insert_self token h s.tokens, e) (cc (m, c, i))

authorized :
    (token : Str) (mode : Mode) (now : ℕ) (s : DumpServer) (schema : Str)
    → authorize token mode now s ≡ some schema
    → (g : Grant) × (get token s.tokens ≡ some g)
unfolding authorize
authorized token mode now s schema h = elim (Option-cases (get token s.tokens)) [
  | inl e ↦ absurd (ground arith)
  | inr (g, e) ↦ (g, e)
]

module _ (io : Io) (token : Str) (body : List Chunk) (now : ℕ) (srv : DumpServer) (schema : Str)
    (allowed : authorize token put_mode now srv ≡ some schema) where
  -- A streamed upload that was received, up to its commit.
  held_by : (file : Str) (g : Grant) → DumpServer
  held_by file g = record srv {
    tokens = insert token (suspend (length file) g) srv.tokens;
    tmps = insert schema file srv.tmps;
  }

  put_streamed :
      (file : Str) (g : Grant)
      → upload io body ≡ some file
      → get token srv.tokens ≡ some g
      → handle_put io token false body now srv ≡ (ok, held_by file g)
  unfolding handle_put finish_put hold_put held_by
  put_streamed file g u e = rw (
    allowed,
    handle_put,
    u,
    with_grant_found token (suspend (length file)) g
        (record srv { tmps = insert schema file srv.tmps }) e,
  )

  committed_by : (file : Str) (g : Grant) → DumpServer
  unfolding held_by
  committed_by file g = record (held_by file g) {
    tokens = insert token (settle (length file) (suspend (length file) g)) (held_by file g).tokens;
    dumps = insert schema file srv.dumps;
    tmps = remove schema (held_by file g).tmps;
  }

  commit_held :
      (io' : Io) (later : ℕ) (file : Str) (g : Grant)
      → get token srv.tokens ≡ some g
      → authorize token put_mode later srv ≡ some schema
      → io'.rename_ok ≡ true
      → handle_commit io' token later (held_by file g) ≡ (ok, committed_by file g)
  unfolding handle_commit commit_known commit_pending rename_tmp held_by committed_by suspend
  commit_held io' later file g e a r =
      let s = held_by file g in
      let still : authorize token put_mode later s ≡ some schema =
        authorize-insert token put_mode later srv s g (suspend (length file) g) e refl refl refl
          refl
        ∙ a in
      let kept : get token s.tokens ≡ some (suspend (length file) g) =
        get-insert_self token (suspend (length file) g) srv.tokens in
      let waiting : (get token s.tokens >>= λ g. g.pending) ≡ some (length file) =
        ap (λ o. o >>= λ (x : Grant). x.pending) kept in
      let moved = record s { dumps = insert schema file srv.dumps; tmps = remove schema s.tmps } in
      let renamed : rename_tmp io' schema s ≡ some moved =
        rw (get-insert_self schema file srv.tmps, rename_tmp, r) in
      rw (still, handle_commit, waiting, commit_known, renamed, commit_pending)
        (ap (λ t. (ok, t))
          (with_grant_found token (settle (length file)) (suspend (length file) g) moved kept))

  -- A chunked upload that was received, followed by a commit while the token is still good: until the
  -- commit neither the dumps nor the completion that the token reports change; after it the dump is
  -- the whole body that was sent, within the size limit, and the token reports its length.
  pub streamed_upload :
      (io' : Io) (later : ℕ) (file : Str)
      → upload io body ≡ some file
      → authorize token put_mode later srv ≡ some schema
      → io'.rename_ok ≡ true
      → let put = handle_put io token false body now srv in
        let done = handle_commit io' token later put.1 in
        (put.1.dumps ≡ srv.dumps)
        × (upload_completed token put.1 ≡ upload_completed token srv)
        × (done.0 ≡ ok)
        × (get schema done.1.dumps ≡ some file)
        × (upload_completed token done.1 ≡ some (length file))
        × (length file ≤ max_dump_bytes)
        × Whole body file
  unfolding upload_completed suspend settle held_by committed_by
  streamed_upload io' later file u a r =
      let found = authorized token put_mode now srv schema allowed in
      let g = found.0 in
      let e = found.1 in
      let w = upload-Whole io body file u in
      rw (put_streamed file g u e, commit_held io' later file g e a r)
        (
          refl,
          rw (get-insert_self token (suspend (length file) g) srv.tokens, e),
          refl,
          get-insert_self schema file srv.dumps,
          rw (
              get-insert_self token (settle (length file) (suspend (length file) g))
                (held_by file g).tokens),
          w.0,
          w.1,
        )

failed_finish :
    (io : Io) (length_known : Bool) (token schema : Str) (file : Option Str) (srv : DumpServer)
    → (finish_put io length_known token schema file srv).0 ≢ ok
    → ((finish_put io length_known token schema file srv).1.dumps ≡ srv.dumps)
      × ((finish_put io length_known token schema file srv).1.tokens ≡ srv.tokens)
unfolding finish_put land_put hold_put failed_put
failed_finish io k token schema none srv h = (refl, refl)
failed_finish io true token schema (some file) srv h = elim (Bool-cases io.rename_ok) [
  | inl e ↦ absurd (h (rw (e, land_put)))
  | inr e ↦ rw (e, land_put) (refl, refl)
]
failed_finish io false token schema (some file) srv h = absurd (h refl)

-- An upload that is not answered `OK` has changed no dump and no grant, on any of its error paths.
pub failed_put_changes_nothing :
    (io : Io) (token : Str) (length_known : Bool) (body : List Chunk) (now : ℕ) (srv : DumpServer)
    → (handle_put io token length_known body now srv).0 ≢ ok
    → ((handle_put io token length_known body now srv).1.dumps ≡ srv.dumps)
      × ((handle_put io token length_known body now srv).1.tokens ≡ srv.tokens)
unfolding handle_put
failed_put_changes_nothing io token length_known body now srv h =
    elim (Option-cases (authorize token put_mode now srv)) [
      | inl e ↦ rw (e, handle_put) (refl, refl)
      | inr (schema, e) ↦
          rw (e, handle_put)
            (failed_finish io length_known token schema (upload io body) srv
              (rw (e, handle_put) at h))
    ]

-- After an abort the token has nothing to commit: a commit is answered with a conflict and changes
-- nothing, and the abort itself has changed no dump.
pub abort_discards :
    (io : Io) (token : Str) (now later : ℕ) (srv : DumpServer) (schema : Str)
    → authorize token put_mode now srv ≡ some schema
    → authorize token put_mode later srv ≡ some schema
    → let aborted = handle_abort token now srv in
      (aborted.0 ≡ ok)
      × (aborted.1.dumps ≡ srv.dumps)
      × (get schema aborted.1.tmps ≡ none)
      × (handle_commit io token later aborted.1 ≡ (conflict, aborted.1))
unfolding handle_abort handle_commit commit_known discard
abort_discards io token now later srv schema a b =
    let found = authorized token put_mode now srv schema a in
    let g = found.0 in
    let e = found.1 in
    let cleared = record srv {
      tokens = insert token (discard g) srv.tokens;
      tmps = remove schema srv.tmps;
    } in
    let aborts : handle_abort token now srv ≡ (ok, cleared) =
      rw (a, handle_abort, with_grant_found token discard g srv e) in
    let still : authorize token put_mode later cleared ≡ some schema =
      authorize-insert token put_mode later srv cleared g (discard g) e refl refl refl refl ∙ b in
    let nothing : (get token cleared.tokens >>= λ g. g.pending) ≡ none =
      ap (λ o. o >>= λ (x : Grant). x.pending) (get-insert_self token (discard g) srv.tokens) in
    rw aborts (
      refl,
      refl,
      get-remove_self schema srv.tmps,
      rw (still, handle_commit, nothing, commit_known),
    )
