-- ===== src/DumpServer/Access.antt =====
-- src/dumpsrv.rs: what a token lets its holder touch.
use pg_fc.Base.{
  if◌then◌else◌, Bool-cases, Option-cases, ◌>>=◌, length, Str, str_eq_iff, str_eq, get-insert,
  get-remove, get, remove, ℕ, ◌-◌, ◌<◌, ◌≡◌, refl, ◌≢◌, ◌↔◌, inl, inr, Bool, true, false, ◌&&◌,
  Option, none, some, List, arith,
}
use pg_fc.DumpServer.{
  Mode, put_mode, get_mode, Grant, DumpServer, Io, Chunk, token_ttl, same_mode, is_live, authorize,
  upload, with_grant, failed_put, land_put, hold_put, finish_put, handle_put, rename_tmp,
  commit_pending, commit_known, handle_commit, handle_abort, complete, suspend, settle, discard,
}

same_mode_iff : (a b : Mode) → (same_mode a b ≡ true) ↔ (a ≡ b)
unfolding same_mode
same_mode_iff put_mode put_mode = (λ _. refl, λ _. refl)
same_mode_iff get_mode get_mode = (λ _. refl, λ _. refl)
same_mode_iff put_mode get_mode = (λ h. cc, λ h. cc)
same_mode_iff get_mode put_mode = (λ h. cc, λ h. cc)

-- What a grant that is found must be.
abbrev pub Allows : Mode → ℕ → Str → Grant → Type 0
Allows mode now schema g = (g.mode ≡ mode) × (g.schema ≡ schema) × (now - g.issued < token_ttl)

allowed :
    (mode : Mode) (now : ℕ) (schema : Str) (g : Grant)
    → ((if same_mode g.mode mode && is_live now g then some g.schema else none) ≡ some schema)
      ↔ Allows mode now schema g
unfolding is_live
allowed mode now schema g =
    (λ h. ground (arith, same_mode_iff g.mode mode), λ h. ground (arith, same_mode_iff g.mode mode))

-- A token is accepted exactly for the mode and the schema that it was issued for, and for less than
-- an hour.
pub authorize_iff :
    (token : Str) (mode : Mode) (now : ℕ) (srv : DumpServer) (schema : Str)
    → (authorize token mode now srv ≡ some schema)
      ↔ ((g : Grant) × (get token srv.tokens ≡ some g) × Allows mode now schema g)
unfolding authorize
authorize_iff token mode now srv schema = elim (Option-cases (get token srv.tokens)) [
  | inl e ↦ (λ h. absurd (ground arith), λ h. absurd (ground arith))
  | inr (g, e) ↦ (
    λ h. (g, e, (allowed mode now schema g).0 (ground arith)),
    λ h. ground (arith, allowed mode now schema g, h.1),
  )
]

-- The dump and the temporary file of one schema.
abbrev pub SameFiles : Str → DumpServer → DumpServer → Type 0
SameFiles j s t = (get j t.dumps ≡ get j s.dumps) × (get j t.tmps ≡ get j s.tmps)

with_grant-SameFiles :
    (j token : Str) (f : Grant → Grant) (s t : DumpServer)
    → SameFiles j s t
    → SameFiles j s (with_grant token f t)
unfolding with_grant
with_grant-SameFiles j token f s t h = ground arith

module _ (j schema : Str) (other : str_eq schema j ≡ false) where
  finish_put-SameFiles :
      (io : Io) (length_known : Bool) (token : Str) (file : Option Str) (s : DumpServer)
      → SameFiles j s (finish_put io length_known token schema file s).1
  unfolding finish_put land_put hold_put failed_put
  finish_put-SameFiles io k token none s = ground (arith, get-remove schema j s.tmps)
  finish_put-SameFiles io true token (some file) s = elim (Bool-cases io.rename_ok) [
    | inl e ↦
        rw (e, land_put)
          (with_grant-SameFiles j token (complete (length file)) s _ (
            ground (arith, get-insert schema j file s.dumps),
            ground (arith, get-remove schema j s.tmps),
          ))
    | inr e ↦ rw (e, land_put) (ground (arith, get-remove schema j s.tmps))
  ]
  finish_put-SameFiles io false token (some file) s =
      with_grant-SameFiles j token (suspend (length file)) s _
        (refl, ground (arith, get-insert schema j file s.tmps))

  rename_tmp-SameFiles :
      (io : Io) (s t : DumpServer) → rename_tmp io schema s ≡ some t → SameFiles j s t
  unfolding rename_tmp
  rename_tmp-SameFiles io s t h = elim (Option-cases (get schema s.tmps)) [
    | inl e ↦ absurd (ground arith)
    | inr (file, e) ↦ ground (arith, get-insert schema j file s.dumps, get-remove schema j s.tmps)
  ]

  commit_pending-SameFiles :
      (io : Io) (token : Str) (n : ℕ) (s : DumpServer)
      → SameFiles j s (commit_pending io token schema n s).1
  unfolding commit_pending
  commit_pending-SameFiles io token n s = elim (Option-cases (rename_tmp io schema s)) [
    | inl e ↦ rw (e, commit_pending) (refl, refl)
    | inr (t, e) ↦
        rw (e, commit_pending)
          (with_grant-SameFiles j token (settle n) s t (rename_tmp-SameFiles io s t e))
  ]

  commit-SameFiles :
      (io : Io) (token : Str) (s : DumpServer) → SameFiles j s (commit_known io token schema s).1
  unfolding commit_known
  commit-SameFiles io token s = elim (Option-cases (get token s.tokens >>= λ g. g.pending)) [
    | inl e ↦ rw (e, commit_known) (refl, refl)
    | inr (n, e) ↦ rw (e, commit_known) (commit_pending-SameFiles io token n s)
  ]

  abort-SameFiles :
      (token : Str) (s : DumpServer)
      → let held = with_grant token discard s in
        SameFiles j s (record held { tmps = remove schema held.tmps })
  abort-SameFiles token s =
      let held = with_grant token discard s in
      let same = with_grant-SameFiles j token discard s s (refl, refl) in
      (same.0, ground (arith, get-remove schema j held.tmps, same.1))

-- A token touches the files of no schema but the one that it lets its holder write: neither an
-- upload, nor a commit, nor an abort, on any of their branches, changes the dump or the temporary
-- file of another. (A token of the reading mode, an expired one and an unknown one change none.)
pub writes_stay_in_schema :
    (io : Io) (token : Str) (length_known : Bool) (body : List Chunk) (now : ℕ) (srv : DumpServer)
    (j : Str)
    → authorize token put_mode now srv ≢ some j
    → SameFiles j srv (handle_put io token length_known body now srv).1
      × SameFiles j srv (handle_commit io token now srv).1
      × SameFiles j srv (handle_abort token now srv).1
unfolding handle_put handle_commit handle_abort
writes_stay_in_schema io token length_known body now srv j h =
    elim (Option-cases (authorize token put_mode now srv)) [
      | inl e ↦ (
        rw (e, handle_put) (refl, refl),
        rw (e, handle_commit) (refl, refl),
        rw (e, handle_abort) (refl, refl),
      )
      | inr (schema, e) ↦
          let other : str_eq schema j ≡ false = ground (arith, str_eq_iff schema j) in
          (
            rw (e, handle_put)
                (finish_put-SameFiles j schema other io length_known token (upload io body) srv),
            rw (e, handle_commit) (commit-SameFiles j schema other io token srv),
            rw (e, handle_abort) (abort-SameFiles j schema other token srv),
          )
    ]
