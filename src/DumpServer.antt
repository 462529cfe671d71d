-- ===== src/DumpServer.antt =====
-- src/dumpsrv.rs: the local dump server. The clock is an argument, in seconds; a token comes from
-- the kernel's generator and is an argument too. The dump and the temporary file of a schema are two
-- maps over schemas: `dump_path` and `tmp_path` are one to one on the names that `issue` accepts, and
-- no dump has the path of a temporary file.
pub mod Access
pub mod Uploads
use pg_fc.Base.{
  ltb, leb, ◌==◌, if◌then◌else◌, ◌>>=◌, length, any, Str, is_empty, Map, get, insert, remove, ℕ,
  ◌+◌, ◌-◌, ◌*◌, Bool, true, false, not, ◌&&◌, ◌||◌, Option, none, some, List, [], ◌∷◌, ◌++◌,
}

pub data Mode : Type 0 where
  put_mode get_mode : Mode

pub record Grant : Type 0 where
  pub schema : Str
  pub mode : Mode
  pub issued : ℕ
  pub completed : Option ℕ
  pub pending : Option ℕ

pub record DumpServer : Type 0 where
  pub tokens : Map Grant
  pub dumps : Map Str
  pub tmps : Map Str

abbrev pub token_ttl : ℕ
token_ttl = 3600

abbrev pub max_dump_bytes : ℕ
max_dump_bytes = 5 * 1024 * 1024 * 1024

pub data Status : Type 0 where
  ok forbidden conflict server_error not_found : Status

unfoldable pub same_mode : Mode → Mode → Bool
same_mode put_mode put_mode = true
same_mode get_mode get_mode = true
same_mode _ _ = false

unfoldable pub is_live : ℕ → Grant → Bool
is_live now g = ltb (now - g.issued) token_ttl

unfoldable pub path_safe : Str → Bool
path_safe schema = not (any (λ c. c == b'/' || c == b'\\') schema) && not (is_empty schema)

unfoldable pub is_pending : Grant → Bool
is_pending g = elim g.pending [ none ↦ false | some n ↦ true ]

-- `tokens.retain(…)`.
unfoldable pub live_grants : ℕ → Map Grant → Map Grant
live_grants now [] = []
live_grants now ((t, g) ∷ m) =
    let rest = live_grants now m in if is_live now g then (t, g) ∷ rest else rest

-- The temporary files of the expired grants that were never committed go with them.
unfoldable pub without_expired : ℕ → Map Grant → Map Str → Map Str
without_expired now [] tmps = tmps
without_expired now ((t, g) ∷ m) tmps =
    without_expired now m
      (if not (is_live now g) && is_pending g then remove g.schema tmps else tmps)

unfoldable pub new_grant : Str → Mode → ℕ → Grant
new_grant schema mode now = record {
  schema = schema;
  mode = mode;
  issued = now;
  completed = none;
  pending = none;
}

-- `none` is the refusal of a name that is not path safe.
unfoldable pub issue : Str → Str → Mode → ℕ → DumpServer → Option DumpServer
unfolding path_safe new_grant
issue token schema mode now srv =
    if path_safe schema
    then some (record srv {
      tokens = insert token (new_grant schema mode now) (live_grants now srv.tokens);
      tmps = without_expired now srv.tokens srv.tmps;
    })
    else none

unfoldable pub upload_completed : Str → DumpServer → Option ℕ
upload_completed token srv = do g ← get token srv.tokens; g.completed

unfoldable pub authorize : Str → Mode → ℕ → DumpServer → Option Str
unfolding same_mode is_live
authorize token mode now srv = do
  g ← get token srv.tokens
  if same_mode g.mode mode && is_live now g then some g.schema else none

-- What the body stream yields: bytes that are written, bytes whose write fails, or its own error.
pub data Chunk : Type 0 where
  bytes unwritten : Str → Chunk
  broken : Chunk

pub record Io : Type 0 where
  pub create_ok : Bool
  pub sync_ok : Bool
  pub rename_ok : Bool

-- The loop over the body: the file so far, or `none` at the first error.
unfoldable pub receive : List Chunk → Str → Option Str
receive [] file = some file
receive (bytes b ∷ rest) file =
    let more = receive rest (file ++ b) in
    if leb (length file + length b) max_dump_bytes then more else none
receive (unwritten b ∷ rest) file = none
receive (broken ∷ rest) file = none

-- The upload up to its `fsync`.
unfoldable pub upload : Io → List Chunk → Option Str
unfolding receive
upload io body =
    if io.create_ok
    then (do file ← receive body []; if io.sync_ok then some file else none)
    else none

unfoldable pub with_grant : Str → (Grant → Grant) → DumpServer → DumpServer
with_grant token f srv = elim (get token srv.tokens) [
  | none ↦ srv
  | some g ↦ record srv { tokens = insert token (f g) srv.tokens }
]

unfoldable pub complete : ℕ → Grant → Grant
complete n g = record g { completed = some n }

unfoldable pub suspend : ℕ → Grant → Grant
suspend n g = record g { pending = some n }

-- A failed upload takes its temporary file away.
unfoldable pub failed_put : Str → DumpServer → Status × DumpServer
failed_put schema srv = (server_error, record srv { tmps = remove schema srv.tmps })

-- `length_known`: renamed into place at once, and complete.
unfoldable pub land_put : Io → Str → Str → Str → DumpServer → Status × DumpServer
land_put io token schema file srv =
    if io.rename_ok
    then (
      ok,
      with_grant token (complete (length file))
          (record srv { dumps = insert schema file srv.dumps; tmps = remove schema srv.tmps }),
    )
    else failed_put schema srv

-- A chunked body stays in the temporary file until its commit.
unfoldable pub hold_put : Str → Str → Str → DumpServer → Status × DumpServer
hold_put token schema file srv = (
  ok,
  with_grant token (suspend (length file)) (record srv { tmps = insert schema file srv.tmps }),
)

unfoldable pub finish_put : Io → Bool → Str → Str → Option Str → DumpServer → Status × DumpServer
finish_put io length_known token schema none srv = failed_put schema srv
finish_put io true token schema (some file) srv = land_put io token schema file srv
finish_put io false token schema (some file) srv = hold_put token schema file srv

unfoldable pub handle_put : Io → Str → Bool → List Chunk → ℕ → DumpServer → Status × DumpServer
handle_put io token length_known body now srv = elim (authorize token put_mode now srv) [
  | none ↦ (forbidden, srv)
  | some schema ↦ finish_put io length_known token schema (upload io body) srv
]

unfoldable pub settle : ℕ → Grant → Grant
settle n g = record g { pending = none; completed = some n }

-- The rename fails where there is no temporary file.
unfoldable pub rename_tmp : Io → Str → DumpServer → Option DumpServer
rename_tmp io schema srv = do
  file ← get schema srv.tmps
  if io.rename_ok
      then some (record srv { dumps = insert schema file srv.dumps; tmps = remove schema srv.tmps })
      else none

unfoldable pub commit_pending : Io → Str → Str → ℕ → DumpServer → Status × DumpServer
commit_pending io token schema n srv = elim (rename_tmp io schema srv) [
  | none ↦ (server_error, srv)
  | some renamed ↦ (ok, with_grant token (settle n) renamed)
]

-- Nothing pending on this token: a conflict.
unfoldable pub commit_known : Io → Str → Str → DumpServer → Status × DumpServer
commit_known io token schema srv = elim (get token srv.tokens >>= λ g. g.pending) [
  | none ↦ (conflict, srv)
  | some n ↦ commit_pending io token schema n srv
]

unfoldable pub handle_commit : Io → Str → ℕ → DumpServer → Status × DumpServer
handle_commit io token now srv = elim (authorize token put_mode now srv) [
  | none ↦ (forbidden, srv)
  | some schema ↦ commit_known io token schema srv
]

unfoldable pub discard : Grant → Grant
discard g = record g { pending = none }

unfoldable pub handle_abort : Str → ℕ → DumpServer → Status × DumpServer
handle_abort token now srv = elim (authorize token put_mode now srv) [
  | none ↦ (forbidden, srv)
  | some schema ↦ (
    ok,
    (let held = with_grant token discard srv in record held { tmps = remove schema held.tmps }),
  )
]

-- The bytes that are served.
unfoldable pub handle_get : Str → ℕ → DumpServer → Status × Option Str
handle_get token now srv = elim (authorize token get_mode now srv) [
  | none ↦ (forbidden, none)
  | some schema ↦ elim (get schema srv.dumps) [
    | none ↦ (not_found, none)
    | some file ↦ (ok, some file)
  ]
]
