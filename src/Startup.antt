-- ===== src/Startup.antt =====
-- src/startup.rs: the startup handshake, over the bytes that the client sends. The TLS handshake and
-- the decoding of UTF-8 are libraries' and are arguments.
pub mod Replay
pub mod Framing
use pg_fc.Base.{
  ltb, leb, ◌==◌, if◌then◌else◌, unwrap_or, length, take, drop, Str, str, is_empty, Map, get,
  insert, ℕ, zero, suc, ◌+◌, ◌-◌, ◌*◌, ◌^◌, ◌||◌, Option, none, some, List, [], ◌∷◌, ◌++◌,
}
use pg_fc.Text.{split}

abbrev pub ssl_request_code : ℕ
ssl_request_code = 80877103

abbrev pub gss_enc_request_code : ℕ
gss_enc_request_code = 80877104

abbrev pub protocol_v3 : ℕ
protocol_v3 = 196608

pub record StartupInfo : Type 0 where
  pub database : Str
  pub user : Str
  pub raw : List ℕ

-- A code, the four bytes of the length, the body, and what comes after it.
pub record Message : Type 0 where
  pub code : ℕ
  pub len_buf : List ℕ
  pub body : List ℕ
  pub rest : List ℕ

-- `from_be_bytes`, without the sign.
unfoldable pub be_bytes : List ℕ → ℕ
be_bytes (a ∷ b ∷ c ∷ d ∷ _) = a * 2 ^ 24 + b * 2 ^ 16 + c * 2 ^ 8 + d
be_bytes _ = 0

-- The body of a message of a length, if it has come.
unfoldable pub read_body : List ℕ → ℕ → List ℕ → Option Message
read_body len_buf body_len stream =
    if ltb (length stream) body_len
    then none
    else some (record {
      code = be_bytes (take body_len stream);
      len_buf = len_buf;
      body = take body_len stream;
      rest = drop body_len stream;
    })

-- An i32 that is negative is too small as well.
unfoldable pub read_sized : List ℕ → ℕ → List ℕ → Option Message
read_sized len_buf len stream =
    if leb (2 ^ 31) len || ltb len 8 then none else read_body len_buf (len - 4) stream

-- `none` is an error: a length that is too small, or the end of the stream.
unfoldable pub read_message : List ℕ → Option Message
read_message (a ∷ b ∷ c ∷ d ∷ stream) =
    read_sized (a ∷ b ∷ c ∷ d ∷ []) (be_bytes (a ∷ b ∷ c ∷ d ∷ [])) stream
read_message _ = none

pub data Startup : Type 0 where
  accepted : StartupInfo → List ℕ → Startup
  refused out_of_fuel : Startup

module _ (lossy : List ℕ → Str) where
  -- Pairs of a key and a value, up to an empty key; a value that is missing is empty.
  unfoldable pub parse_pairs : List (List ℕ) → Map Str → Map Str
  parse_pairs [] m = m
  parse_pairs (key ∷ []) m = if is_empty key then m else insert (lossy key) (lossy []) m
  parse_pairs (key ∷ val ∷ parts) m =
      let more = parse_pairs parts (insert (lossy key) (lossy val) m) in
      if is_empty key then m else more

  unfoldable pub parse_params : List ℕ → Map Str
  parse_params bytes = parse_pairs (split 0 bytes) []

  unfoldable pub database_or : Option Str → Str → Str
  database_or none user = user
  database_or (some d) user = if is_empty d then user else d

  unfoldable pub parse_startup_message : List ℕ → List ℕ → Option StartupInfo
  parse_startup_message len_buf body =
      let params = parse_params (drop 4 body) in
      let user = unwrap_or (get (str "user") params) [] in
      let database = database_or (get (str "database") params) user in
      if is_empty database
      then none
      else some (record { database = database; user = user; raw = len_buf ++ body })

  unfoldable pub finish_startup : Option StartupInfo → List ℕ → Startup
  finish_startup none rest = refused
  finish_startup (some info) rest = accepted info rest

  -- The loop after the preamble: a request for encryption is declined and read past.
  unfoldable pub read_startup_plain : ℕ → List ℕ → Startup
  read_startup_plain zero stream = out_of_fuel
  read_startup_plain (suc fuel) stream = elim (read_message stream) [
    | none ↦ refused
    | some m ↦
        let again = read_startup_plain fuel m.rest in
        if m.code == ssl_request_code || m.code == gss_enc_request_code
        then again
        else if m.code == protocol_v3
        then finish_startup (parse_startup_message m.len_buf m.body) m.rest
        else refused
  ]

  -- What the handshake makes of the rest of the stream, or its failure.
  unfoldable pub upgrade : ℕ → Option (List ℕ) → Startup
  upgrade fuel none = refused
  upgrade fuel (some decrypted) = read_startup_plain fuel decrypted

  -- The first loop: with a certificate, a request for TLS is taken up.
  unfoldable pub read_startup : ℕ → Option (List ℕ → Option (List ℕ)) → List ℕ → Startup
  read_startup zero tls stream = out_of_fuel
  read_startup (suc fuel) tls stream = elim (read_message stream) [
    | none ↦ refused
    | some m ↦
        let again = read_startup fuel tls m.rest in
        let plain =
          (if m.code == ssl_request_code || m.code == gss_enc_request_code
            then again
            else if m.code == protocol_v3
            then finish_startup (parse_startup_message m.len_buf m.body) m.rest
            else refused) in
        elim tls [
          | none ↦ plain
          | some handshake ↦
              if m.code == ssl_request_code then upgrade fuel (handshake m.rest) else plain
        ]
  ]
