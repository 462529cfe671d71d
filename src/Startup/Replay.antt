-- ===== src/Startup/Replay.antt =====
-- src/startup.rs: what is replayed upstream, and that the handshake ends.
use pg_fc.Base.{
  ◌==◌, if◌then◌else◌, Bool-cases, Option-cases, length, All, all, Str, is_empty, ℕ, zero, suc, ◌<◌,
  ◌≡◌, refl, sym, ap, ◌∙◌, ◌≢◌, inl, inr, false, ◌||◌, none, some, List, [], ◌∷◌, ◌++◌,
  append_assoc, arith,
}
use pg_fc.Startup.{
  StartupInfo, Message, ssl_request_code, gss_enc_request_code, protocol_v3, read_message, Startup,
  accepted, refused, out_of_fuel, parse_startup_message, finish_startup, read_startup_plain,
  read_startup,
}
use pg_fc.Startup.Framing.{
  IsFramed, IsRequest, join, past_append, IsRead, read_message-IsRead, requested, as_startup,
}

non_empty : (s : Str) → is_empty s ≡ false → s ≢ []
unfolding is_empty
non_empty [] h e = cc
non_empty (c ∷ s) h e = cc

module _ (lossy : List ℕ → Str) where
  -- A database name that is not empty, and the bytes of one whole startup message between the requests
  -- for encryption that were read before and what comes after it.
  abbrev pub Replays : List ℕ → Startup → Type 0
  Replays stream (accepted info rest) =
      (info.database ≢ [])
      × IsFramed protocol_v3 info.raw
      × ((requests : List (List ℕ)) × All IsRequest requests
          × (stream ≡ join requests ++ (info.raw ++ rest)))
  Replays stream refused = Unit
  Replays stream out_of_fuel = ⊥

  parsed_raw :
      (len_buf body : List ℕ) (info : StartupInfo)
      → parse_startup_message lossy len_buf body ≡ some info
      → info.raw ≡ len_buf ++ body
  unfolding parse_startup_message
  parsed_raw len_buf body info e = ground arith

  parsed_name :
      (len_buf body : List ℕ) (info : StartupInfo)
      → parse_startup_message lossy len_buf body ≡ some info
      → is_empty info.database ≡ false
  unfolding parse_startup_message
  parsed_name len_buf body info e = ground arith

  parsed_database :
      (len_buf body : List ℕ) (info : StartupInfo)
      → parse_startup_message lossy len_buf body ≡ some info
      → info.database ≢ []
  unfolding parse_startup_message is_empty
  parsed_database len_buf body info e = non_empty info.database (parsed_name len_buf body info e)

  finish-Replays :
      (len_buf body rest : List ℕ)
      → IsFramed protocol_v3 (len_buf ++ body)
      → Replays
          (len_buf ++ (body ++ rest))
          (finish_startup lossy (parse_startup_message lossy len_buf body) rest)
  unfolding finish_startup parse_startup_message
  finish-Replays len_buf body rest framed =
      elim (Option-cases (parse_startup_message lossy len_buf body)) [
        | inl e ↦ rw (e, finish_startup) tt
        | inr (info, e) ↦
            rw (e, finish_startup)
              (
                parsed_database len_buf body info e,
                rw (parsed_raw len_buf body info e) framed,
                (
                  [],
                  tt,
                  sym (append_assoc len_buf body rest)
                      ∙ ap (λ x. x ++ rest) (sym (parsed_raw len_buf body info e)),
                ),
              )
      ]

  past-Replays :
      (stream : List ℕ) (m : Message) (s : Startup)
      → IsRead stream m
      → IsRequest (m.len_buf ++ m.body)
      → Replays m.rest s
      → Replays stream s
  past-Replays stream m (accepted info rest) r q (d, framed, (requests, all, e)) = (
    d,
    framed,
    (
      (m.len_buf ++ m.body) ∷ requests,
      (q, all),
      past_append m.len_buf m.body (join requests) (info.raw ++ rest) m.rest stream r.0 e
          ∙ ap (λ x. x ++ (info.raw ++ rest)) (sym (append_assoc m.len_buf m.body (join requests))),
    ),
  )
  past-Replays stream m refused r q h = tt
  past-Replays stream m out_of_fuel r q h = h

  -- What the loop does with one message, from what it does after it.
  code-Replays :
      (fuel : ℕ) (stream : List ℕ) (m : Message)
      → IsRead stream m
      → Replays m.rest (read_startup_plain lossy fuel m.rest)
      → Replays stream (
          if m.code == ssl_request_code || m.code == gss_enc_request_code
          then read_startup_plain lossy fuel m.rest
          else if m.code == protocol_v3
          then finish_startup lossy (parse_startup_message lossy m.len_buf m.body) m.rest
          else refused)
  code-Replays fuel stream m r later =
      elim (Bool-cases (m.code == ssl_request_code || m.code == gss_enc_request_code)) [
        | inl e ↦ rw e (
            past-Replays stream m (read_startup_plain lossy fuel m.rest) r
              (requested m.code (m.len_buf ++ m.body) r.2 e) later)
        | inr e ↦ elim (Bool-cases (m.code == protocol_v3)) [
          | inl p ↦
              rw (e, p, r.0)
                (finish-Replays m.len_buf m.body m.rest
                  (as_startup m.code (m.len_buf ++ m.body) r.2 p))
          | inr p ↦ rw (e, p) tt
        ]
      ]

  -- With a fuel of more than the number of bytes, the handshake ends; where it accepts, the database is
  -- not empty, and what is replayed upstream is one whole startup message, of the length that its
  -- first four bytes say and of protocol 3: in front of it the client has sent whole requests for
  -- encryption and nothing else, and behind it is exactly what is left to read.
  pub read_startup_plain-Replays :
      (fuel : ℕ) (stream : List ℕ)
      → length stream < fuel
      → Replays stream (read_startup_plain lossy fuel stream)
  unfolding read_startup_plain
  read_startup_plain-Replays zero stream h = absurd (omega arith)
  read_startup_plain-Replays (suc fuel) stream h = elim (Option-cases (read_message stream)) [
    | inl e ↦ rw (e, read_startup_plain) tt
    | inr (m, e) ↦
        let r = read_message-IsRead stream m e in
        rw (e, read_startup_plain)
          (code-Replays fuel stream m r
            (read_startup_plain-Replays fuel m.rest (omega (arith, r.1))))
  ]

  -- A pooler without a certificate treats the first request like every later one: both loops are the
  -- same.
  pub read_startup-none :
      (fuel : ℕ) (stream : List ℕ)
      → read_startup lossy fuel none stream ≡ read_startup_plain lossy fuel stream
  unfolding read_startup read_startup_plain
  read_startup-none zero stream = refl
  read_startup-none (suc fuel) stream = elim (Option-cases (read_message stream)) [
    | inl e ↦ rw (e, read_startup, read_startup_plain)
    | inr (m, e) ↦ rw (e, read_startup, read_startup_plain, read_startup-none fuel m.rest)
  ]
