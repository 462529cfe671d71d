-- ===== src/Tests/Startup.antt =====
-- src/startup.rs at fixed inputs.
use pg_fc.Base.{str, str_eq, is_empty, get, insert, ℕ, ◌≡◌, refl, List, [], ◌∷◌, ◌++◌, arith}
use pg_fc.Text.{split}
use pg_fc.Startup.{
  accepted, read_message, read_sized, read_body, be_bytes, parse_startup_message, parse_params,
  parse_pairs, database_or, finish_startup, read_startup_plain,
}
use pg_fc.Startup.Replay.{Replays, read_startup_plain-Replays}

-- A request for encryption, then a startup message for the user "ann", and one byte more.
abbrev ssl_request : List ℕ
ssl_request = 0 ∷ 0 ∷ 0 ∷ 8 ∷ 4 ∷ 210 ∷ 22 ∷ 47 ∷ []

abbrev for_ann : List ℕ
for_ann = 0 ∷ 0 ∷ 0 ∷ 18 ∷ 0 ∷ 3 ∷ 0 ∷ 0 ∷ (str "user" ++ 0 ∷ (str "ann" ++ 0 ∷ 0 ∷ []))

abbrev sent : List ℕ
sent = ssl_request ++ (for_ann ++ 112 ∷ [])

ann_accepted :
    read_startup_plain (λ b. b) 30 sent
    ≡ accepted (record { database = str "ann"; user = str "ann"; raw = for_ann }) (112 ∷ [])
unfolding read_startup_plain read_message read_sized read_body be_bytes parse_startup_message
    parse_params parse_pairs database_or finish_startup split is_empty insert get str_eq
ann_accepted = refl

read_startup_plain-Replays_example : Replays (λ b. b) sent (read_startup_plain (λ b. b) 30 sent)
read_startup_plain-Replays_example = read_startup_plain-Replays (λ b. b) 30 sent (omega arith)
