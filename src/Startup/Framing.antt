-- ===== src/Startup/Framing.antt =====
-- src/startup.rs: the bytes of one message.
use pg_fc.Base.{
  ◌==◌, Bool-cases, length, take, drop, ℕ, zero, suc, ◌-◌, ◌≤◌, ◌<◌, ◌≡◌, refl, sym, ap, ◌∙◌, ◌⊎◌,
  inl, inr, true, ◌||◌, some, List, [], ◌∷◌, ◌++◌, append_assoc, arith,
}
use pg_fc.Startup.{
  Message, ssl_request_code, gss_enc_request_code, protocol_v3, be_bytes, read_body, read_sized,
  read_message,
}

take-append-drop {ℓ} : {A : Type ℓ} (n : ℕ) (xs : List A) → take n xs ++ drop n xs ≡ xs
take-append-drop zero xs = refl
take-append-drop (suc n) [] = refl
take-append-drop (suc n) (x ∷ xs) = ap (λ l. x ∷ l) (take-append-drop n xs)

pub past_append :
    (a b c d rest stream : List ℕ)
    → stream ≡ a ++ (b ++ rest)
    → rest ≡ c ++ d
    → stream ≡ (a ++ (b ++ c)) ++ d
past_append a b c d rest stream h e =
    h
    ∙ ap (λ x. a ++ (b ++ x)) e
    ∙ sym (append_assoc a (b ++ c) d ∙ ap (λ x. a ++ x) (append_assoc b c d))

-- The bytes of one message: the first four say how many there are, the next four are the code.
abbrev pub IsFramed : ℕ → List ℕ → Type 0
IsFramed code bytes =
    (be_bytes (take 4 bytes) ≡ length bytes) × (be_bytes (take 4 (drop 4 bytes)) ≡ code)

-- One request for encryption.
abbrev pub IsRequest : List ℕ → Type 0
IsRequest bytes = IsFramed ssl_request_code bytes ⊎ IsFramed gss_enc_request_code bytes

abbrev pub join : List (List ℕ) → List ℕ
join [] = []
join (b ∷ bs) = b ++ join bs

-- A message is the bytes that it was read from, framed, and there are some.
abbrev pub IsRead : List ℕ → Message → Type 0
IsRead stream m =
    (stream ≡ m.len_buf ++ (m.body ++ m.rest))
    × (length m.rest < length stream)
    × IsFramed m.code (m.len_buf ++ m.body)

length-drop-le : (n : ℕ) (xs : List ℕ) → length (drop n xs) ≤ length xs
length-drop-le zero xs = omega arith
length-drop-le (suc n) [] = omega arith
length-drop-le (suc n) (x ∷ xs) = omega (arith, length-drop-le n xs)

read_body-inv :
    (len_buf : List ℕ) (n : ℕ) (stream : List ℕ) (m : Message)
    → read_body len_buf n stream ≡ some m
    → (m.len_buf ≡ len_buf)
      × (m.body ≡ take n stream)
      × (m.rest ≡ drop n stream)
      × (m.code ≡ be_bytes (take n stream))
      × (n ≤ length stream)
unfolding read_body
read_body-inv len_buf n stream m h =
    (ground arith, ground arith, ground arith, ground arith, ground arith)

length-take_all : (n : ℕ) (xs : List ℕ) → n ≤ length xs → length (take n xs) ≡ n
length-take_all zero xs h = refl
length-take_all (suc n) [] h = absurd (omega (arith, h))
length-take_all (suc n) (x ∷ xs) h = ap suc (length-take_all n xs (omega (arith, h)))

be_bytes-take : (xs : List ℕ) → be_bytes (take 4 xs) ≡ be_bytes xs
unfolding be_bytes
be_bytes-take [] = refl
be_bytes-take (a ∷ []) = refl
be_bytes-take (a ∷ b ∷ []) = refl
be_bytes-take (a ∷ b ∷ c ∷ []) = refl
be_bytes-take (a ∷ b ∷ c ∷ d ∷ xs) = refl

pub read_message-IsRead :
    (stream : List ℕ) (m : Message) → read_message stream ≡ some m → IsRead stream m
unfolding read_message read_sized be_bytes
read_message-IsRead [] m h = cc
read_message-IsRead (a ∷ []) m h = cc
read_message-IsRead (a ∷ b ∷ []) m h = cc
read_message-IsRead (a ∷ b ∷ c ∷ []) m h = cc
read_message-IsRead (a ∷ b ∷ c ∷ d ∷ stream) m h =
    let head = a ∷ b ∷ c ∷ d ∷ [] in
    let n = be_bytes head - 4 in
    let (l, body, rest, code, come) = read_body-inv head n stream m (ground arith) in
    let least : 8 ≤ be_bytes head = ground (arith, h) in
    rw (l, body, rest, code)
      (
        ap (λ s. a ∷ b ∷ c ∷ d ∷ s) (sym (take-append-drop n stream)),
        omega (arith, length-drop-le n stream),
        (omega (arith, length-take_all n stream come, least), be_bytes-take (take n stream)),
      )

pub requested :
    (code : ℕ) (bytes : List ℕ)
    → IsFramed code bytes
    → (code == ssl_request_code || code == gss_enc_request_code) ≡ true
    → IsRequest bytes
requested code bytes (l, c) e = elim (Bool-cases (code == ssl_request_code)) [
  | inl s ↦ inl (l, c ∙ ground (arith, s))
  | inr s ↦ inr (l, c ∙ ground (arith, s, e))
]

pub as_startup :
    (code : ℕ) (bytes : List ℕ)
    → IsFramed code bytes
    → (code == protocol_v3) ≡ true
    → IsFramed protocol_v3 bytes
as_startup code bytes (l, c) e = (l, c ∙ ground (arith, e))
