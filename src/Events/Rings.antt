-- ===== src/Events/Rings.antt =====
-- src/events.rs: what a push keeps.
use pg_fc.Base.{
  ltb, leb, ◌==◌, Bool-cases, length, length-append, All, All-append, All-map, Str, ℕ, ◌-◌, ◌≤◌,
  ◌<◌, ◌≡◌, refl, sym, ap, ◌∙◌, ◌≢◌, inl, inr, ◌||◌, List, [], ◌∷◌, ◌++◌, append_assoc, arith,
}
use pg_fc.Events.{
  Event, retain_secs, capacity, drop_old, make_room, push_mem, sanitize, Level, journal_at,
  JournalEntry, push_journal_mem, journal_capacity,
}

-- Times do not go back.
abbrev pub IsOrdered : List (ℕ × Event) → Type 0
IsOrdered [] = Unit
IsOrdered ((t, e) ∷ log) = All (λ p. t ≤ p.0) log × IsOrdered log

-- The second list is the first without some elements of its front.
abbrev pub IsTail {ℓ} : {A : Type ℓ} → List A → List A → Type ℓ
IsTail {A = A} xs ys = (front : List A) × (xs ≡ front ++ ys)

drop_old-IsTail : (cutoff : ℕ) (log : List (ℕ × Event)) → IsTail log (drop_old cutoff log)
unfolding drop_old
drop_old-IsTail cutoff [] = ([], refl)
drop_old-IsTail cutoff ((t, e) ∷ log) = elim (Bool-cases (ltb t cutoff)) [
  | inl old ↦
      let (front, h) = drop_old-IsTail cutoff log in
      rw (old, drop_old) ((t, e) ∷ front, ap (λ l. (t, e) ∷ l) h)
  | inr young ↦ rw (young, drop_old) ([], refl)
]

drop_old-young :
    (cutoff : ℕ) (log : List (ℕ × Event))
    → IsOrdered log
    → All (λ p. cutoff ≤ p.0) (drop_old cutoff log)
unfolding drop_old
drop_old-young cutoff [] h = tt
drop_old-young cutoff ((t, e) ∷ log) h = elim (Bool-cases (ltb t cutoff)) [
  | inl old ↦ rw (old, drop_old) (drop_old-young cutoff log h.1)
  | inr young ↦
      rw (young, drop_old)
        (ground arith, All-map (λ p. t ≤ p.0) (λ p. cutoff ≤ p.0) log (λ p k. ground arith) h.0)
]

make_room-IsTail {ℓ} : {A : Type ℓ} (cap : ℕ) (xs : List A) → IsTail xs (make_room cap xs)
unfolding make_room
make_room-IsTail cap [] = ([], refl)
make_room-IsTail cap (x ∷ xs) = elim (Bool-cases (leb cap (length (x ∷ xs)))) [
  | inl full ↦
      let (front, h) = make_room-IsTail cap xs in
      rw (full, make_room) (x ∷ front, ap (λ l. x ∷ l) h)
  | inr room ↦ rw (room, make_room) ([], refl)
]

make_room-lt {ℓ} : {A : Type ℓ} (cap : ℕ) (xs : List A) → 0 < cap → length (make_room cap xs) < cap
unfolding make_room
make_room-lt cap [] h = h
make_room-lt cap (x ∷ xs) h = elim (Bool-cases (leb cap (length (x ∷ xs)))) [
  | inl full ↦ rw (full, make_room) (make_room-lt cap xs h)
  | inr room ↦ rw (room, make_room) (ground arith)
]

All-tail : (P : ℕ × Event → Type 0) (front ys : List (ℕ × Event)) → All P (front ++ ys) → All P ys
All-tail P [] ys h = h
All-tail P (x ∷ front) ys h = All-tail P front ys h.1

tails :
    (log a b kept young last : List (ℕ × Event))
    → log ≡ a ++ young
    → young ≡ b ++ kept
    → log ++ last ≡ (a ++ b) ++ (kept ++ last)
tails log a b kept young last p q =
    ap (λ l. l ++ last) (p ∙ ap (λ l. a ++ l) q ∙ sym (append_assoc a b kept))
    ∙ append_assoc (a ++ b) kept last

-- A push keeps the newest events, the pushed one last: what is kept is the log with the event, less
-- some of its front; it is at most 10,000 events; and, where the log's times were in order, none of
-- them is older than 25 hours before the pushed one.
pub push_mem-IsTail :
    (log : List (ℕ × Event)) (t : ℕ) (e : Event)
    → IsOrdered log
    → IsTail (log ++ (t, e) ∷ []) (push_mem log (t, e))
      × (length (push_mem log (t, e)) ≤ capacity)
      × All (λ p. t - retain_secs ≤ p.0) (push_mem log (t, e))
unfolding push_mem
push_mem-IsTail log t e h =
    let young = drop_old (t - retain_secs) log in
    let kept = make_room capacity young in
    let (a, p) = drop_old-IsTail (t - retain_secs) log in
    let (b, q) = make_room-IsTail capacity young in
    (
      (a ++ b, tails log a b kept young ((t, e) ∷ []) p q),
      omega (arith, length-append kept ((t, e) ∷ []), make_room-lt capacity young (omega arith)),
      All-append (λ x. t - retain_secs ≤ x.0) kept ((t, e) ∷ [])
          (All-tail (λ x. t - retain_secs ≤ x.0) b kept
            (rw q at (drop_old-young (t - retain_secs) log h)))
          (omega arith, tt),
    )

-- Neither a tab nor the end of a line.
abbrev pub IsFieldChar : ℕ → Type 0
IsFieldChar c = (c ≢ b'\t') × (c ≢ b'\n') × (c ≢ b'\r')

sanitize-All : (s : Str) → All IsFieldChar (sanitize s)
unfolding sanitize
sanitize-All [] = tt
sanitize-All (c ∷ s) = elim (Bool-cases (c == b'\t' || c == b'\n' || c == b'\r')) [
  | inl e ↦ rw (e, sanitize) ((omega arith, omega arith, omega arith), sanitize-All s)
  | inr e ↦ rw (e, sanitize) ((ground arith, ground arith, ground arith), sanitize-All s)
]

-- What `journal_at` adds.
abbrev pub journal_entry : Level → Str → Str → ℕ → JournalEntry
journal_entry level kind msg t = record { time = t; level = level; kind = kind; msg = sanitize msg }

-- The journal keeps the newest 1,000 entries at most, the added one last, and the message that is
-- added holds no separator of the file format, whatever it was.
pub journal_at-IsTail :
    (level : Level) (kind msg : Str) (t : ℕ) (j : List JournalEntry)
    → IsTail (j ++ journal_entry level kind msg t ∷ []) (journal_at level kind msg t j)
      × (length (journal_at level kind msg t j) ≤ journal_capacity)
      × All IsFieldChar (journal_entry level kind msg t).msg
unfolding journal_at push_journal_mem
journal_at-IsTail level kind msg t j =
    let entry = journal_entry level kind msg t in
    let kept = make_room journal_capacity j in
    let (b, q) = make_room-IsTail journal_capacity j in
    (
      (b, ap (λ l. l ++ entry ∷ []) q ∙ append_assoc b kept (entry ∷ [])),
      omega (arith, length-append kept (entry ∷ []), make_room-lt journal_capacity j (omega arith)),
      sanitize-All msg,
    )
