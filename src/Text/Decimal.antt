-- ===== src/Text/Decimal.antt =====
-- `u64::to_string` and `str::parse::<u64>`: decimal digits, an optional plus sign, and an error on
-- anything else, on no digit at all and on overflow.
use pg_fc.Base.{
  ltb, leb, ◌==◌, if◌then◌else◌, ltb→lt, Bool-cases, Option-cases, ◌>>=◌, All, All-append, Str, ℕ,
  zero, suc, ◌+◌, ◌-◌, ◌*◌, ◌/◌, ◌%◌, ◌≤◌, ◌<◌, ◌≡◌, refl, ap, ◌∙◌, ◌≢◌, inl, inr, ◌||◌, Option,
  none, some, [], ◌∷◌, ◌++◌, arith,
}
use pg_fc.Text.Split.{IsClean}

abbrev pub u64_max : ℕ
u64_max = 18446744073709551615

-- One digit more; the number of rounds is at most the number itself.
show_digits : ℕ → ℕ → Str
show_digits zero n = []
show_digits (suc f) n =
    let front = show_digits f (n / 10) in
    if ltb n 10 then (48 + n) ∷ [] else front ++ (48 + n % 10) ∷ []

unfoldable pub show_u64 : ℕ → Str
unfolding show_digits
show_u64 n = show_digits (suc n) n

-- `checked_mul(10)`, `checked_add(digit)`.
push_digit : ℕ → ℕ → Option ℕ
push_digit acc c =
    if ltb c 48 || ltb 57 c
    then none
    else if leb (acc * 10 + (c - 48)) u64_max
    then some (acc * 10 + (c - 48))
    else none

parse_digits : ℕ → Str → Option ℕ
parse_digits acc [] = some acc
parse_digits acc (c ∷ s) = do a ← push_digit acc c; parse_digits a s

unsigned_digits : Str → Option ℕ
unsigned_digits [] = none
unsigned_digits (c ∷ s) = parse_digits 0 (c ∷ s)

unfoldable pub parse_u64 : Str → Option ℕ
unfolding push_digit parse_digits unsigned_digits
parse_u64 [] = none
parse_u64 (c ∷ s) = if c == b'+' then unsigned_digits s else parse_digits 0 (c ∷ s)

parse_digits-snoc :
    (s : Str) (acc c : ℕ)
    → parse_digits acc (s ++ c ∷ []) ≡ (parse_digits acc s >>= λ a. push_digit a c)
unfolding parse_digits
parse_digits-snoc [] acc c = elim (Option-cases (push_digit acc c)) [
  | inl e ↦ rw e
  | inr (a, e) ↦ rw e
]
parse_digits-snoc (d ∷ s) acc c = elim (Option-cases (push_digit acc d)) [
  | inl e ↦ rw e
  | inr (a, e) ↦ rw e (parse_digits-snoc s a c)
]

push_digit_lem :
    (a d : ℕ) → d < 10 → a * 10 + d ≤ u64_max → push_digit a (48 + d) ≡ some (a * 10 + d)
unfolding push_digit
push_digit_lem a d h b = ground arith

parse_digits-show : (f n : ℕ) → n < f → n ≤ u64_max → parse_digits 0 (show_digits f n) ≡ some n
unfolding show_digits
parse_digits-show zero n h b = elim h [ ]
parse_digits-show (suc f) n h b = elim (Bool-cases (ltb n 10)) [
  | inl small ↦
      rw (small, parse_digits-snoc [] 0 (48 + n))
        (unfold parse_digits in
          push_digit_lem 0 n (ltb→lt n 10 small) (omega arith) ∙ ap some (omega arith))
  | inr large ↦
      rw (large, parse_digits-snoc (show_digits f (n / 10)) 0 (48 + n % 10))
        (rw (parse_digits-show f (n / 10) (ground arith) (omega arith))
          (push_digit_lem (n / 10) (n % 10) (omega arith) (omega arith) ∙ ap some (omega arith)))
]

-- A text of digits, with at least one.
abbrev IsDigits : Str → Type 0
IsDigits s = (s ≢ []) × All (λ c. 47 < c) s

snoc-ne-nil : (s : Str) (c : ℕ) → s ++ c ∷ [] ≢ []
snoc-ne-nil [] c e = cc
snoc-ne-nil (d ∷ s) c e = cc

show_digits-digits : (f n : ℕ) → All (λ c. 47 < c) (show_digits f n)
unfolding show_digits
show_digits-digits zero n = tt
show_digits-digits (suc f) n = elim (Bool-cases (ltb n 10)) [
  | inl small ↦ rw small (omega arith, tt)
  | inr large ↦ rw large (
      All-append (λ c. 47 < c) (show_digits f (n / 10)) _ (show_digits-digits f (n / 10))
        (omega arith, tt))
]

show_u64-IsDigits : (n : ℕ) → IsDigits (show_u64 n)
unfolding show_u64
show_u64-IsDigits n = (
  elim (Bool-cases (ltb n 10)) [
    | inl small ↦ rw small (λ e. cc)
    | inr large ↦ rw large (snoc-ne-nil (show_digits n (n / 10)) (48 + n % 10))
  ],
  show_digits-digits (suc n) n,
)

parse_u64_digits : (s : Str) → IsDigits s → parse_u64 s ≡ parse_digits 0 s
parse_u64_digits [] h = absurd (h.0 refl)
parse_u64_digits (c ∷ s) h = elim (Bool-cases (c == b'+')) [
  | inl e ↦ absurd (ground arith)
  | inr e ↦ unfold parse_u64 in rw e
]

pub parse_u64-show_u64 : (n : ℕ) → n ≤ u64_max → parse_u64 (show_u64 n) ≡ some n
parse_u64-show_u64 n b =
    parse_u64_digits (show_u64 n) (show_u64-IsDigits n)
    ∙ unfold show_u64 in parse_digits-show (suc n) n (omega arith) b

IsClean-of_digits : (s : Str) → All (λ c. 47 < c) s → IsClean s
IsClean-of_digits [] h = tt
IsClean-of_digits (c ∷ s) h = (omega arith, IsClean-of_digits s h.1)

pub show_u64-IsClean : (n : ℕ) → IsClean (show_u64 n)
show_u64-IsClean n = IsClean-of_digits (show_u64 n) (show_u64-IsDigits n).1

parse_digits-le : (s : Str) (acc n : ℕ) → acc ≤ u64_max → parse_digits acc s ≡ some n → n ≤ u64_max
unfolding parse_digits push_digit
parse_digits-le [] acc n b h = ground arith
parse_digits-le (c ∷ s) acc n b h = ground (arith, parse_digits-le s (acc * 10 + (c - 48)) n)

pub parse_u64-le : (s : Str) (n : ℕ) → parse_u64 s ≡ some n → n ≤ u64_max
unfolding parse_u64
parse_u64-le [] n h = cc
parse_u64-le (c ∷ []) n h = ground (arith, parse_digits-le (c ∷ []) 0 n)
parse_u64-le (c ∷ d ∷ s) n h =
    ground (arith, parse_digits-le (c ∷ d ∷ s) 0 n, parse_digits-le (d ∷ s) 0 n)
