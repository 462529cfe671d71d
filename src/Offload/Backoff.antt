-- ===== src/Offload/Backoff.antt =====
-- src/registry.rs: `OffloadBackoff`. Instants and durations are nanoseconds; no product of a duration
-- comes near the largest one.

use pg_fc.Base.{
  ltb, leb, ◌==◌, if◌then◌else◌, ◌>>=◌, Str, str_eq, Map, get-insert, get-insert_self,
  get-remove_self, get, insert, remove, ℕ, zero, suc, ◌+◌, ◌-◌, ◌*◌, ◌^◌, ◌≤◌, ◌<◌, ◌≡◌, ◌⊎◌, false,
  Option, none, some, arith,
}

abbrev pub secs : ℕ → ℕ
secs n = n * 1000000000

abbrev pub backoff_base : ℕ
backoff_base = secs 1800

abbrev pub backoff_cap : ℕ
backoff_cap = secs 86400

abbrev u32_max : ℕ
u32_max = 4294967295

-- Consecutive failures, and the last one.
abbrev pub Backoffs : Type 0
Backoffs = Map (ℕ × ℕ)

-- `min(failures - 1, 6)`
delay_exp : ℕ → ℕ
delay_exp failures = if leb (failures - 1) 6 then failures - 1 else 6

unfoldable pub offload_backoff_delay : ℕ → ℕ
unfolding delay_exp
offload_backoff_delay failures =
    let delay = backoff_base * 2 ^ delay_exp failures in
    if leb delay backoff_cap then delay else backoff_cap

saturating_inc : ℕ → ℕ
saturating_inc n = if ltb n u32_max then n + 1 else u32_max

-- The failures so far; a new entry starts at 0.
failures_of : Option (ℕ × ℕ) → ℕ
failures_of none = 0
failures_of (some (failures, last)) = failures

pub record_failure : Str → ℕ → Backoffs → (ℕ × ℕ) × Backoffs
record_failure schema now b =
    let failures = saturating_inc (failures_of (get schema b)) in
    ((failures, offload_backoff_delay failures), insert schema (failures, now) b)

pub clear : Str → Backoffs → Backoffs
clear schema b = remove schema b

checked_sub : ℕ → ℕ → Option ℕ
checked_sub a b = if leb b a then some (a - b) else none

non_zero : ℕ → Option ℕ
non_zero d = if d == 0 then none else some d

-- `saturating_duration_since` is the subtraction of ℕ.
pub active : Str → ℕ → Backoffs → Option ℕ
active schema now b = do
  entry ← get schema b
  left ← checked_sub (offload_backoff_delay entry.0) (now - entry.1)
  non_zero left

-- What is left of a window of a length after a time.
abbrev pub left_of : ℕ → ℕ → Option ℕ
left_of window elapsed = if ltb elapsed window then some (window - elapsed) else none

pub one_le_pow : (n : ℕ) → 1 ≤ 2 ^ n
one_le_pow zero = omega arith
one_le_pow (suc n) = omega (arith, one_le_pow n)

offload_backoff_delay-bounds :
    (n : ℕ) → (backoff_base ≤ offload_backoff_delay n) × (offload_backoff_delay n ≤ backoff_cap)
unfolding offload_backoff_delay
offload_backoff_delay-bounds n = ground (arith, one_le_pow (delay_exp n))

pub pow_suc : (n : ℕ) → 2 ^ suc n ≡ 2 ^ n * 2
pow_suc n = omega arith

-- The exponent goes up by one until it is 6.
delay_exp-suc :
    (n : ℕ)
    → 0 < n
    → ((delay_exp (suc n) ≡ suc (delay_exp n)) ⊎ ((delay_exp (suc n) ≡ 6) × (delay_exp n ≡ 6)))
unfolding delay_exp
delay_exp-suc n h = ground arith

-- The window doubles with every failure, from half an hour, until it is a day.
pub offload_backoff_delay-doubles :
    (n : ℕ)
    → 0 < n
    → offload_backoff_delay (suc n) ≡ (
        if leb (offload_backoff_delay n * 2) backoff_cap
        then offload_backoff_delay n * 2
        else backoff_cap)
unfolding offload_backoff_delay delay_exp
offload_backoff_delay-doubles n h = ground (arith, pow_suc (n - 1), delay_exp-suc n h)

-- A failure opens a window of between half an hour and a day, in which the schema is passed over
-- and after which it is not; the window of any other schema stays as it is, and `clear` ends it.
pub record_failure-active :
    (schema : Str) (now elapsed : ℕ) (b : Backoffs) (j : Str)
    → str_eq schema j ≡ false
    → let ((failures, delay), after) = record_failure schema now b in
      (backoff_base ≤ delay)
      × (delay ≤ backoff_cap)
      × (active schema (now + elapsed) after ≡ left_of delay elapsed)
      × (active j (now + elapsed) after ≡ active j (now + elapsed) b)
      × (active schema (now + elapsed) (clear schema after) ≡ none)
unfolding record_failure active clear checked_sub non_zero
record_failure-active schema now elapsed b j other =
    let n = saturating_inc (failures_of (get schema b)) in
    let (low, high) = offload_backoff_delay-bounds n in
    (
      low,
      high,
      ground (arith, get-insert_self schema (n, now) b),
      ground (arith, get-insert schema j (n, now) b),
      ground (arith, get-remove_self schema (insert schema (n, now) b)),
    )
