-- ===== src/Offload/Breaker.antt =====
-- src/registry.rs: `BringupBreaker`, with one reading of the clock for each call. The counter of
-- failures is a u32 that wraps.
use pg_fc.Base.{
  ltb, leb, if◌then◌else◌, ◌>>=◌, Str, str_eq, Map, get-insert, get-insert_self, get-remove_self,
  get, insert, remove, ℕ, suc, ◌+◌, ◌-◌, ◌*◌, ◌%◌, ◌^◌, ◌≤◌, ◌<◌, ◌≡◌, ◌⊎◌, false, Option, none,
  some, arith,
}
use pg_fc.Offload.Backoff.{secs, one_le_pow, pow_suc}

abbrev pub breaker_base : ℕ
breaker_base = secs 60

abbrev pub breaker_cap : ℕ
breaker_cap = secs 900

-- Consecutive failures, and the last one.
abbrev pub Breaker : Type 0
Breaker = Map (ℕ × ℕ)

-- `min(failures - 1, 10)`
hold_exp : ℕ → ℕ
hold_exp failures = if leb (failures - 1) 10 then failures - 1 else 10

unfoldable pub hold_for : ℕ → ℕ
unfolding hold_exp
hold_for failures =
    let hold = breaker_base * 2 ^ hold_exp failures in
    if leb hold breaker_cap then hold else breaker_cap

unfoldable pub failures_of : Option (ℕ × ℕ) → ℕ
failures_of none = 0
failures_of (some (failures, last)) = failures

unfoldable pub hold_left : ℕ → ℕ → ℕ → Option (ℕ × ℕ)
hold_left failures since hold = if ltb since hold then some (failures, hold - since) else none

unfoldable pub holding : Str → ℕ → Breaker → Option (ℕ × ℕ)
holding schema now b = do entry ← get schema b; hold_left entry.0 (now - entry.1) (hold_for entry.0)

unfoldable pub record_failure : Str → ℕ → Breaker → (ℕ × ℕ) × Breaker
record_failure schema now b =
    let failures = (failures_of (get schema b) + 1) % 2 ^ 32 in
    ((failures, hold_for failures), insert schema (failures, now) b)

unfoldable pub clear : Str → Breaker → Breaker
clear schema b = remove schema b

hold_for-bounds : (n : ℕ) → (breaker_base ≤ hold_for n) × (hold_for n ≤ breaker_cap)
unfolding hold_for
hold_for-bounds n = ground (arith, one_le_pow (hold_exp n))

hold_exp-suc :
    (n : ℕ)
    → 0 < n
    → (hold_exp (suc n) ≡ suc (hold_exp n)) ⊎ ((hold_exp (suc n) ≡ 10) × (hold_exp n ≡ 10))
unfolding hold_exp
hold_exp-suc n h = ground arith

-- The hold doubles with every failure in a row, from a minute, until it is fifteen minutes.
pub hold_for-doubles :
    (n : ℕ)
    → 0 < n
    → hold_for (suc n) ≡ (if leb (hold_for n * 2) breaker_cap then hold_for n * 2 else breaker_cap)
unfolding hold_for
hold_for-doubles n h = ground (arith, pow_suc (n - 1), hold_exp-suc n h)

-- A failed bring-up holds its schema off for between one and fifteen minutes, and no longer; the
-- other schemas are held off as before, and a success ends the hold.
pub record_failure-holding :
    (schema : Str) (now elapsed : ℕ) (b : Breaker) (j : Str)
    → str_eq schema j ≡ false
    → let ((failures, hold), after) = record_failure schema now b in
      (breaker_base ≤ hold)
      × (hold ≤ breaker_cap)
      × (holding schema (now + elapsed) after
          ≡ (if ltb elapsed hold then some (failures, hold - elapsed) else none))
      × (holding j (now + elapsed) after ≡ holding j (now + elapsed) b)
      × (holding schema (now + elapsed) (clear schema after) ≡ none)
unfolding record_failure holding hold_left clear
record_failure-holding schema now elapsed b j other =
    let n = (failures_of (get schema b) + 1) % 2 ^ 32 in
    let (low, high) = hold_for-bounds n in
    (
      low,
      high,
      rw (get-insert_self schema (n, now) b) (ground arith),
      ground (arith, get-insert schema j (n, now) b),
      ground (arith, get-remove_self schema (insert schema (n, now) b)),
    )
