-- ===== src/Offload/Sweep.antt =====
-- src/registry.rs: `classify_candidate`, the decision for one schema.
use pg_fc.Base.{
  ltb, if◌then◌else◌, ℕ, ◌-◌, ◌≤◌, ◌≡◌, refl, ◌↔◌, Bool, false, ◌||◌, Option, none, some, arith,
}
use pg_fc.Store.Format.{StoreRecord, offloaded}

pub data SweepAction : Type 0 where
  skip refresh archive : SweepAction

-- Open sessions, and seconds of idleness in memory.
abbrev pub Warm : Type 0
Warm = ℕ × ℕ

unfoldable pub in_use : Option Warm → ℕ → Bool
in_use none threshold = false
in_use (some (sessions, idle)) threshold = ltb 0 sessions || ltb idle threshold

-- `saturating_sub` is the subtraction of ℕ.
unfoldable pub classify_candidate : StoreRecord → Bool → ℕ → ℕ → Option Warm → SweepAction
classify_candidate r keepalive now threshold warm =
    if offloaded r || keepalive
    then skip
    else if ltb (now - r.last_active) threshold
    then skip
    else if in_use warm threshold
    then refresh
    else archive

-- Nobody has a session on a warm VM, and its own clock is past the threshold too.
abbrev pub IsCold : Option Warm → ℕ → Type 0
IsCold none threshold = Unit
IsCold (some (sessions, idle)) threshold = (sessions ≡ 0) × (threshold ≤ idle)

in_use_iff : (w : Option Warm) (n : ℕ) → (in_use w n ≡ false) ↔ IsCold w n
unfolding in_use
in_use_iff none n = (λ _. tt, λ _. refl)
in_use_iff (some (sessions, idle)) n = (λ h. ground arith, λ h. ground arith)

-- A schema is archived exactly if it is live, not kept alive, and past the threshold by its durable
-- clock and, where its VM is warm, by the clock in memory too, with no session open.
pub classify_candidate_iff :
    (r : StoreRecord) (keepalive : Bool) (now threshold : ℕ) (warm : Option Warm)
    → (classify_candidate r keepalive now threshold warm ≡ archive) ↔ (
        (offloaded r ≡ false)
        × (keepalive ≡ false)
        × (threshold ≤ now - r.last_active)
        × IsCold warm threshold)
unfolding classify_candidate
classify_candidate_iff r keepalive now threshold warm =
    (λ h. ground (arith, in_use_iff warm threshold), λ h. ground (arith, in_use_iff warm threshold))
