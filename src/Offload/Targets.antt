-- ===== src/Offload/Targets.antt =====
-- src/registry.rs: `resolve_image_target`, `dispatch_allowance` and `daemon_error_run`.
use pg_fc.Base.{
  leb, ◌==◌, if◌then◌else◌, unwrap_or, Str, str_eq_iff, str_eq, ℕ, ◌+◌, ◌<◌, ◌≡◌, refl, ◌↔◌, ◌⊎◌,
  inl, inr, Bool, true, false, Option, none, some, arith,
}

pub data ImageTarget : Type 0 where
  target : Str → Bool → ImageTarget
  contradicted : Str → Str → ImageTarget
  no_vm : ImageTarget

-- The flag is `adopting`: the registry has no row.
unfoldable pub resolve_image_target : Option Str → Option Str → ImageTarget
resolve_image_target none none = no_vm
resolve_image_target none (some v) = target v true
resolve_image_target (some bound) none = target bound false
resolve_image_target (some bound) (some v) =
    if str_eq bound v then target bound false else contradicted bound v

-- A target is the VM that was viewed and the one that is bound, as far as there are both; it is
-- adopted exactly if the registry binds none.
pub resolve_image_target_lem :
    (recorded viewed : Option Str) (id : Str) (adopting : Bool)
    → resolve_image_target recorded viewed ≡ target id adopting
    → ((recorded ≡ none) ⊎ (recorded ≡ some id))
      × ((viewed ≡ none) ⊎ (viewed ≡ some id))
      × ((adopting ≡ true) ↔ (recorded ≡ none))
unfolding resolve_image_target
resolve_image_target_lem none none id adopting h = cc
resolve_image_target_lem none (some v) id adopting h =
    (inl refl, inr (ground arith), (λ _. refl, λ _. ground arith))
resolve_image_target_lem (some bound) none id adopting h =
    (inr (ground arith), inl refl, (λ a. ground arith, λ a. cc))
resolve_image_target_lem (some bound) (some v) id adopting h =
    (inr (ground arith), inr (ground (arith, str_eq_iff bound v)), (λ a. ground arith, λ a. cc))

-- Whether the load is below its limit, in floating point, is an argument; `none` is a load that
-- cannot be read.
pub dispatch_allowance : ℕ → ℕ → Option Bool → Bool
dispatch_allowance in_flight workers headroom =
    if leb workers in_flight
    then false
    else if in_flight == 0
    then true
    else unwrap_or headroom false

-- A second job is started only with a worker free and a load that is known to leave room.
pub dispatch_allowance_iff :
    (in_flight workers : ℕ) (headroom : Option Bool)
    → (dispatch_allowance in_flight workers headroom ≡ true)
      ↔ ((in_flight < workers) × ((in_flight ≡ 0) ⊎ (headroom ≡ some true)))
unfolding dispatch_allowance
dispatch_allowance_iff in_flight workers none = (λ h. ground arith, λ h. ground arith)
dispatch_allowance_iff in_flight workers (some b) = (λ h. ground arith, λ h. ground arith)

pub data DaemonState : Type 0 where
  present : Bool → DaemonState
  gone unanswered : DaemonState

unfoldable pub daemon_error_run : ℕ → DaemonState → ℕ
daemon_error_run run unanswered = run + 1
daemon_error_run run _ = 0
