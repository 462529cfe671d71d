-- ===== src/Offload/Sizing.antt =====
-- src/registry.rs: `grow_target_gb`, the size that a stopped VM's data device is grown to.

use pg_fc.Base.{
  ltb, leb, ◌==◌, if◌then◌else◌, ℕ, ◌+◌, ◌-◌, ◌*◌, ◌/◌, ◌≤◌, ◌<◌, ◌≡◌, Bool, false, ◌||◌, Option,
  none, some, arith,
}

abbrev pub gib : ℕ
gib = 1024 * 1024 * 1024

abbrev u64_limit : ℕ
u64_limit = 18446744073709551615

-- `saturating_mul(9)`, and a tenth of it.
unfoldable pub nine_tenths : ℕ → ℕ
nine_tenths device = (if leb (device * 9) u64_limit then device * 9 else u64_limit) / 10

-- `div_ceil(GIB).max(1)`
unfoldable pub current_gb : ℕ → ℕ
current_gb device = let whole = (device + (gib - 1)) / gib in if leb 1 whole then whole else 1

-- The comparison of `used_pct` with the trigger, in floating point, is an argument; an empty
-- filesystem has no percentage.
unfoldable pub grow_target_gb : (ℕ → ℕ → Bool) → ℕ → ℕ → ℕ → ℕ → ℕ → Option ℕ
grow_target_gb below_trigger total used avail device max_gb =
    if used + avail == 0 || below_trigger used avail
    then none
    else if ltb total (nine_tenths device)
    then none
    else if leb max_gb (current_gb device)
    then none
    else if leb (current_gb device * 2) max_gb
    then some (current_gb device * 2)
    else some max_gb

one_le_current_gb : (device : ℕ) → 1 ≤ current_gb device
unfolding current_gb
one_le_current_gb device = ground arith

bigger : (device target : ℕ) → current_gb device < target → device < target * gib
unfolding current_gb
bigger device target h = ground arith

-- A device that is grown gets strictly larger, no larger than the limit, and no larger than twice
-- its size in whole GiB; and its filesystem was past the trigger and spanned the device.
pub grow_target_gb-bounds :
    (below_trigger : ℕ → ℕ → Bool) (total used avail device max_gb target : ℕ)
    → grow_target_gb below_trigger total used avail device max_gb ≡ some target
    → (device < target * gib)
      × (target ≤ max_gb)
      × (target ≤ current_gb device * 2)
      × (below_trigger used avail ≡ false)
      × (nine_tenths device ≤ total)
unfolding grow_target_gb
grow_target_gb-bounds below_trigger total used avail device max_gb target h = (
  bigger device target (ground (arith, one_le_current_gb device)),
  ground arith,
  ground arith,
  ground arith,
  ground arith,
)
