-- ===== src/Offload/Sweeping.antt =====
-- src/registry.rs: `sweep_archive`, the sweep over every schema that an operator starts.
pub mod Tried
use pg_fc.Base.{
  leb, if◌then◌else◌, Bool-cases, All, Any, All-map, Str, Map, ℕ, ◌+◌, ◌-◌, ◌≤◌, ◌<◌, ◌≡◌, refl,
  inl, inr, Bool, true, false, not, ◌&&◌, Option, List, [], ◌∷◌, arith,
}
use pg_fc.Store.Format.{StoreRecord, Tier, live, compacted, frozen, archived, offloaded}
use pg_fc.Offload.Sweep.{
  SweepAction, skip, refresh, archive, Warm, classify_candidate, IsCold, classify_candidate_iff,
}

-- What the sweep reads of the rest: the clock and the threshold, which schemas are kept alive, which are
-- warm, and which are backing off.
pub record SweepView : Type 0 where
  pub now : ℕ
  pub threshold : ℕ
  pub keepalive : Str → Bool
  pub warm : Str → Option Warm
  pub backing_off : Str → Bool

-- The three lists of work, and the schemas whose clock is set.
pub record Plan : Type 0 where
  pub candidates : List Str
  pub frozen_candidates : List Str
  pub compact_candidates : List Str
  pub refreshed : List Str

abbrev pub no_plan : Plan
no_plan = record {
  candidates = [];
  frozen_candidates = [];
  compact_candidates = [];
  refreshed = [];
}

unfoldable pub is_due : SweepView → Str → StoreRecord → Bool
is_due v schema r = not (v.keepalive schema) && leb v.threshold (v.now - r.last_active)

unfoldable pub add_live : SweepView → Str → SweepAction → Plan → Plan
add_live v schema skip p = p
add_live v schema refresh p = record p { refreshed = schema ∷ p.refreshed }
add_live v schema archive p =
    if v.backing_off schema then p else record p { candidates = schema ∷ p.candidates }

-- By the tier of the row.
unfoldable pub add_row : SweepView → Str → StoreRecord → Tier → Plan → Plan
add_row v schema r frozen p =
    if is_due v schema r then record p { frozen_candidates = schema ∷ p.frozen_candidates } else p
add_row v schema r compacted p =
    if is_due v schema r then record p { compact_candidates = schema ∷ p.compact_candidates } else p
add_row v schema r _ p =
    add_live v schema (classify_candidate r (v.keepalive schema) v.now v.threshold (v.warm schema))
      p

unfoldable pub plan_sweep : SweepView → Map StoreRecord → Plan
plan_sweep v [] = no_plan
plan_sweep v ((schema, r) ∷ rows) = add_row v schema r r.tier (plan_sweep v rows)

abbrev pub max_consecutive_failures : ℕ
max_consecutive_failures = 3

-- The promotions: every one is tried, and those that succeed are counted.
unfoldable pub promote_all : (Str → Bool) → List Str → ℕ
promote_all ok [] = 0
promote_all ok (s ∷ ss) = let rest = promote_all ok ss in if ok s then rest + 1 else rest

-- The archivings that are tried, with the failures in a row so far, and how many succeed.
unfoldable pub archive_all : (Str → Bool) → ℕ → List Str → List Str × ℕ
archive_all ok failures [] = ([], 0)
archive_all ok failures (s ∷ ss) =
    let (tried, n) = archive_all ok 0 ss in
    let (tried_on, m) = archive_all ok (failures + 1) ss in
    if ok s
    then (s ∷ tried, n + 1)
    else if leb max_consecutive_failures (failures + 1)
    then (s ∷ [], 0)
    else (s ∷ tried_on, m)

-- `sweep_archive`, behind its flag: the live schemas that it tries, and what it archived.
unfoldable pub sweep_archive : (Str → Bool) → SweepView → Map StoreRecord → List Str × ℕ
sweep_archive ok v rows =
    let p = plan_sweep v rows in
    let promoted = promote_all ok p.frozen_candidates + promote_all ok p.compact_candidates in
    let (tried, n) = archive_all ok 0 p.candidates in (tried, promoted + n)

-- A live row that is due by both clocks, with no session, not kept alive and not backing off.
abbrev pub IsWork : SweepView → Map StoreRecord → Str → Type 0
IsWork v rows schema =
    Any
      (λ e.
        (e.0 ≡ schema)
        × (offloaded e.1 ≡ false)
        × (v.keepalive schema ≡ false)
        × (v.threshold ≤ v.now - e.1.last_active)
        × IsCold (v.warm schema) v.threshold
        × (v.backing_off schema ≡ false))
      rows

add_live-IsWork :
    (v : SweepView) (schema : Str) (r : StoreRecord) (rows : Map StoreRecord) (action : SweepAction)
    (p : Plan)
    → classify_candidate r (v.keepalive schema) v.now v.threshold (v.warm schema) ≡ action
    → All (IsWork v ((schema, r) ∷ rows)) p.candidates
    → All (IsWork v ((schema, r) ∷ rows)) (add_live v schema action p).candidates
unfolding add_live
add_live-IsWork v schema r rows skip p e h = h
add_live-IsWork v schema r rows refresh p e h = h
add_live-IsWork v schema r rows archive p e h = elim (Bool-cases (v.backing_off schema)) [
  | inl b ↦ rw (b, add_live) h
  | inr b ↦
      let (live_row, kept, due, cold) =
        (classify_candidate_iff r (v.keepalive schema) v.now v.threshold (v.warm schema)).0 e in
      rw (b, add_live) (inl (refl, live_row, kept, due, cold, b), h)
]

kept_candidates :
    (P : Str → Type 0) (b : Bool) (p q : Plan)
    → q.candidates ≡ p.candidates
    → All P p.candidates
    → All P (if b then q else p).candidates
kept_candidates P true p q e h = rw e h
kept_candidates P false p q e h = h

add_row-IsWork :
    (v : SweepView) (schema : Str) (r : StoreRecord) (t : Tier) (rows : Map StoreRecord) (p : Plan)
    → All (IsWork v ((schema, r) ∷ rows)) p.candidates
    → All (IsWork v ((schema, r) ∷ rows)) (add_row v schema r t p).candidates
unfolding add_row
add_row-IsWork v schema r live rows p h = add_live-IsWork v schema r rows _ p refl h
add_row-IsWork v schema r archived rows p h = add_live-IsWork v schema r rows _ p refl h
add_row-IsWork v schema r frozen rows p h = kept_candidates _ (is_due v schema r) p _ refl h
add_row-IsWork v schema r compacted rows p h = kept_candidates _ (is_due v schema r) p _ refl h

pub plan_sweep-IsWork :
    (v : SweepView) (rows : Map StoreRecord) → All (IsWork v rows) (plan_sweep v rows).candidates
unfolding plan_sweep
plan_sweep-IsWork v [] = tt
plan_sweep-IsWork v ((schema, r) ∷ rows) =
    add_row-IsWork v schema r r.tier rows (plan_sweep v rows) (
      All-map (IsWork v rows) (IsWork v ((schema, r) ∷ rows)) (plan_sweep v rows).candidates
        (λ s w. inr w) (plan_sweep-IsWork v rows))

pub archive_all-All :
    (P : Str → Type 0) (ok : Str → Bool) (failures : ℕ) (ss : List Str)
    → All P ss
    → All P (archive_all ok failures ss).0
unfolding archive_all
archive_all-All P ok failures [] h = tt
archive_all-All P ok failures (s ∷ ss) h = elim (Bool-cases (ok s)) [
  | inl o ↦ rw (o, archive_all) (h.0, archive_all-All P ok 0 ss h.1)
  | inr o ↦ elim (Bool-cases (leb max_consecutive_failures (failures + 1))) [
    | inl l ↦ rw (o, l, archive_all) (h.0, tt)
    | inr l ↦ rw (o, l, archive_all) (h.0, archive_all-All P ok (failures + 1) ss h.1)
  ]
]

-- With the failures in a row so far: nothing is tried once they are at the limit, nor do they pass it.
abbrev pub FailsAtMost : (Str → Bool) → ℕ → List Str → Type 0
FailsAtMost ok failures [] = failures ≤ max_consecutive_failures
FailsAtMost ok failures (s ∷ ss) =
    (failures < max_consecutive_failures) × FailsAtMost ok (if ok s then 0 else failures + 1) ss

FailsAtMost-cons :
    (ok : Str → Bool) (b : Bool) (failures : ℕ) (s : Str) (ss : List Str)
    → ok s ≡ b
    → failures < max_consecutive_failures
    → FailsAtMost ok (if b then 0 else failures + 1) ss
    → FailsAtMost ok failures (s ∷ ss)
FailsAtMost-cons ok b failures s ss o l h = (l, rw o h)

pub archive_all-FailsAtMost :
    (ok : Str → Bool) (failures : ℕ) (ss : List Str)
    → failures < max_consecutive_failures
    → FailsAtMost ok failures (archive_all ok failures ss).0
unfolding archive_all
archive_all-FailsAtMost ok failures [] h = omega (arith, h)
archive_all-FailsAtMost ok failures (s ∷ ss) h = elim (Bool-cases (ok s)) [
  | inl o ↦
      rw (o, archive_all)
        (FailsAtMost-cons ok true failures s (archive_all ok 0 ss).0 o h
          (archive_all-FailsAtMost ok 0 ss (omega arith)))
  | inr o ↦ elim (Bool-cases (leb max_consecutive_failures (failures + 1))) [
    | inl l ↦
        rw (o, l, archive_all) (FailsAtMost-cons ok false failures s [] o h (omega (arith, h)))
    | inr l ↦
        rw (o, l, archive_all)
          (FailsAtMost-cons ok false failures s (archive_all ok (failures + 1) ss).0 o h
            (archive_all-FailsAtMost ok (failures + 1) ss (ground (arith, l))))
  ]
]
