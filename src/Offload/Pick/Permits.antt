-- ===== src/Offload/Pick/Permits.antt =====
-- src/registry.rs: what `pick_offload_job` never proposes.
use pg_fc.Base.{
  Any, Str, Map, get, ℕ, ◌-◌, ◌≤◌, ◌≡◌, refl, sym, ap, ◌∙◌, ◌≢◌, inl, inr, true, false, Option,
  none, some, [], ◌∷◌, arith,
}
use pg_fc.Store.Format.{Tier, live, compacted, frozen, archived, StoreRecord}
use pg_fc.Offload.Sweep.{
  SweepAction, archive, Warm, IsCold, classify_candidate, classify_candidate_iff,
}
use pg_fc.Offload.Pick.{
  OffloadKind, promote, compact, image_archive, dump_archive, freeze, routine, pressure,
  OffloadPolicy, Scan, offer, verdict, eligible, is_archive, is_pressure, is_none, compactable,
  imageable, live_verdict, local_verdict, tier_verdict, Candidate, candidate, job_of,
  pick_offload_job, OffloadMode,
}
use pg_fc.Offload.Pick.Best.{offers, IsBestOf, pick_offload_job-IsBestOf, Verdict-cases}

-- The tier's threshold is set and the row's clock is past it.
abbrev pub IsPast : Option ℕ → ℕ → Type 0
IsPast limit idle = (after : ℕ) × (limit ≡ some after) × (after ≤ idle)

-- Past the threshold, also by the clock of a warm VM, which has no session.
abbrev pub IsIdle : Option ℕ → ℕ → Option Warm → Type 0
IsIdle limit idle w = (after : ℕ) × (limit ≡ some after) × (after ≤ idle) × IsCold w after

-- What each kind of job needs, in the words of the ladder.
abbrev pub Needs : OffloadPolicy → StoreRecord → ℕ → Option Warm → OffloadKind → Type 0
Needs t r idle w promote = (r.tier ≢ live) × (r.tier ≢ archived) × IsPast t.archive_after idle
Needs t r idle w compact = (r.tier ≡ live) × (w ≡ none) × IsPast t.compact_after idle
Needs t r idle w image_archive =
    (r.tier ≡ live)
    × (w ≡ none)
    × (t.mode ≡ pressure)
    × (t.image_archive_on ≡ true)
    × IsPast t.archive_after idle
Needs t r idle w dump_archive =
    (r.tier ≡ live) × (t.no_boot ≡ false) × IsIdle t.archive_after idle w
Needs t r idle w freeze = (r.tier ≡ live) × (t.no_boot ≡ false) × IsIdle t.freeze_after idle w

-- A schema that is neither kept alive nor backing off, and has what the kind needs.
abbrev pub IsPermitted : Scan → Str → StoreRecord → OffloadKind → Type 0
IsPermitted c schema r kind =
    (c.keepalive schema ≡ false)
    × (c.backing_off schema ≡ false)
    × Needs c.policy r (c.now - r.last_active) (get schema c.warm) kind

is_archive_inv : (a : SweepAction) → is_archive a ≡ true → a ≡ archive
unfolding is_archive
is_archive_inv archive h = refl
is_archive_inv _ h = cc

eligible-IsIdle :
    (r : StoreRecord) (now : ℕ) (limit : Option ℕ) (w : Option Warm)
    → eligible r now limit w ≡ true
    → IsIdle limit (now - r.last_active) w
unfolding eligible is_archive
eligible-IsIdle r now none w h = cc
eligible-IsIdle r now (some after) w h =
    let sure : classify_candidate r false now after w ≡ archive =
      is_archive_inv (classify_candidate r false now after w) h in
    let (_, _, past, cold) = (classify_candidate_iff r false now after w).0 sure in
    (after, refl, past, cold)

is_pressure-eq : (m : OffloadMode) → is_pressure m ≡ true → m ≡ pressure
unfolding is_pressure
is_pressure-eq pressure h = refl
is_pressure-eq routine h = cc

is_none-eq : (w : Option Warm) → is_none w ≡ true → w ≡ none
unfolding is_none
is_none-eq none h = refl
is_none-eq (some x) h = cc

compactable-true :
    (t : OffloadPolicy) (r : StoreRecord) (now : ℕ) (w : Option Warm)
    → compactable t r now w ≡ true
    → (w ≡ none) × IsPast t.compact_after (now - r.last_active)
unfolding compactable
compactable-true t r now w h =
    let (after, e, past, _) = eligible-IsIdle r now t.compact_after none (ground arith) in
    (is_none-eq w (ground arith), (after, e, past))

imageable-true :
    (t : OffloadPolicy) (r : StoreRecord) (now : ℕ) (w : Option Warm)
    → imageable t r now w ≡ true
    → (w ≡ none)
      × (t.mode ≡ pressure)
      × (t.image_archive_on ≡ true)
      × IsPast t.archive_after (now - r.last_active)
unfolding imageable
imageable-true t r now w h =
    let (after, e, past, _) = eligible-IsIdle r now t.archive_after none (ground arith) in
    (
      is_none-eq w (ground arith),
      is_pressure-eq t.mode (ground arith),
      ground arith,
      (after, e, past),
    )

live_verdict-Needs :
    (t : OffloadPolicy) (r : StoreRecord) (now : ℕ) (w : Option Warm) (kind : OffloadKind)
    → r.tier ≡ live
    → live_verdict t r now w ≡ offer kind
    → Needs t r (now - r.last_active) w kind
unfolding live_verdict
live_verdict-Needs t r now w promote e h = absurd (ground arith)
live_verdict-Needs t r now w compact e h =
    let (cold, past) = compactable-true t r now w (ground arith) in (e, cold, past)
live_verdict-Needs t r now w image_archive e h =
    let (cold, mode, on, past) = imageable-true t r now w (ground arith) in
    (e, cold, mode, on, past)
live_verdict-Needs t r now w dump_archive e h =
    (e, ground arith, eligible-IsIdle r now t.archive_after w (ground arith))
live_verdict-Needs t r now w freeze e h =
    (e, ground arith, eligible-IsIdle r now t.freeze_after w (ground arith))

local_verdict-Needs :
    (limit : Option ℕ) (idle : ℕ) (kind : OffloadKind)
    → local_verdict limit idle ≡ offer kind
    → (kind ≡ promote) × IsPast limit idle
unfolding local_verdict
local_verdict-Needs none idle kind h = cc
local_verdict-Needs (some after) idle kind h = (ground arith, (after, refl, ground arith))

-- The two tiers that are files on the host.
promoted_Needs :
    (t : OffloadPolicy) (r : StoreRecord) (idle : ℕ) (w : Option Warm) (kind : OffloadKind)
    → r.tier ≢ live
    → r.tier ≢ archived
    → local_verdict t.archive_after idle ≡ offer kind
    → Needs t r idle w kind
promoted_Needs t r idle w kind a b h =
    let (e, past) = local_verdict-Needs t.archive_after idle kind h in rw e (a, b, past)

tier_verdict-Needs :
    (t : OffloadPolicy) (r : StoreRecord) (now : ℕ) (w : Option Warm) (k : Tier)
    (kind : OffloadKind)
    → r.tier ≡ k
    → tier_verdict t r now w k ≡ offer kind
    → Needs t r (now - r.last_active) w kind
unfolding tier_verdict local_verdict
tier_verdict-Needs t r now w archived kind e h = cc
tier_verdict-Needs t r now w live kind e h = live_verdict-Needs t r now w kind e h
tier_verdict-Needs t r now w frozen kind e h =
    promoted_Needs t r (now - r.last_active) w kind (λ x. cc) (λ x. cc) h
tier_verdict-Needs t r now w compacted kind e h =
    promoted_Needs t r (now - r.last_active) w kind (λ x. cc) (λ x. cc) h

verdict-IsPermitted :
    (c : Scan) (schema : Str) (r : StoreRecord) (kind : OffloadKind)
    → verdict c schema r ≡ offer kind
    → IsPermitted c schema r kind
unfolding verdict
verdict-IsPermitted c schema r kind h = (
  ground arith,
  ground arith,
  tier_verdict-Needs c.policy r c.now (get schema c.warm) r.tier kind refl (ground arith),
)

cand :
    (c : Scan) (schema : Str) (r : StoreRecord) (kind : OffloadKind) (a : Candidate)
    → candidate c schema r kind ≡ a
    → IsPermitted c schema r kind
    → IsPermitted c schema r a.kind
unfolding candidate
cand c schema r kind a e h = rw (sym (ap (λ (x : Candidate). x.kind) e)) h

offers-Any :
    (c : Scan) (a : Candidate) (records : Map StoreRecord)
    → Any (λ x. x ≡ a) (offers c records)
    → Any (λ p. (p.0 ≡ a.schema) × IsPermitted c p.0 p.1 a.kind) records
unfolding offers candidate
offers-Any c a [] h = absurd h
offers-Any c a ((schema, r) ∷ rest) h = elim (Verdict-cases (verdict c schema r)) [
  | inl (kind, e) ↦ elim (rw (e, offers) at h) [
    | inl same ↦ inl (
      ap (λ (x : Candidate). x.schema) same,
      cand c schema r kind a same (verdict-IsPermitted c schema r kind e),
    )
    | inr later ↦ inr (offers-Any c a rest later)
  ]
  | inr (inl e) ↦ inr (offers-Any c a rest (rw (e, offers) at h))
  | inr (inr e) ↦ inr (offers-Any c a rest (rw (e, offers) at h))
]

picked :
    (c : Scan) (records : Map StoreRecord) (best : Option Candidate) (schema : Str)
    (kind : OffloadKind)
    → job_of best ≡ some (schema, kind)
    → IsBestOf best (offers c records)
    → Any (λ p. (p.0 ≡ schema) × IsPermitted c p.0 p.1 kind) records
unfolding job_of
picked c records none schema kind h b = cc
picked c records (some a) schema kind h b =
    let e : a.schema ≡ schema = cc in
    let k : a.kind ≡ kind = cc in rw (sym e, sym k) (offers-Any c a records b.0)

-- A job is picked only for a schema of the registry that is neither kept alive nor backing off, and
-- only where its kind is due: a promotion for a file on the host, everything else for a live row;
-- past the threshold of its tier; compaction and imaging only with no warm VM, imaging only under
-- pressure; and a job that boots a VM only where booting is allowed, and where a warm VM has no
-- session and is past the threshold by its own clock.
pub pick_offload_job-IsPermitted :
    (records : Map StoreRecord) (c : Scan) (schema : Str) (kind : OffloadKind)
    → (pick_offload_job records c).0 ≡ some (schema, kind)
    → Any (λ p. (p.0 ≡ schema) × IsPermitted c p.0 p.1 kind) records
pick_offload_job-IsPermitted records c schema kind h =
    let ((best, e, b), _) = pick_offload_job-IsBestOf records c in
    picked c records best schema kind (sym e ∙ h) b
