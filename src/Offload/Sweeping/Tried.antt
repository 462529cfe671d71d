-- ===== src/Offload/Sweeping/Tried.antt =====
-- src/registry.rs: which schemas `sweep_archive` tries.
use pg_fc.Base.{
  leb, if◌then◌else◌, Bool-cases, All, Any, All-map, Str, Map, ℕ, ◌+◌, ◌-◌, ◌≤◌, ◌≡◌, refl, ◌⊎◌,
  inl, inr, Bool, true, false, List, [], ◌∷◌, arith,
}
use pg_fc.Store.Format.{StoreRecord, Tier, live, compacted, frozen, archived, offloaded, is_live}
use pg_fc.Offload.Sweep.{
  SweepAction, skip, refresh, archive, classify_candidate, IsCold, classify_candidate_iff,
}
use pg_fc.Offload.Sweeping.{
  SweepView, Plan, is_due, add_live, add_row, plan_sweep, archive_all, sweep_archive,
  max_consecutive_failures, IsWork, plan_sweep-IsWork, archive_all-All, FailsAtMost,
  archive_all-FailsAtMost,
}

-- A row that is work for a sweep, of which `IsWork` says that there is one.
abbrev pub IsWaiting : SweepView → Str × StoreRecord → Type 0
IsWaiting v e =
    (offloaded e.1 ≡ false)
    × (v.keepalive e.0 ≡ false)
    × (v.threshold ≤ v.now - e.1.last_active)
    × IsCold (v.warm e.0) v.threshold
    × (v.backing_off e.0 ≡ false)

-- What is tried ends with a failure that reaches the limit of failures in a row.
abbrev pub IsStopped : (Str → Bool) → ℕ → List Str → Type 0
IsStopped ok failures [] = ⊥
IsStopped ok failures (s ∷ ss) =
    ((ok s ≡ false) × (ss ≡ []) × (max_consecutive_failures ≤ failures + 1))
    ⊎ IsStopped ok (if ok s then 0 else failures + 1) ss

IsStopped-cons :
    (ok : Str → Bool) (b : Bool) (failures : ℕ) (s : Str) (ss : List Str)
    → ok s ≡ b
    → IsStopped ok (if b then 0 else failures + 1) ss
    → IsStopped ok failures (s ∷ ss)
IsStopped-cons ok b failures s ss o h = inr (rw o h)

either_cons :
    (P : Str → Type 0) (ok : Str → Bool) (b : Bool) (failures : ℕ) (s : Str) (ss : List Str)
    → ok s ≡ b
    → Any P ss ⊎ IsStopped ok (if b then 0 else failures + 1) ss
    → Any P (s ∷ ss) ⊎ IsStopped ok failures (s ∷ ss)
either_cons P ok b failures s ss o (inl a) = inl (inr a)
either_cons P ok b failures s ss o (inr h) = inr (IsStopped-cons ok b failures s ss o h)

archive_all-IsStopped :
    (P : Str → Type 0) (ok : Str → Bool) (failures : ℕ) (ss : List Str)
    → Any P ss
    → Any P (archive_all ok failures ss).0 ⊎ IsStopped ok failures (archive_all ok failures ss).0
unfolding archive_all
archive_all-IsStopped P ok failures [] h = absurd h
archive_all-IsStopped P ok failures (s ∷ ss) h = elim (Bool-cases (ok s)) [
  | inl o ↦
      rw (o, archive_all)
        (elim h [
          | inl p ↦ inl (inl p)
          | inr a ↦
              either_cons P ok true failures s (archive_all ok 0 ss).0 o
                (archive_all-IsStopped P ok 0 ss a)
        ])
  | inr o ↦ elim (Bool-cases (leb max_consecutive_failures (failures + 1))) [
    | inl l ↦ rw (o, l, archive_all) (inr (inl (o, refl, ground (arith, l))))
    | inr l ↦
        rw (o, l, archive_all)
          (elim h [
            | inl p ↦ inl (inl p)
            | inr a ↦
                either_cons P ok false failures s (archive_all ok (failures + 1) ss).0 o
                  (archive_all-IsStopped P ok (failures + 1) ss a)
          ])
  ]
]

still_candidate :
    (P : Str → Type 0) (b : Bool) (p q : Plan)
    → (Any P p.candidates → Any P q.candidates)
    → Any P p.candidates
    → Any P (if b then q else p).candidates
still_candidate P true p q k a = k a
still_candidate P false p q k a = a

add_live-keeps :
    (P : Str → Type 0) (v : SweepView) (schema : Str) (action : SweepAction) (p : Plan)
    → Any P p.candidates
    → Any P (add_live v schema action p).candidates
unfolding add_live
add_live-keeps P v schema skip p a = a
add_live-keeps P v schema refresh p a = a
add_live-keeps P v schema archive p a = elim (Bool-cases (v.backing_off schema)) [
  | inl b ↦ rw (b, add_live) a
  | inr b ↦ rw (b, add_live) (inr a)
]

add_row-keeps :
    (P : Str → Type 0) (v : SweepView) (schema : Str) (r : StoreRecord) (t : Tier) (p : Plan)
    → Any P p.candidates
    → Any P (add_row v schema r t p).candidates
unfolding add_row
add_row-keeps P v schema r live p a = add_live-keeps P v schema _ p a
add_row-keeps P v schema r archived p a = add_live-keeps P v schema _ p a
add_row-keeps P v schema r frozen p a = still_candidate P (is_due v schema r) p _ (λ x. x) a
add_row-keeps P v schema r compacted p a = still_candidate P (is_due v schema r) p _ (λ x. x) a

add_live-adds :
    (v : SweepView) (schema : Str) (r : StoreRecord) (p : Plan)
    → IsWaiting v (schema, r)
    → Any
        (λ s. s ≡ schema)
        (add_live v schema
          (classify_candidate r (v.keepalive schema) v.now v.threshold (v.warm schema))
          p).candidates
unfolding add_live
add_live-adds v schema r p (there, kept, due, cold, back) =
    let work =
      (classify_candidate_iff r (v.keepalive schema) v.now v.threshold (v.warm schema)).1
        (there, kept, due, cold) in
    rw (work, back, add_live) (inl refl)

add_row-adds :
    (v : SweepView) (schema : Str) (r : StoreRecord) (t : Tier) (p : Plan)
    → r.tier ≡ t
    → IsWaiting v (schema, r)
    → Any (λ s. s ≡ schema) (add_row v schema r t p).candidates
unfolding add_row offloaded is_live
add_row-adds v schema r live p e w = add_live-adds v schema r p w
add_row-adds v schema r archived p e w = add_live-adds v schema r p w
add_row-adds v schema r frozen p e w = absurd (ground (arith, e, w.0))
add_row-adds v schema r compacted p e w = absurd (ground (arith, e, w.0))

plan_sweep-adds :
    (v : SweepView) (rows : Map StoreRecord)
    → All (λ e. IsWaiting v e → Any (λ s. s ≡ e.0) (plan_sweep v rows).candidates) rows
unfolding plan_sweep
plan_sweep-adds v [] = tt
plan_sweep-adds v ((schema, r) ∷ rows) = (
  λ w. add_row-adds v schema r r.tier (plan_sweep v rows) refl w,
  All-map _ _ rows
      (λ e found w. add_row-keeps (λ s. s ≡ e.0) v schema r r.tier (plan_sweep v rows) (found w))
      (plan_sweep-adds v rows),
)

-- A sweep tries only live schemas that are due by both clocks, with no session, not kept alive and not
-- backing off, and it tries every one of them, unless it stops at the third failure in a row; and nowhere
-- among those that it tries do more than three in a row fail, for it tries nothing more behind them.
pub sweep_archive_lem :
    (ok : Str → Bool) (v : SweepView) (rows : Map StoreRecord)
    → let (tried, _) = sweep_archive ok v rows in
      All (IsWork v rows) tried
      × FailsAtMost ok 0 tried
      × All (λ e. IsWaiting v e → Any (λ s. s ≡ e.0) tried ⊎ IsStopped ok 0 tried) rows
unfolding sweep_archive
sweep_archive_lem ok v rows = (
  archive_all-All (IsWork v rows) ok 0 (plan_sweep v rows).candidates (plan_sweep-IsWork v rows),
  archive_all-FailsAtMost ok 0 (plan_sweep v rows).candidates (omega arith),
  All-map _ _ rows
      (λ e found w.
        archive_all-IsStopped (λ s. s ≡ e.0) ok 0 (plan_sweep v rows).candidates (found w))
      (plan_sweep-adds v rows),
)
