-- ===== src/Offload/Pick/Best.antt =====
-- src/registry.rs: the job that `pick_offload_job` picks is the best that is on offer.
use pg_fc.Base.{
  Bool-cases, All, Any, Str, Map, ◌≤◌, ◌<◌, ◌≡◌, refl, sym, ap, ◌∙◌, ◌⊎◌, inl, inr, true, false,
  Option, none, some, List, [], ◌∷◌, ◌++◌, append_assoc, append-nil, arith,
}
use pg_fc.Store.Format.{StoreRecord}
use pg_fc.Offload.Pick.{
  OffloadKind, Scan, Verdict, offer, stale, pass, verdict, Candidate, candidate, beats, improve,
  pick_from, job_of, pick_offload_job,
}

-- What the records offer, in their order.
unfoldable pub offers : Scan → Map StoreRecord → List Candidate
offers c [] = []
offers c ((schema, r) ∷ rest) = elim (verdict c schema r) [
  | offer kind ↦ candidate c schema r kind ∷ offers c rest
  | stale ↦ offers c rest
  | pass ↦ offers c rest
]

-- The schemas whose clocks are stale although they are warm, in their order.
pub stales : Scan → Map StoreRecord → List Str
stales c [] = []
stales c ((schema, r) ∷ rest) = elim (verdict c schema r) [
  | offer kind ↦ stales c rest
  | stale ↦ schema ∷ stales c rest
  | pass ↦ stales c rest
]

-- A cheaper step, or the same step on a schema that has been idle for at least as long.
abbrev pub AtLeastAsGood : Candidate → Candidate → Type 0
AtLeastAsGood b a = (b.job_rank < a.job_rank) ⊎ ((b.job_rank ≡ a.job_rank) × (a.idle ≤ b.idle))

-- Nothing is chosen only from nothing; what is chosen was on offer and no offer is better.
abbrev pub IsBestOf : Option Candidate → List Candidate → Type 0
IsBestOf none l = l ≡ []
IsBestOf (some b) l = Any (λ a. a ≡ b) l × All (AtLeastAsGood b) l

-- The offers so far, and one more.
choose : Option Candidate → List Candidate → Option Candidate
choose best [] = best
choose best (a ∷ l) = choose (improve best a) l

-- What the loop has come to from the best so far.
abbrev IsChoice : Candidate → Candidate → List Candidate → Type 0
IsChoice start b l =
    ((start ≡ b) ⊎ Any (λ a. a ≡ b) l) × AtLeastAsGood b start × All (AtLeastAsGood b) l

AtLeastAsGood-trans :
    (x y z : Candidate) → AtLeastAsGood x y → AtLeastAsGood y z → AtLeastAsGood x z
AtLeastAsGood-trans x y z h k = ground arith

beats-true : (a b : Candidate) → beats a b ≡ true → AtLeastAsGood a b
unfolding beats
beats-true a b h = ground arith

beats-false : (a b : Candidate) → beats a b ≡ false → AtLeastAsGood b a
unfolding beats
beats-false a b h = ground arith

-- The one in front was passed over.
past {ℓ} : {P Q R : Type ℓ} → P ⊎ Q → P ⊎ (R ⊎ Q)
past (inl p) = inl p
past (inr q) = inr (inr q)

choose-some :
    (start : Candidate) (l : List Candidate)
    → (b : Candidate) × (choose (some start) l ≡ some b) × IsChoice start b l
unfolding choose improve
choose-some start [] = (start, refl, (inl refl, inr (refl, omega arith), tt))
choose-some start (a ∷ l) = elim (Bool-cases (beats a start)) [
  | inl e ↦
      let (b, eq, (found, good, rest)) = choose-some a l in
      let ahead : AtLeastAsGood a start = beats-true a start e in
      rw (e, improve) (b, eq, (inr found, AtLeastAsGood-trans b a start good ahead, (good, rest)))
  | inr e ↦
      let (b, eq, (found, good, rest)) = choose-some start l in
      let behind : AtLeastAsGood start a = beats-false a start e in
      rw (e, improve) (b, eq, (past found, good, (AtLeastAsGood-trans b start a good behind, rest)))
]

choose-IsBestOf : (l : List Candidate) → IsBestOf (choose none l) l
unfolding choose improve
choose-IsBestOf [] = refl
choose-IsBestOf (a ∷ l) =
    let (b, e, (found, good, rest)) = choose-some a l in rw e (found, (good, rest))

pub Verdict-cases :
    (v : Verdict) → ((kind : OffloadKind) × (v ≡ offer kind)) ⊎ ((v ≡ stale) ⊎ (v ≡ pass))
Verdict-cases (offer kind) = inl (kind, refl)
Verdict-cases stale = inr (inl refl)
Verdict-cases pass = inr (inr refl)

pick_from_lem :
    (c : Scan) (best : Option Candidate) (to_refresh : List Str) (records : Map StoreRecord)
    → pick_from c best to_refresh records
      ≡ (choose best (offers c records), to_refresh ++ stales c records)
unfolding pick_from choose offers stales
pick_from_lem c best to_refresh [] = ap (λ (x : List Str). (best, x)) (sym (append-nil to_refresh))
pick_from_lem c best to_refresh ((schema, r) ∷ rest) = elim (Verdict-cases (verdict c schema r)) [
  | inl (kind, e) ↦
      rw (e, pick_from, offers, stales)
        (pick_from_lem c (improve best (candidate c schema r kind)) to_refresh rest)
  | inr (inl e) ↦
      rw (e, pick_from, offers, stales)
        (pick_from_lem c best (to_refresh ++ schema ∷ []) rest
          ∙ ap (λ (x : List Str). (choose best (offers c rest), x))
              (append_assoc to_refresh (schema ∷ []) (stales c rest)))
  | inr (inr e) ↦ rw (e, pick_from, offers, stales) (pick_from_lem c best to_refresh rest)
]

-- The job that is picked is on offer, and none on offer is better: it has the lowest rank, and among
-- those of its rank the longest idle time. There is no job only if no record offers one. The
-- schemas to refresh are exactly those that are stale and warm, in the order of the records.
pub pick_offload_job-IsBestOf :
    (records : Map StoreRecord) (c : Scan)
    → ((best : Option Candidate) × ((pick_offload_job records c).0 ≡ job_of best)
        × IsBestOf best (offers c records))
      × ((pick_offload_job records c).1 ≡ stales c records)
unfolding pick_offload_job
pick_offload_job-IsBestOf records c =
    let e = pick_from_lem c none [] records in
    (
      (choose none (offers c records), ap (λ p. job_of p.0) e, choose-IsBestOf (offers c records)),
      ap (λ p. p.1) e,
    )
