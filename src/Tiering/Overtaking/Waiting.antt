-- ===== src/Tiering/Overtaking/Waiting.antt =====
-- src/registry.rs: a client that comes behind the claim of an archiving.
use pg_fc.Base.{ℕ, ◌≡◌, refl, sym, ap, ◌∙◌, ◌≢◌, ◌⊎◌, inl, inr, true, false, some, arith}
use pg_fc.Tiering.Overtaking.{
  looking, ready, claims, evicted, dumped, marked, finished, refused, absent, Race, at_rest,
  refuses, RaceStep, looks, inserts, serves, rejoins, finds_dead, restores, leaves, commits,
  takes_claim, evicts, gives_up, fails_to_dump, dumps, marks, kills, RaceRun, at_start, and_then,
  IsLost,
}

-- The claim is taken and nobody is past his look.
abbrev pub claimed_at : ℕ → Race
claimed_at v = record (at_rest v) { archiver = claims; claimed = true }

-- The client waits at his look, and the VM is there.
record IsWaiting (r : Race) : Type 0 where
  looks_on : r.client ≡ looking
  claimed : r.claimed ≡ true
  no_cell : r.cell ≡ absent
  there : r.killed ≡ false

-- While the VM is gone, nobody commits and S3 has what was committed last.
record IsStored (r : Race) : Type 0 where
  over : (r.archiver ≡ refused) ⊎ (r.archiver ≡ finished)
  in_s3 : r.killed ≡ true → r.dump ≡ some r.version
  cut_off : r.killed ≡ true → r.client ≢ ready

data Phase (r : Race) : Type 0 where
  before_dump : IsWaiting r → (r.archiver ≡ claims) ⊎ (r.archiver ≡ evicted) → Phase r
  with_dump :
      IsWaiting r
      → (r.archiver ≡ dumped) ⊎ (r.archiver ≡ marked)
      → r.dump ≡ some r.version
      → Phase r
  behind : IsStored r → Phase r

-- No step of the client is possible while it waits.
module _ {A : Type 0} {r : Race} (w : IsWaiting r) where
  not_past : r.client ≢ looking → A
  not_past n = absurd (n w.looks_on)

-- Nor one of the archiving when it is over.
over_not : {A : Type 0} {r : Race} → IsStored r → r.archiver ≢ refused → r.archiver ≢ finished → A
over_not s n m = elim s.over [ inl x ↦ absurd (n x) | inr x ↦ absurd (m x) ]

RaceStep-Phase : {r s : Race} → RaceStep r s → Phase r → Phase s
unfolding refuses
RaceStep-Phase (looks e c) h = elim h [
  | before_dump w x ↦ absurd (ground (arith, c, w.claimed))
  | with_dump w x d ↦ absurd (ground (arith, c, w.claimed))
  | behind s ↦ behind (record { over = s.over; in_s3 = s.in_s3; cut_off = λ k l. cc })
]
RaceStep-Phase (inserts e c) h = elim h [
  | before_dump w x ↦ not_past w (λ l. cc)
  | with_dump w x d ↦ not_past w (λ l. cc)
  | behind s ↦ behind (record { over = s.over; in_s3 = s.in_s3; cut_off = λ k l. cc })
]
RaceStep-Phase (serves e k) h = elim h [
  | before_dump w x ↦ not_past w (λ l. cc)
  | with_dump w x d ↦ not_past w (λ l. cc)
  | behind s ↦
      behind
        (record { over = s.over; in_s3 = s.in_s3; cut_off = λ x l. absurd (ground (arith, x, k)) })
]
RaceStep-Phase (rejoins e c k) h = elim h [
  | before_dump w x ↦ not_past w (λ l. cc)
  | with_dump w x d ↦ not_past w (λ l. cc)
  | behind s ↦
      behind
        (record { over = s.over; in_s3 = s.in_s3; cut_off = λ x l. absurd (ground (arith, x, k)) })
]
RaceStep-Phase (finds_dead e c) h = elim h [
  | before_dump w x ↦ not_past w (λ l. cc)
  | with_dump w x d ↦ not_past w (λ l. cc)
  | behind s ↦ behind (record { over = s.over; in_s3 = s.in_s3; cut_off = λ k l. cc })
]
RaceStep-Phase (restores w e k a d) h = elim h [
  | before_dump w x ↦ not_past w (λ l. cc)
  | with_dump w x d ↦ not_past w (λ l. cc)
  | behind s ↦ behind (record {
    over = s.over;
    in_s3 = λ x. absurd (ground (arith, x));
    cut_off = λ x l. absurd (ground (arith, x));
  })
]
RaceStep-Phase (leaves e) h = elim h [
  | before_dump w x ↦ not_past w (λ l. cc)
  | with_dump w x d ↦ not_past w (λ l. cc)
  | behind s ↦ behind (record { over = s.over; in_s3 = s.in_s3; cut_off = λ k l. cc })
]
RaceStep-Phase (commits e k) h = elim h [
  | before_dump w x ↦ not_past w (λ l. cc)
  | with_dump w x d ↦ not_past w (λ l. cc)
  | behind s ↦
      behind
        (record { over = s.over; in_s3 = λ x. absurd (ground (arith, x, k)); cut_off = s.cut_off })
]
RaceStep-Phase (takes_claim e c) h = elim h [
  | before_dump w x ↦ absurd (ground (arith, c, w.claimed))
  | with_dump w x d ↦ absurd (ground (arith, c, w.claimed))
  | behind s ↦ over_not s (λ x. cc) (λ x. cc)
]
RaceStep-Phase (evicts e c) h = elim h [
  | before_dump w x ↦
      before_dump
        (record { looks_on = w.looks_on; claimed = w.claimed; no_cell = refl; there = w.there })
        (inr refl)
  | with_dump w x d ↦ elim x [ inl y ↦ absurd (cc) | inr y ↦ absurd (cc) ]
  | behind s ↦ over_not s (λ x. cc) (λ x. cc)
]
RaceStep-Phase {r} (gives_up e c) h = elim h [
  | before_dump w x ↦
      absurd (ground (arith, c, w.no_cell, ap (λ x. refuses x r.sessions) w.no_cell))
  | with_dump w x d ↦
      absurd (ground (arith, c, w.no_cell, ap (λ x. refuses x r.sessions) w.no_cell))
  | behind s ↦ over_not s (λ x. cc) (λ x. cc)
]
RaceStep-Phase (fails_to_dump e) h = elim h [
  | before_dump w x ↦ behind (record {
    over = inl refl;
    in_s3 = λ k. absurd (ground (arith, k, w.there));
    cut_off = λ k. absurd (ground (arith, k, w.there));
  })
  | with_dump w x d ↦ elim x [ inl y ↦ absurd (cc) | inr y ↦ absurd (cc) ]
  | behind s ↦ over_not s (λ x. cc) (λ x. cc)
]
RaceStep-Phase (dumps e) h = elim h [
  | before_dump w x ↦
      with_dump
        (record {
          looks_on = w.looks_on;
          claimed = w.claimed;
          no_cell = w.no_cell;
          there = w.there;
        })
        (inl refl) refl
  | with_dump w x d ↦ elim x [ inl y ↦ absurd (cc) | inr y ↦ absurd (cc) ]
  | behind s ↦ over_not s (λ x. cc) (λ x. cc)
]
RaceStep-Phase (marks e) h = elim h [
  | before_dump w x ↦ elim x [ inl y ↦ absurd (cc) | inr y ↦ absurd (cc) ]
  | with_dump w x d ↦
      with_dump
        (record {
          looks_on = w.looks_on;
          claimed = w.claimed;
          no_cell = w.no_cell;
          there = w.there;
        })
        (inr refl) d
  | behind s ↦ over_not s (λ x. cc) (λ x. cc)
]
RaceStep-Phase (kills e) h = elim h [
  | before_dump w x ↦ elim x [ inl y ↦ absurd (cc) | inr y ↦ absurd (cc) ]
  | with_dump w x d ↦
      behind (record { over = inr refl; in_s3 = λ k. d; cut_off = λ k l. absurd (cc) })
  | behind s ↦ over_not s (λ x. cc) (λ x. cc)
]

run-Phase : (v : ℕ) (r : Race) → RaceRun (claimed_at v) r → Phase r
run-Phase v _ at_start =
    before_dump (record { looks_on = refl; claimed = refl; no_cell = refl; there = refl })
      (inl refl)
run-Phase v s (and_then {r} st run) = RaceStep-Phase st (run-Phase v r run)

some_eq : {w v : ℕ} → some w ≡ some v → w ≡ v
some_eq e = ground (arith, e)

gone_stored : (r : Race) → Phase r → r.killed ≡ true → r.dump ≡ some r.version
gone_stored r (before_dump w x) k = absurd (ground (arith, k, w.there))
gone_stored r (with_dump w x d) k = d
gone_stored r (behind s) k = s.in_s3 k

-- A client that looks only when the claim is taken: whatever he and the archiving do from there, failures
-- and restores included, S3 has the version committed last whenever the VM is gone, and no run loses a
-- commit.
pub claimed_run-Keeps :
    (v : ℕ) (r : Race)
    → RaceRun (claimed_at v) r
    → (r.killed ≡ true → r.dump ≡ some r.version) × ¬ IsLost r
claimed_run-Keeps v r run =
    let kept = gone_stored r (run-Phase v r run) in
    (
      kept,
      λ lost.
          let same : some lost.stored ≡ some r.version = sym lost.in_s3 ∙ kept lost.gone in
          absurd (omega (arith, lost.behind, some_eq same)),
    )
