-- ===== src/Tiering/Serving/Waiting.antt =====
-- src/registry.rs: a client that waits for an archiving of its schema.
use pg_fc.Base.{
  if◌then◌else◌, take, Str, get-remove_self, ℕ, ◌≡◌, refl, true, false, none, some, List, ◌∷◌, ◌++◌,
  arith,
}
use pg_fc.Store.Format.{Tier, archived}
use pg_fc.Offload.Breaker.{Breaker, holding, clear}
use pg_fc.Tiering.{
  Places, apply, replay, Config, Verdict, done, fails, not_configured, bring_up_failed,
}
use pg_fc.Tiering.Archive.{Answers, archive_schema_inner}
use pg_fc.Tiering.Checkout.{cold_start}
use pg_fc.Tiering.Kept.{IsAt}
use pg_fc.Tiering.Kept.Runs.{Runs-IsKept}
use pg_fc.Tiering.Kept.Imaging.{Supports}
use pg_fc.Tiering.Kept.Archiving.{archive_schema_inner-runs}
use pg_fc.Tiering.Kept.Restoring.{Restores}
use pg_fc.Tiering.Outcomes.{is_configured, Started, cold_start_lem}
use pg_fc.Tiering.Serving.{
  Turn, Reply, served, busy, failed, Serving, after_cold, cold_turn, turn, checkout, AllWait, met,
  met_all, met_all-breaker, checkout_waits, act-cold,
}

cleared : (schema : Str) (now : ℕ) (b : Breaker) → holding schema now (clear schema b) ≡ none
unfolding holding clear
cleared schema now b = ground (arith, get-remove_self schema b)

checkout-cold :
    (cfg : Config) (schema : Str) (t : Turn) (us : List Turn) (s : Serving) (w : Verdict)
    (r : Reply) (s1 : Serving)
    → t.archiving ≡ false
    → t.warm ≡ none
    → holding schema t.now s.breaker ≡ none
    → (cold_start cfg (met t s).places t.brought).1 ≡ w
    → after_cold schema t w (record (met t s) {
      places = replay (cold_start cfg (met t s).places t.brought).0 (met t s).places;
    })
      ≡ (some r, s1)
    → checkout cfg schema (t ∷ us) s ≡ (r, s1)
unfolding checkout turn cold_turn
checkout-cold cfg schema t us s w r s1 a m h e x =
    rw (act-cold cfg schema t (met t s) a m h, checkout, turn, cold_turn, e, x) refl

-- What a client that waits is told in the end, and what has become of its schema, which was in the tier
-- with the version when its wait was over.
pub record IsAnswered (cfg : Config) (schema : Str) (t : Tier) (v : ℕ) (u : Turn) (q : Places)
    (x : Reply × Serving) : Type 0 where
  pub unavailable : is_configured cfg t ≡ false → (x.0 ≡ failed not_configured) × (x.1.places ≡ q)
  pub broken :
      is_configured cfg t ≡ true
      → u.brought.ensured ≡ none
      → (x.0 ≡ failed bring_up_failed) × IsAt t v x.1.places
  pub up :
      is_configured cfg t ≡ true
      → (id : Str) (w : ℕ) → u.brought.ensured ≡ some (id, w)
      → (x.0 ≡ (if u.admits then served else busy))
        × Started t v w u.brought q x.1.places
        × ((now : ℕ) → holding schema now x.1.breaker ≡ none)

cold-IsAnswered :
    (cfg : Config) (schema : Str) (t : Tier) (v : ℕ) (u : Turn) (us : List Turn) (s : Serving)
    → u.archiving ≡ false
    → u.warm ≡ none
    → holding schema u.now s.breaker ≡ none
    → Restores cfg (met u s).places u.brought
    → IsAt t v (met u s).places
    → IsAnswered cfg schema t v u (met u s).places (checkout cfg schema (u ∷ us) s)
unfolding after_cold replay apply
cold-IsAnswered cfg schema t v u us s a m hold good h =
    let q = (met u s).places in
    let (started, broken, refused) = cold_start_lem cfg t v u.brought q good h in
    record {
      unavailable = λ c.
          rw
            (checkout-cold cfg schema u us s (fails not_configured) _ _ a m hold
              (rw (refused c) refl) refl)
            (refl, rw (refused c) refl);
      broken = λ c e.
          rw
            (checkout-cold cfg schema u us s (fails bring_up_failed) _ _ a m hold
              (rw (broken c e) refl) refl)
            (refl, rw (broken c e) h);
      up = λ c id w e.
          let (finished, begun) = started c id w e in
          rw (checkout-cold cfg schema u us s done _ _ a m hold finished refl)
            (refl, begun, λ now. cleared schema now s.breaker);
    }

-- A client that comes while its schema is being archived, with answers that are supported: whatever the
-- archiving does, up to whatever change it gets, and however many turns the client waits, the turn
-- behind them answers it, if there is no warm entry and no hold by then and the requests to S3 fail or
-- tell the truth. It finds the schema in some tier with the version that was there before. Where that
-- tier is configured and the bring-up returns, it is served, or turned away if no slot is free; the row is
-- live with that version, or with an older image if the request for the dump failed; and no later client
-- is held off. Otherwise it is told what failed, and the version is where it was.
pub checkout-IsAnswered :
    (cfg : Config) (schema : Str) (t : Tier) (v : ℕ) (a : Answers) (n : ℕ) (ts us : List Turn)
    (u : Turn) (s : Serving)
    → Supports s.places v a
    → IsAt t v s.places
    → (met u (met_all ts s)).places
      ≡ replay (take n (archive_schema_inner cfg s.places.row s.places a).0) s.places
    → AllWait ts
    → u.archiving ≡ false
    → u.warm ≡ none
    → holding schema u.now s.breaker ≡ none
    → Restores cfg (met u (met_all ts s)).places u.brought
    → (x : Tier) × IsAt x v (met u (met_all ts s)).places
      × IsAnswered cfg schema x v u
          (met u (met_all ts s)).places
          (checkout cfg schema (ts ++ u ∷ us) s)
checkout-IsAnswered cfg schema t v a n ts us u s good h moved w free cold hold restores =
    let (x, at) =
      Runs-IsKept t archived v _ _ s.places (archive_schema_inner-runs cfg t v a s.places good h)
        n in
    let here : IsAt x v (met u (met_all ts s)).places = rw moved at in
    (
      x,
      here,
      rw (checkout_waits cfg schema ts (u ∷ us) s w) (
          cold-IsAnswered cfg schema x v u us (met_all ts s) free cold
            (rw (met_all-breaker ts s) hold) restores here),
    )
