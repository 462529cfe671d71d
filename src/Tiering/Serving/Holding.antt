-- ===== src/Tiering/Serving/Holding.antt =====
-- src/registry.rs: a bring-up that failed holds off the next `checkout`.
use pg_fc.Base.{
  ltb, if◌then◌else◌, Bool-cases, Option-cases, length, Str, eq_of_str_eq, str_eq, ℕ, suc, ◌+◌, ◌-◌,
  ◌≡◌, refl, ap, ◌∙◌, ◌≢◌, inl, inr, Bool, true, false, none, some, List, ◌∷◌, ◌++◌, arith,
}
use pg_fc.Offload.Breaker.{Breaker, holding, record_failure, record_failure-holding}
use pg_fc.Tiering.{Config, Verdict, done, fails, bring_up_failed}
use pg_fc.Tiering.Serving.{
  Turn, served, busy, held, failed, Serving, warm_turn, after_cold, cold_turn, turn, checkout,
  AllWait, checkout_waits, act-cold, act, met, met_all, met_all-breaker,
}

served_or_busy : (b : Bool) → (if b then served else busy) ≢ failed bring_up_failed
served_or_busy true e = cc
served_or_busy false e = cc

after_cold-failed :
    (schema : Str) (t : Turn) (w : Verdict) (s : Serving)
    → (after_cold schema t w s).0 ≡ some (failed bring_up_failed)
    → (after_cold schema t w s).1 ≡ record s { breaker = (record_failure schema t.now s.breaker).1 }
unfolding after_cold
after_cold-failed schema t done s e = absurd (served_or_busy t.admits (ground (arith, e)))
after_cold-failed schema t (fails bring_up_failed) s e = refl
after_cold-failed schema t (fails r) s e = cc

act_failed :
    (cfg : Config) (schema : Str) (t : Turn) (s : Serving)
    → (act cfg schema t s).0 ≡ some (failed bring_up_failed)
    → (act cfg schema t s).1.breaker ≡ (record_failure schema t.now s.breaker).1
unfolding act warm_turn cold_turn after_cold
act_failed cfg schema t s e = elim (Bool-cases t.archiving) [
  | inl a ↦ ground (arith, e, a)
  | inr a ↦ elim (Option-cases t.warm) [
    | inr ((admits, alive), w) ↦ ground (arith, e, a, w)
    | inl w ↦ elim (Option-cases (holding schema t.now s.breaker)) [
      | inr (x, h) ↦ ground (arith, e, a, w, h)
      | inl h ↦
          let cold = act-cold cfg schema t s a w h in
          rw cold (ap (λ x. x.breaker) (after_cold-failed schema t _ _ (rw cold at e)))
    ]
  ]
]

turn_failed :
    (cfg : Config) (schema : Str) (t : Turn) (s : Serving)
    → (turn cfg schema t s).0 ≡ some (failed bring_up_failed)
    → (turn cfg schema t s).1.breaker ≡ (record_failure schema t.now s.breaker).1
unfolding turn
turn_failed cfg schema t s e = act_failed cfg schema t (met t s) e

turn_held :
    (cfg : Config) (schema : Str) (t : Turn) (s : Serving) (failures left : ℕ)
    → t.archiving ≡ false
    → t.warm ≡ none
    → holding schema t.now s.breaker ≡ some (failures, left)
    → turn cfg schema t s ≡ (some (held failures left), met t s)
unfolding turn act
turn_held cfg schema t s failures left a w h = rw (a, w, h, act, turn) refl

longer : (s : Str) → str_eq s (0 ∷ s) ≡ false
longer s = elim (Bool-cases (str_eq s (0 ∷ s))) [
  | inl e ↦
      let same : length s ≡ suc (length s) = ap length (eq_of_str_eq s (0 ∷ s) e) in
      absurd (omega (arith, same))
  | inr e ↦ e
]

held_within :
    (schema : Str) (now elapsed : ℕ) (b : Breaker)
    → ltb elapsed (record_failure schema now b).0.1 ≡ true
    → holding schema (now + elapsed) (record_failure schema now b).1
      ≡ some ((record_failure schema now b).0.0, (record_failure schema now b).0.1 - elapsed)
held_within schema now elapsed b within =
    let (_, _, left, _, _) =
      record_failure-holding schema now elapsed b (0 ∷ schema) (longer schema) in
    left ∙ rw within refl

-- A bring-up that failed is not tried again within its hold: any client that comes meanwhile and has
-- waited for the offloads that it met is told how long the hold still is, and it changes nothing: what has
-- changed is what other tasks did meanwhile.
pub checkout_held :
    (cfg : Config) (schema : Str) (t : Turn) (s : Serving) (ts us : List Turn) (u : Turn)
    (elapsed : ℕ)
    → (turn cfg schema t s).0 ≡ some (failed bring_up_failed)
    → AllWait ts
    → u.archiving ≡ false
    → u.warm ≡ none
    → u.now ≡ t.now + elapsed
    → ltb elapsed (record_failure schema t.now s.breaker).0.1 ≡ true
    → checkout cfg schema (ts ++ u ∷ us) (turn cfg schema t s).1 ≡ (
      held
          (record_failure schema t.now s.breaker).0.0
          ((record_failure schema t.now s.breaker).0.1 - elapsed),
      met u (met_all ts (turn cfg schema t s).1),
    )
unfolding checkout
checkout_held cfg schema t s ts us u elapsed e h a w now within =
    let after = (turn cfg schema t s).1 in
    let ((n, hold), b) = record_failure schema t.now s.breaker in
    let same : (met_all ts after).breaker ≡ b =
      met_all-breaker ts after ∙ turn_failed cfg schema t s e in
    let hold_on : holding schema u.now (met_all ts after).breaker ≡ some (n, hold - elapsed) =
      rw (same, now) (held_within schema t.now elapsed s.breaker within) in
    rw
      (
        checkout_waits cfg schema ts (u ∷ us) after h,
        turn_held cfg schema u (met_all ts after) n (hold - elapsed) a w hold_on,
        checkout,
      )
      refl
