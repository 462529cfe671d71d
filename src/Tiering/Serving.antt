-- ===== src/Tiering/Serving.antt =====
-- src/registry.rs: the loop of `checkout`, with the circuit breaker of bring-ups.
pub mod Waiting
pub mod Holding
use pg_fc.Base.{
  if◌then◌else◌, Bool-cases, Option-cases, All, Str, ℕ, ◌≡◌, refl, inl, inr, Bool, true, false, not,
  ◌&&◌, ◌||◌, Option, none, some, List, [], ◌∷◌, ◌++◌, arith,
}
use pg_fc.Offload.Breaker.{Breaker, holding, record_failure, clear}
use pg_fc.Tiering.{Places, Effect, replay, Config, Verdict, done, fails, Refusal, bring_up_failed}
use pg_fc.Tiering.Checkout.{Brought, cold_start}

-- What one turn of the loop finds: what other tasks have changed since the turn before (an offload that
-- the client waits for moves the data), whether the schema is being offloaded, the warm entry with
-- whether it admits the client and answers, the clock, and the answers to a cold start.
pub record Turn : Type 0 where
  pub meanwhile : List Effect
  pub archiving : Bool
  pub warm : Option (Bool × Bool)
  pub now : ℕ
  pub brought : Brought
  pub admits : Bool

pub data Reply : Type 0 where
  served busy parked : Reply
  held : ℕ → ℕ → Reply
  failed : Refusal → Reply

pub record Serving : Type 0 where
  pub places : Places
  pub breaker : Breaker

-- A turn that does not return is `none`.
abbrev pub Next : Type 0
Next = Option Reply × Serving

unfoldable pub warm_turn : Bool × Bool → Serving → Next
warm_turn (admits, alive) s =
    if not admits then (some busy, s) else if alive then (some served, s) else (none, s)

-- Only a bring-up that was tried counts as a failure.
unfoldable pub after_cold : Str → Turn → Verdict → Serving → Next
after_cold schema t done s =
    (some (if t.admits then served else busy), record s { breaker = clear schema s.breaker })
after_cold schema t (fails bring_up_failed) s = (
  some (failed bring_up_failed),
  record s { breaker = (record_failure schema t.now s.breaker).1 },
)
after_cold schema t (fails r) s = (some (failed r), s)

unfoldable pub cold_turn : Config → Str → Turn → Serving → Next
cold_turn cfg schema t s =
    let (es, verdict) = cold_start cfg s.places t.brought in
    after_cold schema t verdict (record s { places = replay es s.places })

-- What the turn starts from.
abbrev pub met : Turn → Serving → Serving
met t s = record s { places = replay t.meanwhile s.places }

unfoldable pub act : Config → Str → Turn → Serving → Next
act cfg schema t s = if t.archiving then (none, s) else elim t.warm [
  | some w ↦ warm_turn w s
  | none ↦ elim (holding schema t.now s.breaker) [
    | some (failures, left) ↦ (some (held failures left), s)
    | none ↦ cold_turn cfg schema t s
  ]
]

abbrev pub unless_replied : Next → (Serving → Reply × Serving) → Reply × Serving
unless_replied (some r, s) next = (r, s)
unless_replied (none, s) next = next s

unfoldable pub turn : Config → Str → Turn → Serving → Next
turn cfg schema t s = act cfg schema t (met t s)

-- The turns up to the one that returns; `parked` is a client that waits still.
unfoldable pub checkout : Config → Str → List Turn → Serving → Reply × Serving
checkout cfg schema [] s = (parked, s)
checkout cfg schema (t ∷ ts) s =
    unless_replied (turn cfg schema t s) (λ r. checkout cfg schema ts r)

-- Turns in which the schema is being offloaded, or its warm entry does not answer.
unfoldable pub waits : Turn → Bool
waits t = t.archiving || elim t.warm [ none ↦ false | some (admits, alive) ↦ admits && not alive ]

abbrev pub AllWait : List Turn → Type 0
AllWait ts = All (λ t. waits t ≡ true) ts

abbrev pub met_all : List Turn → Serving → Serving
met_all [] s = s
met_all (t ∷ ts) s = met_all ts (met t s)

act-waits :
    (cfg : Config) (schema : Str) (t : Turn) (s : Serving)
    → waits t ≡ true
    → act cfg schema t s ≡ (none, s)
unfolding act waits warm_turn
act-waits cfg schema t s h = elim (Bool-cases t.archiving) [
  | inl a ↦ rw (a, act) refl
  | inr a ↦ elim (Option-cases t.warm) [
    | inl w ↦ ground (arith, a, w, h)
    | inr ((admits, alive), w) ↦ ground (arith, a, w, h)
  ]
]

pub checkout_waits :
    (cfg : Config) (schema : Str) (ts us : List Turn) (s : Serving)
    → AllWait ts
    → checkout cfg schema (ts ++ us) s ≡ checkout cfg schema us (met_all ts s)
unfolding checkout turn
checkout_waits cfg schema [] us s h = refl
checkout_waits cfg schema (t ∷ ts) us s h =
    rw (act-waits cfg schema t (met t s) h.0, turn, checkout)
      (checkout_waits cfg schema ts us (met t s) h.1)

pub met_all-breaker : (ts : List Turn) (s : Serving) → (met_all ts s).breaker ≡ s.breaker
met_all-breaker [] s = refl
met_all-breaker (t ∷ ts) s = met_all-breaker ts (met t s)

pub act-cold :
    (cfg : Config) (schema : Str) (t : Turn) (s : Serving)
    → t.archiving ≡ false
    → t.warm ≡ none
    → holding schema t.now s.breaker ≡ none
    → act cfg schema t s ≡ cold_turn cfg schema t s
unfolding act
act-cold cfg schema t s a w h = ground (arith, a, w, h)
