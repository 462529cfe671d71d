-- ===== src/Spares/Taking.antt =====
-- src/spares.rs: what one `take` leaves behind, when nothing else runs.
use pg_fc.Base.{
  Bool-cases, Option-cases, Str, str_eq_iff, str_eq, contains, ◌≡◌, refl, sym, ap, ◌∙◌, inl, inr,
  true, false, ◌||◌, Option, none, some, List, [], ◌∷◌, arith,
}
use pg_fc.Spares.{
  SparePool, Reply, pop_ready, claimed_pool, pop_claim, is_usable, unclaim, take_spare,
}
use pg_fc.Spares.Sets.{IsNodup, AllClaimed, contains-without, free_cons, free_without}
use pg_fc.Spares.Steps.Exclusive.{Popped, pop_ready-Popped}

-- A shelf of which nothing is claimed and nothing stands twice.
abbrev pub IsShelf : SparePool → Type 0
IsShelf p = IsNodup p.ready × AllClaimed false p.claimed p.ready

-- A claim that succeeds claims the one spare that it returns, which was neither bound nor claimed;
-- one that fails claims nothing in the end.
abbrev pub Takes : List Str → SparePool → Option Str × SparePool → Type 0
Takes bound p (none, q) = (j : Str) → contains q.claimed j ≡ contains p.claimed j
Takes bound p (some id, q) =
    (contains bound id ≡ false)
    × (contains p.claimed id ≡ false)
    × ((j : Str) → contains q.claimed j ≡ (str_eq id j || contains p.claimed j))

-- A property of a claim by its two outcomes.
pop_claim_cases :
    (P : Option Str × SparePool → Type 0) (bound : List Str) (p : SparePool)
    → IsShelf p
    → P (none, record p { ready = [] })
    → ((id : Str) (rest : List Str)
        → Popped bound p.claimed id rest
        → P (some id, record p { claimed = id ∷ p.claimed; ready = rest }))
    → P (pop_claim bound p)
unfolding pop_claim claimed_pool
pop_claim_cases P bound p v nothing something =
    elim (Option-cases (pop_ready bound p.claimed p.ready)) [
      | inl e ↦ rw (e, claimed_pool) nothing
      | inr ((id, rest), e) ↦
          rw (e, claimed_pool)
            (something id rest (pop_ready-Popped bound p.claimed p.ready id rest v.0 v.1 e))
    ]

-- The pool after a claim that was put back.
put_back : Str → List Str → SparePool → SparePool
unfolding unclaim
put_back id rest p = unclaim id (record p { claimed = id ∷ p.claimed; ready = rest })

put_back-IsShelf :
    (bound : List Str) (id : Str) (rest : List Str) (p : SparePool)
    → Popped bound p.claimed id rest
    → IsShelf (put_back id rest p)
unfolding put_back unclaim
put_back-IsShelf bound id rest p q = (
  q.rest_once,
  free_without id (id ∷ p.claimed) rest (free_cons id p.claimed rest q.off_shelf q.rest_free),
)

put_back_claimed :
    (bound : List Str) (id : Str) (rest : List Str) (p : SparePool) (j : Str)
    → Popped bound p.claimed id rest
    → contains (put_back id rest p).claimed j ≡ contains p.claimed j
unfolding put_back unclaim contains
put_back_claimed bound id rest p j q =
    ground (arith, contains-without id (id ∷ p.claimed) j, str_eq_iff id j, q.unclaimed)

Takes-put_back :
    (bound : List Str) (id : Str) (rest : List Str) (p : SparePool) (r : Option Str × SparePool)
    → Popped bound p.claimed id rest
    → Takes bound (put_back id rest p) r
    → Takes bound p r
Takes-put_back bound id rest p (none, t) q h = λ j. h j ∙ put_back_claimed bound id rest p j q
Takes-put_back bound id rest p (some x, t) q h = (
  h.0,
  sym (put_back_claimed bound id rest p x q) ∙ h.1,
  λ j. h.2 j ∙ ap (λ b. str_eq x j || b) (put_back_claimed bound id rest p j q),
)

claims_one :
    (id : Str) (claimed : List Str) (j : Str)
    → contains (id ∷ claimed) j ≡ (str_eq id j || contains claimed j)
unfolding contains
claims_one id claimed j = ground arith

-- From a shelf of which nothing is claimed and nothing stands twice, whatever the daemon answers,
-- a `take` claims exactly what it returns: the spare that it hands over was neither bound nor
-- claimed before, and every other id is claimed exactly if it was.
pub take_spare-Takes :
    (bound : List Str) (replies : List Reply) (p : SparePool)
    → IsShelf p
    → Takes bound p (take_spare bound replies p)
unfolding take_spare put_back
take_spare-Takes bound [] p v = λ j. refl
take_spare-Takes bound (reply ∷ replies) p v =
    pop_claim_cases
      (λ c. Takes bound p (elim c.0 as (λ _. Option Str × SparePool) [
        | none ↦ (none, c.1)
        | some id ↦ elim (is_usable reply) as (λ _. Option Str × SparePool) [
          | true ↦ (some id, c.1)
          | false ↦ take_spare bound replies (unclaim id c.1)
        ]
      ]))
      bound p v (λ j. refl)
      λ id rest q. elim (Bool-cases (is_usable reply)) [
        | inl e ↦ rw e (q.unbound, q.unclaimed, λ j. claims_one id p.claimed j)
        | inr e ↦ rw e (
            Takes-put_back bound id rest p _ q (
              take_spare-Takes bound replies (put_back id rest p)
                (put_back-IsShelf bound id rest p q)))
      ]
