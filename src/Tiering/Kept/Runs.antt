-- ===== src/Tiering/Kept/Runs.antt =====
-- The changes of one operation, one after the other, with the data readable in front of each.
use pg_fc.Base.{
  if◌then◌else◌, take, ℕ, zero, suc, ◌≡◌, refl, Bool, true, false, Option, none, some, List, [],
  ◌∷◌, ◌++◌,
}
use pg_fc.Store.Format.{Tier}
use pg_fc.Tiering.{Places, Effect, apply, replay, Verdict, done, fails, Refusal, Log, after}
use pg_fc.Tiering.Images.{ImageLog}
use pg_fc.Tiering.Kept.{IsAt, IsKept, version_at}

-- Before each of the changes the data is kept; at the end the row is in the tier `u` if the
-- operation is done, and in the tier `t` if it stopped.
abbrev pub Runs : Tier → Tier → ℕ → Verdict → List Effect → Places → Type 0
Runs t u v done [] p = IsAt u v p
Runs t u v (fails r) [] p = IsAt t v p
Runs t u v w (e ∷ es) p = IsKept v p × Runs t u v w es (apply e p)

abbrev pub RunsLog : Tier → Tier → ℕ → Log → Places → Type 0
RunsLog t u v l p = Runs t u v l.1 l.0 p

pub Runs-IsKept :
    (t u : Tier) (v : ℕ) (w : Verdict) (es : List Effect) (p : Places)
    → Runs t u v w es p
    → (n : ℕ) → IsKept v (replay (take n es) p)
unfolding replay
Runs-IsKept t u v done [] p h zero = (u, h)
Runs-IsKept t u v done [] p h (suc n) = (u, h)
Runs-IsKept t u v (fails r) [] p h zero = (t, h)
Runs-IsKept t u v (fails r) [] p h (suc n) = (t, h)
Runs-IsKept t u v done (e ∷ es) p h zero = h.0
Runs-IsKept t u v (fails r) (e ∷ es) p h zero = h.0
Runs-IsKept t u v done (e ∷ es) p h (suc n) = Runs-IsKept t u v done es (apply e p) h.1 n
Runs-IsKept t u v (fails r) (e ∷ es) p h (suc n) = Runs-IsKept t u v (fails r) es (apply e p) h.1 n

pub Runs-done :
    (t u : Tier) (v : ℕ) (w : Verdict) (es : List Effect) (p : Places)
    → Runs t u v w es p
    → w ≡ done
    → IsAt u v (replay es p)
unfolding replay
Runs-done t u v done [] p h e = h
Runs-done t u v (fails r) [] p h e = cc
Runs-done t u v done (x ∷ es) p h e = Runs-done t u v done es (apply x p) h.1 e
Runs-done t u v (fails r) (x ∷ es) p h e = cc

pub Runs-fails :
    (t u : Tier) (v : ℕ) (w : Verdict) (es : List Effect) (p : Places)
    → Runs t u v w es p
    → (r : Refusal) → w ≡ fails r
    → IsAt t v (replay es p)
unfolding replay
Runs-fails t u v (fails r) [] p h q e = h
Runs-fails t u v done [] p h q e = cc
Runs-fails t u v (fails r) (x ∷ es) p h q e = Runs-fails t u v (fails r) es (apply x p) h.1 q e
Runs-fails t u v done (x ∷ es) p h q e = cc

-- A change in front, in a tier that it leaves.
pub RunsLog-after :
    (t u : Tier) (v : ℕ) (e : Effect) (l : Log) (p : Places)
    → IsAt t v p
    → RunsLog t u v l (apply e p)
    → RunsLog t u v (after (e ∷ []) l) p
RunsLog-after t u v e (es, done) p h k = ((t, h), k)
RunsLog-after t u v e (es, fails r) p h k = ((t, h), k)

pub after_two :
    (t u : Tier) (v : ℕ) (e f : Effect) (l : Log) (p : Places)
    → IsAt t v p
    → IsAt t v (apply e p)
    → RunsLog t u v l (apply f (apply e p))
    → RunsLog t u v (after (e ∷ f ∷ []) l) p
after_two t u v e f (es, done) p h i k = ((t, h), ((t, i), k))
after_two t u v e f (es, fails r) p h i k = ((t, h), ((t, i), k))

pub RunsLog-if :
    (t u : Tier) (v : ℕ) (b : Bool) (l m : Log) (p : Places)
    → (b ≡ true → RunsLog t u v l p)
    → (b ≡ false → RunsLog t u v m p)
    → RunsLog t u v (if b then l else m) p
RunsLog-if t u v true l m p h k = h refl
RunsLog-if t u v false l m p h k = k refl

-- The changes of an image: the tier stays, and at the end of an image that is not refused the version is
-- what S3 has for a restore.
abbrev pub ImageRuns : Tier → Tier → ℕ → Option Refusal → List Effect → Places → Type 0
ImageRuns t u v none [] p = IsAt t v p × (version_at u [] p ≡ some v)
ImageRuns t u v (some r) [] p = IsAt t v p
ImageRuns t u v r (e ∷ es) p = IsAt t v p × ImageRuns t u v r es (apply e p)

pub Runs-image_done :
    (t u : Tier) (v : ℕ) (es fs : List Effect) (p : Places)
    → ImageRuns t u v none es p
    → ((q : Places) → IsAt t v q → version_at u [] q ≡ some v → Runs t u v done fs q)
    → Runs t u v done (es ++ fs) p
Runs-image_done t u v [] fs p h k = k p h.0 h.1
Runs-image_done t u v (e ∷ es) fs p h k = ((t, h.0), Runs-image_done t u v es fs (apply e p) h.1 k)

pub Runs-image_fails :
    (t u : Tier) (v : ℕ) (es : List Effect) (r s : Refusal) (p : Places)
    → ImageRuns t u v (some r) es p
    → Runs t u v (fails s) es p
Runs-image_fails t u v [] r s p h = h
Runs-image_fails t u v (e ∷ es) r s p h = ((t, h.0), Runs-image_fails t u v es r s (apply e p) h.1)

pub ImageRuns-if :
    (t u : Tier) (v : ℕ) (b : Bool) (l m : ImageLog) (p : Places)
    → (b ≡ true → ImageRuns t u v l.1 l.0 p)
    → (b ≡ false → ImageRuns t u v m.1 m.0 p)
    → ImageRuns t u v (if b then l else m).1 (if b then l else m).0 p
ImageRuns-if t u v true l m p h k = h refl
ImageRuns-if t u v false l m p h k = k refl
