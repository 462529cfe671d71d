-- ===== src/Offload/Draining/Orderly.antt =====
-- src/registry.rs: what holds of the jobs in flight, in every run of the drain loop.
use pg_fc.Base.{
  if◌then◌else◌, Bool-cases, Option-cases, length, length-append, contains, ℕ, ◌+◌, ◌≤◌, ◌<◌, ◌≡◌,
  refl, sym, ap, ◌⊎◌, inl, inr, Bool, true, false, some, List, [], ◌∷◌, ◌++◌, arith,
}
use pg_fc.Offload.Pick.{boots, OffloadPolicy}
use pg_fc.Offload.Pick.Permits.{IsPermitted, pick_offload_job-IsPermitted}
use pg_fc.Offload.Pick.Booting.{Any-reason, pick_offload_job-boots}
use pg_fc.Offload.Policies.{Seen, scan_of, next_offload_job}
use pg_fc.Offload.Sweeping.{max_consecutive_failures}
use pg_fc.Spares.Sets.{IsNodup, IsNodup-middle}
use pg_fc.Offload.Draining.{
  Job, schemas, any_boots, Drain, JobOutcome, done, skipped, failed, dispatch, count_outcome,
  drain_outcome, check_failures, settle, DrainStep, dispatches, finishes, stands_down, DrainRun,
  starts, goes_on,
}

abbrev pub booting : List Job → ℕ
booting [] = 0
booting (j ∷ js) = (if boots j.1 then 1 else 0) + booting js

-- No more jobs than workers, no schema twice, one job at most that boots a VM, and while the loop runs
-- fewer failures in a row than end it.
pub record IsOrderly (workers : ℕ) (d : Drain) : Type 0 where
  pub within : length d.in_flight ≤ workers
  pub once : IsNodup (schemas d.in_flight)
  pub one_boot : booting d.in_flight ≤ 1
  pub healthy : d.ended ≡ false → d.failures < max_consecutive_failures

any_boots-booting : (js : List Job) → any_boots js ≡ false → booting js ≡ 0
unfolding any_boots
any_boots-booting [] e = refl
any_boots-booting (j ∷ js) e = ground (arith, e, any_boots-booting js)

-- A job that is picked is of a schema with no job, and boots only if none in flight does.
next_offload_job-fresh :
    (policy : OffloadPolicy) (flight : List Job) (s : Seen) (job : Job)
    → next_offload_job (record policy { no_boot = any_boots flight }) (schemas flight) s ≡ some job
    → (contains (schemas flight) job.0 ≡ false)
      × ((any_boots flight ≡ false) ⊎ (boots job.1 ≡ false))
unfolding next_offload_job scan_of
next_offload_job-fresh policy flight s (schema, kind) e =
    let c = scan_of (record policy { no_boot = any_boots flight }) (schemas flight) s in
    let new : contains (schemas flight) schema ≡ false =
      Any-reason (λ p. (p.0 ≡ schema) × IsPermitted c p.0 p.1 kind) s.rows
        (λ p v. ground (arith, v.0, v.1.1, ap (λ x. contains (schemas flight) x) v.0))
        (pick_offload_job-IsPermitted s.rows c schema kind e) in
    (
      new,
      elim (Bool-cases (any_boots flight)) [
        | inl b ↦ inr (pick_offload_job-boots s.rows c schema kind b e)
        | inr b ↦ inl b
      ],
    )

schemas-append : (xs ys : List Job) → schemas (xs ++ ys) ≡ schemas xs ++ schemas ys
schemas-append [] ys = refl
schemas-append (x ∷ xs) ys = ap (λ l. x.0 ∷ l) (schemas-append xs ys)

booting-middle :
    (xs : List Job) (j : Job) (ys : List Job) → booting (xs ++ ys) ≤ booting (xs ++ j ∷ ys)
booting-middle [] j ys = ground arith
booting-middle (x ∷ xs) j ys = omega (arith, booting-middle xs j ys)

without_job :
    (workers : ℕ) (before after : List Job) (job : Job)
    → length (before ++ job ∷ after) ≤ workers
    → IsNodup (schemas (before ++ job ∷ after))
    → booting (before ++ job ∷ after) ≤ 1
    → (length (before ++ after) ≤ workers)
      × IsNodup (schemas (before ++ after))
      × (booting (before ++ after) ≤ 1)
without_job workers before after job l n b = (
  omega (arith, l, length-append before (job ∷ after), length-append before after),
  rw (schemas-append before after)
      (IsNodup-middle (schemas before) job.0 (schemas after)
        (rw (schemas-append before (job ∷ after)) at n)).1,
  omega (arith, b, booting-middle before job after),
)

IsOrderly-if :
    (workers : ℕ) (b : Bool) (d e : Drain)
    → (b ≡ true → IsOrderly workers d)
    → (b ≡ false → IsOrderly workers e)
    → IsOrderly workers (if b then d else e)
IsOrderly-if workers true d e h k = h refl
IsOrderly-if workers false d e h k = k refl

-- The jobs are the same, and the loop has ended or is healthy.
same_jobs :
    (workers : ℕ) (d e : Drain)
    → e.in_flight ≡ d.in_flight
    → (e.ended ≡ false → e.failures < max_consecutive_failures)
    → IsOrderly workers d
    → IsOrderly workers e
same_jobs workers d e same h v = record {
  within = rw same v.within;
  once = rw same v.once;
  one_boot = rw same v.one_boot;
  healthy = h;
}

drain_outcome-same :
    (o : JobOutcome) (d : Drain)
    → ((drain_outcome o d).in_flight ≡ d.in_flight) × ((drain_outcome o d).ended ≡ d.ended)
unfolding drain_outcome
drain_outcome-same done d = (refl, refl)
drain_outcome-same skipped d = (refl, refl)
drain_outcome-same failed d = (refl, refl)

count_outcome-same : (o : JobOutcome) (d : Drain) → (count_outcome o d).in_flight ≡ d.in_flight
unfolding count_outcome
count_outcome-same done d = refl
count_outcome-same skipped d = refl
count_outcome-same failed d = refl

settle-IsOrderly :
    (workers : ℕ) (o : JobOutcome) (d : Drain)
    → IsOrderly workers d
    → IsOrderly workers (settle o d)
unfolding settle check_failures
settle-IsOrderly workers o d v =
    IsOrderly-if workers d.ended _ _
      (λ e.
        let (jobs, ended) = drain_outcome-same o d in
        same_jobs workers d (drain_outcome o d) jobs (λ f. absurd (ground (arith, e, ended, f))) v)
      (λ e.
        same_jobs workers d (check_failures (count_outcome o d)) (count_outcome-same o d)
          (λ f. ground (arith, f)) v)

dispatch-IsOrderly :
    (workers : ℕ) (policy : OffloadPolicy) (s : Seen) (d e : Drain)
    → length d.in_flight < workers
    → dispatch policy s d ≡ some e
    → IsOrderly workers d
    → IsOrderly workers e
unfolding dispatch
dispatch-IsOrderly workers policy s d e l h v =
    elim (Option-cases (
      next_offload_job (record policy { no_boot = any_boots d.in_flight }) (schemas d.in_flight)
        s)) [
          | inl n ↦ ground (arith, n, h)
          | inr (job, j) ↦
              let (new, boot) = next_offload_job-fresh policy d.in_flight s job j in
              let same : record d { in_flight = job ∷ d.in_flight } ≡ e = ground (arith, j, h) in
              rw (sym same) (record {
                within = omega (arith, l);
                once = (new, v.once);
                one_boot = elim boot [
                  | inl b ↦ ground (arith, any_boots-booting d.in_flight b)
                  | inr b ↦ rw b (omega (arith, v.one_boot))
                ];
                healthy = v.healthy;
              })
        ]

DrainStep-IsOrderly :
    (workers : ℕ) (policy : OffloadPolicy) {d e : Drain}
    → DrainStep workers policy d e
    → IsOrderly workers d
    → IsOrderly workers e
DrainStep-IsOrderly workers policy {d} {e} (dispatches s _ _ l h) v =
    dispatch-IsOrderly workers policy s d e l h v
DrainStep-IsOrderly workers policy {d} (finishes before after job o e) v =
    let (w, n, b) =
      without_job workers before after job (rw e at v.within) (rw e at v.once)
        (rw e at v.one_boot) in
    settle-IsOrderly workers o (record d { in_flight = before ++ after })
      (record { within = w; once = n; one_boot = b; healthy = v.healthy })
DrainStep-IsOrderly workers policy {d} stands_down v =
    same_jobs workers d (record d { ended = true }) refl (λ f. cc) v

-- However jobs are dispatched and finish: no more are in flight than there are workers, no schema has two,
-- at most one boots a VM, and a job is dispatched only while fewer than three in a row have failed.
pub DrainRun-IsOrderly :
    (workers : ℕ) (policy : OffloadPolicy) (d : Drain)
    → DrainRun workers policy d
    → IsOrderly workers d
DrainRun-IsOrderly workers policy _ starts = record {
  within = omega arith;
  once = tt;
  one_boot = omega arith;
  healthy = λ e. omega arith;
}
DrainRun-IsOrderly workers policy e (goes_on {d} st r) =
    DrainStep-IsOrderly workers policy st (DrainRun-IsOrderly workers policy d r)
