-- ===== src/Offload/Pick/Booting.antt =====
-- src/registry.rs: the dispatcher's cap on jobs that boot a VM.
use pg_fc.Base.{Any, Str, Map, get, ℕ, ◌-◌, ◌≡◌, refl, inl, inr, true, false, Option, some, [], ◌∷◌}
use pg_fc.Store.Format.{StoreRecord}
use pg_fc.Offload.Sweep.{Warm}
use pg_fc.Offload.Pick.{
  OffloadKind, promote, compact, image_archive, dump_archive, freeze, boots, OffloadPolicy, Scan,
  pick_offload_job,
}
use pg_fc.Offload.Pick.Permits.{Needs, IsPermitted, pick_offload_job-IsPermitted}

-- One of the records is the reason.
pub Any-reason :
    {Q : Type 0} (P : Str × StoreRecord → Type 0) (records : Map StoreRecord)
    → ((p : Str × StoreRecord) → P p → Q)
    → Any P records
    → Q
Any-reason P [] f h = absurd h
Any-reason P (p ∷ rest) f (inl h) = f p h
Any-reason P (p ∷ rest) f (inr h) = Any-reason P rest f h

Needs-boots :
    (t : OffloadPolicy) (r : StoreRecord) (idle : ℕ) (w : Option Warm) (kind : OffloadKind)
    → t.no_boot ≡ true
    → Needs t r idle w kind
    → boots kind ≡ false
unfolding boots
Needs-boots t r idle w promote e h = refl
Needs-boots t r idle w compact e h = refl
Needs-boots t r idle w image_archive e h = refl
Needs-boots t r idle w dump_archive e h = cc
Needs-boots t r idle w freeze e h = cc

-- While a job that boots a VM is in flight (`no_boot`), no other one is picked.
pub pick_offload_job-boots :
    (records : Map StoreRecord) (c : Scan) (schema : Str) (kind : OffloadKind)
    → c.policy.no_boot ≡ true
    → (pick_offload_job records c).0 ≡ some (schema, kind)
    → boots kind ≡ false
pick_offload_job-boots records c schema kind e h =
    Any-reason (λ p. (p.0 ≡ schema) × IsPermitted c p.0 p.1 kind) records
      (λ p v. Needs-boots c.policy p.1 (c.now - p.1.last_active) (get p.0 c.warm) kind e v.1.2)
      (pick_offload_job-IsPermitted records c schema kind h)
