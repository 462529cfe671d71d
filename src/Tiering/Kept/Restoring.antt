-- ===== src/Tiering/Kept/Restoring.antt =====
-- src/registry.rs: a cold start restores the newest copy, and removes no copy before the row names
-- another.
use pg_fc.Base.{
  if◌then◌else◌, Option-cases, Str, get-insert_self, get, insert, ℕ, ◌≡◌, refl, sym, ap, ◌∙◌, ◌⊎◌,
  inl, inr, Bool, true, false, Option, none, some, arith,
}
use pg_fc.Store.Format.{Tier, live, compacted, frozen, archived}
use pg_fc.Tiering.{
  Binding, Places, apply, boots, Config, done, replay, Refusal, refuse, not_configured,
}
use pg_fc.Tiering.Images.{
  RestoreKind, from_dump, from_image, pick_restore, filter_size, min_dump_bytes, min_image_bytes,
}
use pg_fc.Tiering.Checkout.{
  RestoreSource, from_s3, from_s3_image, from_local, from_local_image, restore_source, Brought,
  thawed_file, bring_up, cold_start,
}
use pg_fc.Tiering.Kept.{
  IsAt, IsAt-boots, IsAt-sets_local_dump, IsAt-sets_local_image, IsAt-puts, version_at, version_of,
}
use pg_fc.Tiering.Kept.Runs.{Runs, RunsLog, Runs-done}
use pg_fc.Tiering.Kept.Picking.{IsAnswer, IsMisled, picked_version, picked_copy}

thawed_file-Runs :
    (t : Tier) (source : Option RestoreSource) (v : ℕ) (removed : Bool) (p : Places)
    → IsAt live v p
    → Runs t live v done (thawed_file source removed) p
unfolding thawed_file
thawed_file-Runs t none v removed p h = h
thawed_file-Runs t (some from_s3) v removed p h = h
thawed_file-Runs t (some from_s3_image) v removed p h = h
thawed_file-Runs t (some from_local) v true p h =
    ((live, h), IsAt-sets_local_dump live v none p (λ x. cc) h)
thawed_file-Runs t (some from_local) v false p h = h
thawed_file-Runs t (some from_local_image) v true p h =
    ((live, h), IsAt-sets_local_image live v none p (λ x. cc) h)
thawed_file-Runs t (some from_local_image) v false p h = h

bring_up-runs :
    (t : Tier) (v : ℕ) (source : Option RestoreSource) (a : Brought) (p : Places)
    → ((id : Str) (w : ℕ) → a.ensured ≡ some (id, w) → w ≡ v)
    → IsAt t v p
    → RunsLog t live v (bring_up source a) p
unfolding bring_up apply
bring_up-runs t v source a p good h = elim (Option-cases a.ensured) [
  | inl e ↦ rw (e, bring_up) ((t, h), h)
  | inr ((id, w), e) ↦
      let boot : IsAt t v (apply (boots id w) p) = rw (good id w e) (IsAt-boots t v id p h) in
      let disk : get id (insert id w p.disks) ≡ some v =
        get-insert_self id w p.disks ∙ ap some (good id w e) in
      let bound = IsAt-puts v id a.put_landed (apply (boots id w) p) disk in
      rw (e, bring_up)
        ((t, h), ((t, boot), ((live, bound), thawed_file-Runs t source v a.removed _ bound)))
]

from_source-runs :
    (t : Tier) (v : ℕ) (source : Refusal ⊎ Option RestoreSource) (a : Brought) (p : Places)
    → ((s : Option RestoreSource) (id : Str) (w : ℕ)
        → source ≡ inr s
        → a.ensured ≡ some (id, w)
        → w ≡ v)
    → IsAt t v p
    → RunsLog t live v (elim source [ inl r ↦ refuse r | inr s ↦ bring_up s a ]) p
from_source-runs t v (inl r) a p good h = h
from_source-runs t v (inr s) a p good h = bring_up-runs t v s a p (λ id w e. good s id w refl e) h

abbrev pub bound_version : Option Binding → Places → Option ℕ
bound_version none p = none
bound_version (some b) p = get b.sandbox_id p.disks

-- The copy that a bring-up is given to restore, which is not shorter than any copy of its kind; without
-- one it reattaches to the VM of the row.
unfoldable pub copy_of : Option RestoreSource → Places → Option ℕ
copy_of none p = bound_version p.row p
copy_of (some from_s3) p = version_of (filter_size min_dump_bytes p.dump)
copy_of (some from_s3_image) p = version_of (filter_size min_image_bytes p.image)
copy_of (some from_local) p = version_of p.local_dump
copy_of (some from_local_image) p = version_of p.local_image

if_inr :
    (b : Bool) (x : Option RestoreSource) (r : Refusal) (s : Option RestoreSource)
    → (if b then inr x else inl r) ≡ inr s
    → x ≡ s
if_inr b x r s e = ground (arith, e)

some_eq : {w v : ℕ} → some w ≡ some v → w ≡ v
some_eq e = ground (arith, e)

kind_copy :
    (kind : RestoreKind) (p : Places)
    → copy_of (some (elim kind [ from_dump ↦ from_s3 | from_image ↦ from_s3_image ])) p
      ≡ picked_version kind p.dump p.image
unfolding copy_of
kind_copy from_dump p = refl
kind_copy from_image p = refl

same_version : {w v : ℕ} {o : Option ℕ} → o ≡ some v → o ≡ some w → w ≡ v
same_version c e = some_eq (sym e ∙ c)

-- What a cold start relies on: S3's answers are true where there are any, and a bring-up that returns
-- has the copy that it was given.
pub record Restores (cfg : Config) (p : Places) (a : Brought) : Type 0 where
  pub dump_answer : IsAnswer a.dump_head p.dump
  pub image_answer : IsAnswer a.image_head p.image
  pub restored :
      (s : Option RestoreSource) (id : Str) (w : ℕ)
      → restore_source cfg p.row (pick_restore a.dump_head a.image_head) ≡ inr s
      → a.ensured ≡ some (id, w)
      → copy_of s p ≡ some w

-- The source that is restored holds the version of the row's tier, unless the answers mislead.
source_copy :
    (cfg : Config) (t : Tier) (v w : ℕ) (id : Str) (row : Option Binding) (p : Places) (a : Brought)
    (s : Option RestoreSource)
    → p.row ≡ row
    → row ≡ some (record { sandbox_id = id; tier = t })
    → IsAnswer a.dump_head p.dump
    → IsAnswer a.image_head p.image
    → version_at t id p ≡ some v
    → restore_source cfg row (pick_restore a.dump_head a.image_head) ≡ inr s
    → copy_of s p ≡ some w
    → (w ≡ v) ⊎ ((t ≡ archived) × IsMisled p a)
unfolding restore_source copy_of version_at
source_copy cfg live v w id row p a s same e _ _ c r has =
    let none_same : none ≡ s = ground (arith, rw e at r) in
    let disk : bound_version p.row p ≡ some v = rw (same ∙ e) c in
    inl (same_version disk (rw (sym none_same) at has))
source_copy cfg compacted v w id row p a s same e _ _ c r has =
    let local = if_inr cfg.compact (some from_local_image) not_configured s (rw e at r) in
    inl (same_version c (rw (sym local) at has))
source_copy cfg frozen v w id row p a s same e _ _ c r has =
    let local = if_inr cfg.freeze (some from_local) not_configured s (rw e at r) in
    inl (same_version c (rw (sym local) at has))
source_copy cfg archived v w id row p a s same e d i c r has =
    let picked = if_inr cfg.archive _ not_configured s (rw e at r) in
    let kind = pick_restore a.dump_head a.image_head in
    elim (picked_copy v w p a d i c (sym (kind_copy kind p) ∙ rw (sym picked) at has)) [
      | inl x ↦ inl x
      | inr m ↦ inr (refl, m)
    ]

-- What a bring-up returns with is the version, unless the answers mislead.
pub restored_version :
    (cfg : Config) (t : Tier) (v : ℕ) (a : Brought) (p : Places) (s : Option RestoreSource)
    (id : Str) (w : ℕ)
    → Restores cfg p a
    → IsAt t v p
    → restore_source cfg p.row (pick_restore a.dump_head a.image_head) ≡ inr s
    → a.ensured ≡ some (id, w)
    → (w ≡ v) ⊎ ((t ≡ archived) × IsMisled p a)
restored_version cfg t v a p s id w good h r e =
    source_copy cfg t v w h.id p.row p a s refl h.row_at good.dump_answer good.image_answer h.copy r
      (good.restored s id w r e)

-- A bring-up that returns leaves the row live with what it returned with.
pub bring_up-IsAt :
    (source : Option RestoreSource) (a : Brought) (p : Places) (id : Str) (w : ℕ)
    → a.ensured ≡ some (id, w)
    → IsAt live w (replay (bring_up source a).0 p)
unfolding bring_up replay apply
bring_up-IsAt source a p id w e =
    let q = apply (boots id w) p in
    let bound = IsAt-puts w id a.put_landed q (get-insert_self id w p.disks) in
    rw (e, bring_up)
      (Runs-done live live w done (thawed_file source a.removed) _
        (thawed_file-Runs live source w a.removed _ bound) refl)

-- A cold start of any tier that is not misled.
pub cold_start-runs :
    (cfg : Config) (t : Tier) (v : ℕ) (a : Brought) (p : Places)
    → Restores cfg p a
    → ¬ IsMisled p a
    → IsAt t v p
    → RunsLog t live v (cold_start cfg p a) p
unfolding cold_start
cold_start-runs cfg t v a p good trusted h =
    from_source-runs t v (restore_source cfg p.row (pick_restore a.dump_head a.image_head)) a p
      (λ s id w r e. elim (restored_version cfg t v a p s id w good h r e) [
        | inl same ↦ same
        | inr (_, misled) ↦ absurd (trusted misled)
      ])
      h
