-- ===== src/Tiering/Checkout.antt =====
-- src/registry.rs: the cold path of `checkout`, behind the wait for an offload and the warm entry.
use pg_fc.Base.{if◌then◌else◌, Str, ℕ, ◌⊎◌, inl, inr, Bool, Option, none, some, List, [], ◌∷◌}
use pg_fc.Store.Format.{compacted, frozen, archived}
use pg_fc.Tiering.{
  Binding, Places, Effect, stops_leaked, clears_pending, boots, puts, Refusal, not_configured,
  bring_up_failed, done, fails, Log, refuse, tier_of, Config,
}
use pg_fc.Tiering.Images.{RestoreKind, from_dump, from_image, Head, pick_restore}
use pg_fc.Tiering.Archive.{remove_dump, remove_image}

pub data RestoreSource : Type 0 where
  from_s3 from_s3_image from_local from_local_image : RestoreSource

-- The restore that a cold start needs; `not_configured` where the tier of the row is not.
unfoldable pub restore_source :
    Config → Option Binding → RestoreKind → Refusal ⊎ Option RestoreSource
restore_source cfg row picked = elim (tier_of row) [
  | some archived ↦
      if cfg.archive
      then inr (some (elim picked [ from_dump ↦ from_s3 | from_image ↦ from_s3_image ]))
      else inl not_configured
  | some frozen ↦ if cfg.freeze then inr (some from_local) else inl not_configured
  | some compacted ↦ if cfg.compact then inr (some from_local_image) else inl not_configured
  | _ ↦ inr none
]

-- What S3 answers to the two requests of `pick_restore`, which is asked for an archived row only; what
-- `ensure_vm` answers: the VM and the version that its disk holds now; whether the detached write of
-- `put` lands before the next change, and whether the file is removed.
pub record Brought : Type 0 where
  pub dump_head : Head
  pub image_head : Head
  pub ensured : Option (Str × ℕ)
  pub put_landed : Bool
  pub removed : Bool

-- The file of a restore that came from this host.
unfoldable pub thawed_file : Option RestoreSource → Bool → List Effect
thawed_file (some from_local) removed = remove_dump removed
thawed_file (some from_local_image) removed = remove_image removed
thawed_file _ removed = []

unfoldable pub bring_up : Option RestoreSource → Brought → Log
bring_up source a = elim a.ensured [
  | none ↦ (stops_leaked ∷ [], fails bring_up_failed)
  | some (id, w) ↦
      (boots id w ∷ puts id a.put_landed ∷ clears_pending ∷ thawed_file source a.removed, done)
]

unfoldable pub cold_start : Config → Places → Brought → Log
cold_start cfg p a = elim (restore_source cfg p.row (pick_restore a.dump_head a.image_head)) [
  | inl r ↦ refuse r
  | inr source ↦ bring_up source a
]
