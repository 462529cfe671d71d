-- ===== src/Tiering/Kept/Picking.antt =====
-- src/imgarchive.rs: what a restore reads after requests that may fail.
use pg_fc.Base.{ℕ, ◌≡◌, ◌⊎◌, inl, inr, true, Option, none, some, arith}
use pg_fc.Tiering.{Object, Places}
use pg_fc.Tiering.Images.{
  RestoreKind, from_dump, from_image, pick_restore, filter_size, min_dump_bytes, Head, head_fails,
  head_finds, plausible, size_of, min_image_bytes, archive_of, choose_restore, found,
}
use pg_fc.Tiering.Checkout.{Brought}
use pg_fc.Tiering.Kept.{version_of}

-- What S3 answers about a key: the request fails, or it tells what the key holds.
abbrev pub IsAnswer : Head → Option Object → Type 0
IsAnswer a o = (a ≡ head_fails) ⊎ (a ≡ head_finds o)

-- The request for a dump that is there fails, and the one for an image finds one, so that the image is
-- restored.
pub record IsMisled (p : Places) (a : Brought) : Type 0 where
  pub unanswered : a.dump_head ≡ head_fails
  pub passed_over : plausible min_dump_bytes (size_of p.dump) ≡ true
  pub answered : a.image_head ≡ head_finds p.image
  pub older : plausible min_image_bytes (size_of p.image) ≡ true

-- What is read of the two objects once one is picked.
abbrev pub picked_version : RestoreKind → Option Object → Option Object → Option ℕ
picked_version from_dump d i = version_of (filter_size min_dump_bytes d)
picked_version from_image d i = version_of (filter_size min_image_bytes i)

module _ (v w : ℕ) where
  both_answer :
      (d i : Option Object)
      → version_of (archive_of d i) ≡ some v
      → picked_version (pick_restore (head_finds d) (head_finds i)) d i ≡ some w
      → w ≡ v
  unfolding archive_of pick_restore choose_restore found
  both_answer none none c e = cc
  both_answer (some d) none c e = ground (arith, c, e)
  both_answer none (some i) c e = ground (arith, c, e)
  both_answer (some d) (some i) c e = ground (arith, c, e)

  no_image_answer :
      (d i : Option Object) (h : Head)
      → IsAnswer h d
      → version_of (archive_of d i) ≡ some v
      → picked_version (pick_restore h head_fails) d i ≡ some w
      → w ≡ v
  unfolding archive_of pick_restore choose_restore found
  no_image_answer none i h (inl a) c e = ground (arith, rw a at e)
  no_image_answer (some d) none h (inl a) c e = ground (arith, c, rw a at e)
  no_image_answer (some d) (some i) h (inl a) c e = ground (arith, c, rw a at e)
  no_image_answer none i h (inr a) c e = ground (arith, rw a at e)
  no_image_answer (some d) none h (inr a) c e = ground (arith, c, rw a at e)
  no_image_answer (some d) (some i) h (inr a) c e = ground (arith, c, rw a at e)

  no_dump_answer :
      (d i : Option Object)
      → version_of (archive_of d i) ≡ some v
      → picked_version (pick_restore head_fails (head_finds i)) d i ≡ some w
      → (w ≡ v)
        ⊎ ((plausible min_dump_bytes (size_of d) ≡ true)
            × (plausible min_image_bytes (size_of i) ≡ true))
  unfolding archive_of pick_restore choose_restore found
  no_dump_answer none none c e = cc
  no_dump_answer (some d) none c e = ground (arith, c, e)
  no_dump_answer none (some i) c e = ground (arith, c, e)
  no_dump_answer (some d) (some i) c e = ground (arith, c, e)

  pub picked_copy :
      (p : Places) (a : Brought)
      → IsAnswer a.dump_head p.dump
      → IsAnswer a.image_head p.image
      → version_of (archive_of p.dump p.image) ≡ some v
      → picked_version (pick_restore a.dump_head a.image_head) p.dump p.image ≡ some w
      → (w ≡ v) ⊎ IsMisled p a
  picked_copy p a dump (inl i) c e =
      inl (no_image_answer p.dump p.image a.dump_head dump c (rw i at e))
  picked_copy p a (inr d) (inr i) c e = inl (both_answer p.dump p.image c (rw (d, i) at e))
  picked_copy p a (inl d) (inr i) c e = elim (no_dump_answer p.dump p.image c (rw (d, i) at e)) [
    | inl same ↦ inl same
    | inr (there, old) ↦
        inr (record { unanswered = d; passed_over = there; answered = i; older = old })
  ]
