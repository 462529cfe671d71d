-- ===== src/Tiering/Kept.antt =====
-- The copy of a schema's data that a connect would be served, and the changes that leave it readable.
pub mod Runs
pub mod Uploads
pub mod Imaging
pub mod Promoting
pub mod Archiving
pub mod Offloading
pub mod Restoring
pub mod Picking
use pg_fc.Base.{
  Str, get-insert, get, ℕ, ◌≡◌, refl, sym, ◌∙◌, ◌≢◌, Bool, true, false, Option, none, some, [],
  arith,
}
use pg_fc.Store.Format.{Tier, live, compacted, frozen, archived}
use pg_fc.Tiering.{
  Object, Places, apply, write_row, boots, sets_dump, sets_image, sets_local_dump, sets_local_image,
  sets_tier, puts, kills,
}
use pg_fc.Tiering.Images.{archive_of}

abbrev pub version_of : Option Object → Option ℕ
version_of none = none
version_of (some o) = some o.version

-- The version that a connect finds for a row of this tier and VM.
unfoldable pub version_at : Tier → Str → Places → Option ℕ
version_at live id p = get id p.disks
version_at compacted id p = version_of p.local_image
version_at frozen id p = version_of p.local_dump
version_at archived id p = version_of (archive_of p.dump p.image)

-- The row is in the tier, and the tier's copy holds the version; the file has the same row, unless
-- its last write is still to land.
pub record IsAt (t : Tier) (v : ℕ) (p : Places) : Type 0 where
  pub id : Str
  pub row_at : p.row ≡ some (record { sandbox_id = id; tier = t })
  pub copy : version_at t id p ≡ some v
  pub in_file : p.behind ≡ false → p.file ≡ p.row

abbrev pub IsKept : ℕ → Places → Type 0
IsKept v p = (t : Tier) × IsAt t v p

-- A change that leaves the row, the file and the tier's copy as they are.
IsAt-moved :
    (t : Tier) {v : ℕ} {p q : Places}
    → q.row ≡ p.row
    → q.file ≡ p.file
    → q.behind ≡ p.behind
    → ((id : Str) → version_at t id q ≡ version_at t id p)
    → IsAt t v p
    → IsAt t v q
IsAt-moved t r f b c h = record {
  id = h.id;
  row_at = r ∙ h.row_at;
  copy = c h.id ∙ h.copy;
  in_file = λ e. f ∙ h.in_file (sym b ∙ e) ∙ sym r;
}

pub IsAt-boots :
    (t : Tier) (v : ℕ) (id : Str) (p : Places) → IsAt t v p → IsAt t v (apply (boots id v) p)
unfolding apply version_at
IsAt-boots live v id p h = record {
  id = h.id;
  row_at = h.row_at;
  copy = ground (arith, get-insert id h.id v p.disks, h.copy);
  in_file = h.in_file;
}
IsAt-boots compacted v id p h = IsAt-moved _ refl refl refl (λ id. refl) h
IsAt-boots frozen v id p h = IsAt-moved _ refl refl refl (λ id. refl) h
IsAt-boots archived v id p h = IsAt-moved _ refl refl refl (λ id. refl) h

-- A disk that is not in its row's care.
pub IsAt-kills :
    (t : Tier) (v : ℕ) (id : Str) (d : Bool) (p : Places)
    → t ≢ live
    → IsAt t v p
    → IsAt t v (apply (kills id d) p)
unfolding apply version_at
IsAt-kills live v id d p n h = absurd (n refl)
IsAt-kills compacted v id true p n h = IsAt-moved _ refl refl refl (λ id. refl) h
IsAt-kills frozen v id true p n h = IsAt-moved _ refl refl refl (λ id. refl) h
IsAt-kills archived v id true p n h = IsAt-moved _ refl refl refl (λ id. refl) h
IsAt-kills t v id false p n h = h

pub IsAt-sets_dump :
    (t : Tier) (v : ℕ) (o : Option Object) (p : Places)
    → t ≢ archived
    → IsAt t v p
    → IsAt t v (apply (sets_dump o) p)
unfolding apply version_at
IsAt-sets_dump archived v o p n h = absurd (n refl)
IsAt-sets_dump live v o p n h = IsAt-moved _ refl refl refl (λ id. refl) h
IsAt-sets_dump compacted v o p n h = IsAt-moved _ refl refl refl (λ id. refl) h
IsAt-sets_dump frozen v o p n h = IsAt-moved _ refl refl refl (λ id. refl) h

pub IsAt-sets_image :
    (t : Tier) (v : ℕ) (o : Option Object) (p : Places)
    → t ≢ archived
    → IsAt t v p
    → IsAt t v (apply (sets_image o) p)
unfolding apply version_at
IsAt-sets_image archived v o p n h = absurd (n refl)
IsAt-sets_image live v o p n h = IsAt-moved _ refl refl refl (λ id. refl) h
IsAt-sets_image compacted v o p n h = IsAt-moved _ refl refl refl (λ id. refl) h
IsAt-sets_image frozen v o p n h = IsAt-moved _ refl refl refl (λ id. refl) h

pub IsAt-sets_local_dump :
    (t : Tier) (v : ℕ) (o : Option Object) (p : Places)
    → t ≢ frozen
    → IsAt t v p
    → IsAt t v (apply (sets_local_dump o) p)
unfolding apply version_at
IsAt-sets_local_dump frozen v o p n h = absurd (n refl)
IsAt-sets_local_dump live v o p n h = IsAt-moved _ refl refl refl (λ id. refl) h
IsAt-sets_local_dump compacted v o p n h = IsAt-moved _ refl refl refl (λ id. refl) h
IsAt-sets_local_dump archived v o p n h = IsAt-moved _ refl refl refl (λ id. refl) h

pub IsAt-sets_local_image :
    (t : Tier) (v : ℕ) (o : Option Object) (p : Places)
    → t ≢ compacted
    → IsAt t v p
    → IsAt t v (apply (sets_local_image o) p)
unfolding apply version_at
IsAt-sets_local_image compacted v o p n h = absurd (n refl)
IsAt-sets_local_image live v o p n h = IsAt-moved _ refl refl refl (λ id. refl) h
IsAt-sets_local_image frozen v o p n h = IsAt-moved _ refl refl refl (λ id. refl) h
IsAt-sets_local_image archived v o p n h = IsAt-moved _ refl refl refl (λ id. refl) h

-- A tier may be set once its copy is there.
pub IsAt-sets_tier :
    (t u : Tier) (v : ℕ) (l : Bool) (p : Places)
    → version_at u [] p ≡ some v
    → u ≢ live
    → IsAt t v p
    → IsAt u v (apply (sets_tier u l) p)
unfolding apply write_row version_at
IsAt-sets_tier t live v l p c n h = absurd (n refl)
IsAt-sets_tier t compacted v l p c n h = record {
  id = h.id;
  row_at = rw (h.row_at) refl;
  copy = c;
  in_file = ground arith;
}
IsAt-sets_tier t frozen v l p c n h = record {
  id = h.id;
  row_at = rw (h.row_at) refl;
  copy = c;
  in_file = ground arith;
}
IsAt-sets_tier t archived v l p c n h = record {
  id = h.id;
  row_at = rw (h.row_at) refl;
  copy = c;
  in_file = ground arith;
}

pub IsAt-puts :
    (v : ℕ) (id : Str) (l : Bool) (p : Places)
    → get id p.disks ≡ some v
    → IsAt live v (apply (puts id l) p)
unfolding apply write_row version_at
IsAt-puts v id l p c = record { id = id; row_at = refl; copy = c; in_file = ground arith }
