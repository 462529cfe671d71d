-- ===== src/Tiering/Steps.antt =====
-- The offloads, the restores, the clients' commits and the crashes of one schema, in any order.
use pg_fc.Base.{take, Str, get-insert_self, insert, ℕ, ◌≡◌, refl, ◌∙◌, Bool, false, Option, some}
use pg_fc.Store.Format.{Tier, live, compacted, frozen, archived}
use pg_fc.Tiering.{Binding, Places, replay, Config}
use pg_fc.Tiering.Archive.{Answers, archive_schema_inner, archive_schema_as_image_inner}
use pg_fc.Tiering.Local.{LocalAnswers, freeze_schema_inner, compact_schema_inner}
use pg_fc.Tiering.Checkout.{Brought, cold_start}
use pg_fc.Tiering.Kept.{IsAt, IsKept, version_at}
use pg_fc.Tiering.Kept.Runs.{Runs-IsKept}
use pg_fc.Tiering.Kept.Imaging.{Supports}
use pg_fc.Tiering.Kept.Archiving.{archive_schema_inner-runs, archive_schema_as_image_inner-runs}
use pg_fc.Tiering.Kept.Offloading.{
  SupportsLocal, freeze_schema_inner-runs, compact_schema_inner-runs,
}
use pg_fc.Tiering.Kept.Picking.{IsMisled}
use pg_fc.Tiering.Kept.Restoring.{Restores, cold_start-runs}

-- One operation under the schema's claim, carried out up to any of its changes, whose tier is still the one
-- that it read; a restore is not misled; a commit of a client, which has the VM of a live row; a write
-- that lands; a crash with every write landed.
pub data Step (cfg : Config) (v : ℕ) (p : Places) : ℕ → Places → Type 0 where
  archives :
      (a : Answers) (n : ℕ)
      → Supports p v a
      → Step cfg v p v (replay (take n (archive_schema_inner cfg p.row p a).0) p)
  images :
      (viewed : Option Str) (a : Answers) (n : ℕ)
      → Supports p v a
      → Step cfg v p v (replay (take n (archive_schema_as_image_inner cfg p.row viewed p a).0) p)
  freezes :
      (a : LocalAnswers) (n : ℕ)
      → SupportsLocal v a
      → Step cfg v p v (replay (take n (freeze_schema_inner cfg p.row a).0) p)
  compacts :
      (a : LocalAnswers) (n : ℕ)
      → SupportsLocal v a
      → Step cfg v p v (replay (take n (compact_schema_inner cfg p.row p a).0) p)
  starts :
      (a : Brought) (n : ℕ)
      → Restores cfg p a
      → ¬ IsMisled p a
      → Step cfg v p v (replay (take n (cold_start cfg p a).0) p)
  commits :
      (id : Str) (w : ℕ)
      → p.row ≡ some (record { sandbox_id = id; tier = live })
      → Step cfg v p w (record p { disks = insert id w p.disks })
  lands : Step cfg v p v (record p { file = p.row; behind = false })
  crashes : p.behind ≡ false → Step cfg v p v (record p { row = p.file })

pub data Run (cfg : Config) (v : ℕ) (p : Places) : ℕ → Places → Type 0 where
  at_first : Run cfg v p v p
  and_then : {w u : ℕ} {q r : Places} → Step cfg w q u r → Run cfg v p w q → Run cfg v p u r

commit-IsAt :
    (t : Tier) (v w : ℕ) (id : Str) (p : Places)
    → p.row ≡ some (record { sandbox_id = id; tier = live })
    → IsAt t v p
    → IsAt live w (record p { disks = insert id w p.disks })
unfolding version_at
commit-IsAt t v w id p e h = record {
  id = id;
  row_at = e;
  copy = get-insert_self id w p.disks;
  in_file = h.in_file;
}

-- Neither row is read for a copy.
same_copy :
    (t : Tier) (id : Str) (r f : Option Binding) (b : Bool) (p : Places)
    → version_at t id (record p { row = r; file = f; behind = b }) ≡ version_at t id p
unfolding version_at
same_copy live id r f b p = refl
same_copy compacted id r f b p = refl
same_copy frozen id r f b p = refl
same_copy archived id r f b p = refl

landed-IsAt :
    (t : Tier) (v : ℕ) (p : Places)
    → IsAt t v p
    → IsAt t v (record p { file = p.row; behind = false })
landed-IsAt t v p h = record {
  id = h.id;
  row_at = h.row_at;
  copy = same_copy t h.id p.row p.row false p ∙ h.copy;
  in_file = λ _. refl;
}

crashed-IsAt :
    (t : Tier) (v : ℕ) (p : Places)
    → p.behind ≡ false
    → IsAt t v p
    → IsAt t v (record p { row = p.file })
crashed-IsAt t v p b h = record {
  id = h.id;
  row_at = h.in_file b ∙ h.row_at;
  copy = same_copy t h.id p.file p.file p.behind p ∙ h.copy;
  in_file = λ _. refl;
}

Step-IsKept : (cfg : Config) (v w : ℕ) (p q : Places) → Step cfg v p w q → IsKept v p → IsKept w q
Step-IsKept cfg v _ p _ (archives a n good) (t, h) =
    Runs-IsKept t archived v _ _ p (archive_schema_inner-runs cfg t v a p good h) n
Step-IsKept cfg v _ p _ (images viewed a n good) (t, h) =
    Runs-IsKept t archived v _ _ p (archive_schema_as_image_inner-runs cfg t v viewed a p good h) n
Step-IsKept cfg v _ p _ (freezes a n good) (t, h) =
    Runs-IsKept t _ v _ _ p (freeze_schema_inner-runs cfg t v a p good h) n
Step-IsKept cfg v _ p _ (compacts a n good) (t, h) =
    Runs-IsKept t _ v _ _ p (compact_schema_inner-runs cfg t v a p good h) n
Step-IsKept cfg v _ p _ (starts a n good trusted) (t, h) =
    Runs-IsKept t live v _ _ p (cold_start-runs cfg t v a p good trusted h) n
Step-IsKept cfg v _ p _ (commits id w e) (t, h) = (live, commit-IsAt t v w id p e h)
Step-IsKept cfg v _ p _ lands (t, h) = (t, landed-IsAt t v p h)
Step-IsKept cfg v _ p _ (crashes b) (t, h) = (t, crashed-IsAt t v p b h)

-- However offloads, restores, commits and crashes follow each other, one at a time, and wherever an
-- offload or a restore stops: a connect finds the version that was committed last. It holds for offloads
-- that find the tier which they read in front of their claim, with answers that are supported; for
-- crashes that come when the file of the registry has the row; and for restores of which no request for
-- a dump that is there fails while an image is found.
pub Run-IsKept :
    (cfg : Config) (v : ℕ) (p : Places) (w : ℕ) (q : Places)
    → Run cfg v p w q
    → IsKept v p
    → IsKept w q
Run-IsKept cfg v p _ _ at_first h = h
Run-IsKept cfg v p u r (and_then {w} {q} s run) h =
    Step-IsKept cfg w u q r s (Run-IsKept cfg v p w q run h)
