-- ===== src/Store/Steps/Bindings.antt =====
-- src/store.rs: what holds of the rows and of the cached set of bound ids.
use pg_fc.Base.{
  Option-cases, Str, str, IsDistinct, insert-IsDistinct, get, insert, ℕ, ◌≤◌, ◌≡◌, refl, sym, ◌∙◌,
  ◌≢◌, inl, inr, Bool, true, false, some, List, [], arith,
}
use pg_fc.Text.{IsClean, IsClean-append, u64_max}
use pg_fc.Store.Format.{Tier, live, StoreRecord}
use pg_fc.Store.Format.RoundTrip.{IsRow, AllRows}
use pg_fc.Store.Atomic.{Fault}
use pg_fc.Store.Cases.{put_cases, touch_cases, mark_tier_inv}
use pg_fc.Store.Rows.{row_ids-insert_same, AllRows-insert, AllRows-get}
use pg_fc.Store.{
  Store, Snapshot, stamp, landed, bumped, marked, bind_row, row_ids, put_new, mark_tier, adopt_row,
  adopted_row, write_latest, bound_ids, take_dirty, snapshot_now,
}
use pg_fc.Store.Steps.{
  World, put_step, mark_step, flush_if, flush_step, flushing_step, Step, puts, touches, marks,
  adopts, reads, flushes, snapshots, writes,
}

-- Keys are distinct, every row is one that the file can hold, and the cached ids are the bound
-- ones.
pub record RowsInv (s : Store) : Type 0 where
  pub distinct : IsDistinct s.rows
  pub rows_fit : AllRows s.rows
  pub cached : (ids : List Str) → s.bound_cache ≡ some ids → ids ≡ row_ids s.rows

bind_row-RowsInv :
    (k : Str) (r : StoreRecord) (s : Store) → IsRow k r → RowsInv s → RowsInv (bind_row k r s)
unfolding bind_row
bind_row-RowsInv k r s e v = record {
  distinct = insert-IsDistinct k r s.rows v.distinct;
  rows_fit = AllRows-insert k r s.rows e v.rows_fit;
  cached = λ ids. cc;
}

-- A row that keeps its id.
same_id-RowsInv :
    (k : Str) (r r' : StoreRecord) (d : Bool) (s : Store)
    → get k s.rows ≡ some r
    → r'.sandbox_id ≡ r.sandbox_id
    → r'.last_active ≤ u64_max
    → RowsInv s
    → RowsInv (record s { rows = insert k r' s.rows; dirty = d })
same_id-RowsInv k r r' d s e p c v = record {
  distinct = insert-IsDistinct k r' s.rows v.distinct;
  rows_fit = AllRows-insert k r' s.rows fits v.rows_fit;
  cached = λ ids h. v.cached ids h ∙ sym (row_ids-insert_same k r r' s.rows e p);
}
  where
    old : IsRow k r
    old = AllRows-get k r s.rows v.rows_fit e

    fits : IsRow k r'
    fits = record {
      named = old.named;
      clean = old.clean;
      bound = rw p old.bound;
      clean_id = rw p old.clean_id;
      clock_fits = c;
    }

adopted_row-IsRow :
    (k : Str) (now : ℕ) (s : Store)
    → IsClean k
    → k ≢ []
    → now ≤ u64_max
    → RowsInv s
    → IsRow k (adopted_row (get k s.rows) k now)
adopted_row-IsRow k now s c n b v = elim (Option-cases (get k s.rows)) [
  | inl e ↦ rw e (
      unfold adopted_row in
      record {
        named = n;
        clean = c;
        bound = λ h. cc;
        clean_id = IsClean-append (str "pending-restore-") k (omega arith) c;
        clock_fits = b;
      })
  | inr (r, e) ↦
      let h = AllRows-get k r s.rows v.rows_fit e in
      rw e (
        unfold adopted_row in
        record {
          named = n;
          clean = c;
          bound = h.bound;
          clean_id = h.clean_id;
          clock_fits = h.clock_fits;
        })
]

bound_ids-RowsInv : (s : Store) → RowsInv s → RowsInv (bound_ids s).1
unfolding bound_ids
bound_ids-RowsInv s v = elim (Option-cases s.bound_cache) [
  | inl e ↦
      simp (e, bound_ids)
        (record { distinct = v.distinct; rows_fit = v.rows_fit; cached = λ ids h. ground arith })
  | inr (ids, e) ↦ simp (e, bound_ids) v
]

-- `bound_ids` returns the ids of the rows, cached or not.
pub bound_ids-eq-row_ids : (s : Store) → RowsInv s → (bound_ids s).0 ≡ row_ids s.rows
unfolding bound_ids
bound_ids-eq-row_ids s v = elim (Option-cases s.bound_cache) [
  | inl e ↦ simp (e, bound_ids)
  | inr (ids, e) ↦ simp (e, bound_ids) (v.cached ids e)
]

-- The rows of another store with the same rows and cache.
same_rows-RowsInv :
    (s t : Store) → t.rows ≡ s.rows → t.bound_cache ≡ s.bound_cache → RowsInv s → RowsInv t
same_rows-RowsInv s t e f v = record {
  distinct = rw e v.distinct;
  rows_fit = rw e v.rows_fit;
  cached = λ ids h. rw e (v.cached ids (rw f at h));
}

write_latest-RowsInv :
    (f : Fault) (snap : Snapshot) (s : Store) → RowsInv s → RowsInv (write_latest f snap s)
unfolding write_latest landed
write_latest-RowsInv f snap s v =
    same_rows-RowsInv s (write_latest f snap s) (ground arith) (ground arith) v

flush_if-RowsInv :
    (b : Bool) (w : World)
    → RowsInv w.store
    → RowsInv (flush_if b (record w.store { dirty = false }) w).store
unfolding flush_if
flush_if-RowsInv true w v = same_rows-RowsInv w.store _ refl refl v
flush_if-RowsInv false w v = v

pub mark_tier-RowsInv :
    (schema : Str) (t : Tier) (m : Snapshot × Store) (s : Store)
    → mark_tier schema t s ≡ some m
    → RowsInv s
    → RowsInv m.1
unfolding marked stamp
mark_tier-RowsInv schema t m s e v =
    let (r, g, p) = mark_tier_inv schema t s m e in
    let c = (AllRows-get schema r s.rows v.rows_fit g).clock_fits in
    rw p (
      same_rows-RowsInv
        (record s { rows = insert schema (record r { tier = t }) s.rows; dirty = s.dirty }) _ refl
        refl (same_id-RowsInv schema r (record r { tier = t }) s.dirty s g refl c v))

pub Step-RowsInv : {w u : World} → Step w u → RowsInv w.store → RowsInv u.store
unfolding put_step put_new stamp bumped mark_step flush_step take_dirty flushing_step snapshot_now
    adopt_row
Step-RowsInv {w} (puts schema id now h) v =
    put_cases (λ p. RowsInv p.1) schema id now w.store
      (same_rows-RowsInv
        (bind_row schema (record { sandbox_id = id; last_active = now; tier = live }) w.store) _
        refl refl (bind_row-RowsInv schema _ w.store h v))
      λ r g e.
        same_id-RowsInv schema r (record r { last_active = now }) true w.store g refl h.clock_fits v
Step-RowsInv {w} (touches schema now h) v =
    touch_cases RowsInv schema now w.store v
      λ r g. same_id-RowsInv schema r (record r { last_active = now }) true w.store g refl h v
Step-RowsInv {w} (marks schema t m e) v = mark_tier-RowsInv schema t m w.store e v
Step-RowsInv {w} (adopts schema now c n b) v =
    (same_rows-RowsInv (bind_row schema (adopted_row (get schema w.store.rows) schema now) w.store)
      _ refl refl
      (bind_row-RowsInv schema _ w.store (adopted_row-IsRow schema now w.store c n b v) v))
Step-RowsInv {w} reads v = bound_ids-RowsInv w.store v
Step-RowsInv {w} flushes v = flush_if-RowsInv w.store.dirty w v
Step-RowsInv {w} (snapshots k _) v = same_rows-RowsInv w.store _ refl refl v
Step-RowsInv {w} (writes before after snap f e) v = write_latest-RowsInv f snap w.store v
