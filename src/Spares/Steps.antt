-- ===== src/Spares/Steps.antt =====
-- src/spares.rs: claims, releases and replenish passes of concurrent tasks, in any order.
pub mod Exclusive
use pg_fc.Base.{Str, ℕ, ◌≡◌, none, some, List, [], ◌∷◌, ◌++◌}
use pg_fc.Spares.{SparePool, new_pool, pop_claim, unclaim, release_start, release_killed, publish}

-- `held` are the spares in somebody's hands: in the middle of a `take`, or handed to a bring-up that
-- has not released them.
pub record World : Type 0 where
  pub pool : SparePool
  pub held : List Str

pub data Step (w : World) : World → Type 0 where
  claims :
      (bound : List Str) (id : Str) (p : SparePool)
      → pop_claim bound w.pool ≡ (some id, p)
      → Step w (record { pool = p; held = id ∷ w.held })
  finds_none :
      (bound : List Str) (p : SparePool)
      → pop_claim bound w.pool ≡ (none, p)
      → Step w (record w { pool = p })
  puts_back :
      (before after : List Str) (id : Str)
      → w.held ≡ before ++ id ∷ after
      → Step w (record { pool = unclaim id w.pool; held = before ++ after })
  starts_release : (id : Str) → Step w (record w { pool = release_start id w.pool })
  kills :
      (before after : List Str) (id : Str)
      → w.held ≡ before ++ id ∷ after
      → Step w (record { pool = release_killed id w.pool; held = before ++ after })
  publishes : (ids bound : List Str) → Step w (record w { pool = publish ids bound w.pool })

pub data Run (target : ℕ) : World → Type 0 where
  begins : Run target (record { pool = new_pool target; held = [] })
  continues : {w u : World} → Step w u → Run target w → Run target u
