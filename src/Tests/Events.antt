-- ===== src/Tests/Events.antt =====
-- src/events.rs at fixed inputs.
use pg_fc.Base.{ℕ, ◌≡◌, refl, List, [], ◌∷◌, arith}
use pg_fc.Events.{Event, restore_s3, vm_created, push_mem, drop_old, make_room}
use pg_fc.Events.Rings.{IsOrdered}

abbrev log : List (ℕ × Event)
log = (5, restore_s3) ∷ (90000, vm_created) ∷ []

-- The first event is more than 25 hours old.
push_later : push_mem log (100000, restore_s3) ≡ (90000, vm_created) ∷ (100000, restore_s3) ∷ []
unfolding push_mem drop_old make_room
push_later = refl

log-IsOrdered : IsOrdered log
log-IsOrdered = ((omega arith, tt), (tt, tt))
