-- ===== src/Tests/Sweeping.antt =====
-- The sweeps of src/registry.rs at fixed inputs.
use pg_fc.Base.{All, Any, Str, str, str_eq, Map, ◌≡◌, refl, ◌⊎◌, Bool, false, none, [], ◌∷◌}
use pg_fc.Store.Format.{StoreRecord, live, frozen, offloaded, is_live}
use pg_fc.Offload.Sweep.{classify_candidate, in_use}
use pg_fc.Offload.Sweeping.{
  SweepView, sweep_archive, plan_sweep, add_row, add_live, is_due, promote_all, archive_all, IsWork,
  FailsAtMost,
}
use pg_fc.Offload.Sweeping.Tried.{IsWaiting, IsStopped, sweep_archive_lem}

abbrev old_row : StoreRecord
old_row = record { sandbox_id = str "sb-1"; last_active = 100; tier = live }

abbrev rows : Map StoreRecord
rows =
    (str "a", old_row)
    ∷ (str "b", old_row)
    ∷ (str "c", record old_row { last_active = 9000 })
    ∷ (str "d", record old_row { tier = frozen })
    ∷ (str "e", old_row)
    ∷ (str "f", old_row)
    ∷ []

abbrev view : SweepView
view = record {
  now = 10000;
  threshold = 3600;
  keepalive = λ s. false;
  warm = λ s. none;
  backing_off = λ s. str_eq s (str "a");
}

-- Only the promotion succeeds.
abbrev only_d : Str → Bool
only_d s = str_eq s (str "d")

sweep_fails : sweep_archive only_d view rows ≡ (str "b" ∷ str "e" ∷ str "f" ∷ [], 1)
unfolding sweep_archive plan_sweep add_row add_live is_due promote_all archive_all
    classify_candidate in_use offloaded is_live str_eq
sweep_fails = refl

sweep_archive_example :
    let (tried, _) = sweep_archive only_d view rows in
    All (IsWork view rows) tried
    × FailsAtMost only_d 0 tried
    × All (λ e. IsWaiting view e → Any (λ s. s ≡ e.0) tried ⊎ IsStopped only_d 0 tried) rows
sweep_archive_example = sweep_archive_lem only_d view rows
