-- ===== src/Tests/Tiering/Turns.antt =====
-- The loop of `checkout` (src/registry.rs) at fixed inputs.
use pg_fc.Base.{
  ltb, take, get, ◌+◌, ◌-◌, ◌≡◌, refl, inl, inr, true, false, none, some, [], ◌∷◌, arith,
}
use pg_fc.Store.Format.{Tier, live}
use pg_fc.Offload.Breaker.{hold_for, failures_of, holding, record_failure}
use pg_fc.Tiering.{Places, replay, apply, write_row, bring_up_failed}
use pg_fc.Tiering.Archive.{archive_schema_inner, archive_live, unless_active, archive_vm, dumped}
use pg_fc.Tiering.Kept.Restoring.{Restores, copy_of}
use pg_fc.Tiering.Images.{head_finds, head_fails, pick_restore, choose_restore, found}
use pg_fc.Tiering.Checkout.{restore_source, cold_start, bring_up}
use pg_fc.Tiering.Kept.{IsAt}
use pg_fc.Tiering.Serving.{
  Turn, act, met, met_all, held, failed, Serving, turn, checkout, waits, cold_turn, after_cold,
}
use pg_fc.Tiering.Serving.Waiting.{IsAnswered, checkout-IsAnswered}
use pg_fc.Tiering.Serving.Holding.{checkout_held}
use pg_fc.Tests.Tiering.{
  everything, vm, on_host, on_vm, dumps, whole, dumps-Supports, on_vm-IsAt, thaws,
}

abbrev parked_turn : Turn
parked_turn = record {
  meanwhile = [];
  archiving = true;
  warm = none;
  now = 100;
  brought = thaws;
  admits = true;
}

abbrev free_turn : Turn
free_turn = record parked_turn { archiving = false }

abbrev thawing : Serving
thawing = record { places = on_host; breaker = [] }

nothing_held : holding vm 100 [] ≡ none
unfolding holding get
nothing_held = refl

-- The schema is archived while the client waits, and its dump is what comes back.
abbrev archiving_turn : Turn
archiving_turn = record parked_turn {
  meanwhile = (archive_schema_inner everything on_vm.row on_vm dumps).0;
}

abbrev waiting : Serving
waiting = record { places = on_vm; breaker = [] }

abbrev answered_turn : Turn
answered_turn = record free_turn {
  brought = record thaws { dump_head = head_finds (some whole); image_head = head_fails };
}

abbrev moved : Places
moved = (met answered_turn (met_all (archiving_turn ∷ []) waiting)).places

moved-Restores : Restores everything moved answered_turn.brought
unfolding replay apply write_row archive_schema_inner archive_live unless_active archive_vm dumped
    copy_of restore_source pick_restore choose_restore found
moved-Restores = record {
  dump_answer = inr refl;
  image_answer = inl refl;
  restored = λ s id w r e. ground (arith, r, e);
}

archiving_waits : waits archiving_turn ≡ true
unfolding waits
archiving_waits = refl

moved_as : moved ≡ replay (take 20 (archive_schema_inner everything on_vm.row on_vm dumps).0) on_vm
unfolding replay archive_schema_inner archive_live unless_active archive_vm dumped
moved_as = refl

checkout-IsAnswered_example :
    (x : Tier) × IsAt x 7 moved
    × IsAnswered everything vm x 7 answered_turn moved
        (checkout everything vm (archiving_turn ∷ answered_turn ∷ []) waiting)
checkout-IsAnswered_example =
    checkout-IsAnswered everything vm live 7 dumps 20 (archiving_turn ∷ []) [] answered_turn waiting
      dumps-Supports on_vm-IsAt moved_as (archiving_waits, tt) refl refl nothing_held moved-Restores

-- A bring-up that fails, and the next client half a minute later.
abbrev failing_turn : Turn
failing_turn = record free_turn { brought = record thaws { ensured = none } }

abbrev next_turn : Turn
next_turn = record free_turn { now = 100 + 30000000000 }

abbrev failed_once : Serving
failed_once = (turn everything vm failing_turn thawing).1

failing_fails : (turn everything vm failing_turn thawing).0 ≡ some (failed bring_up_failed)
unfolding turn act cold_turn cold_start restore_source bring_up after_cold holding get replay
failing_fails = refl

still_within : ltb 30000000000 (record_failure vm 100 []).0.1 ≡ true
unfolding record_failure hold_for failures_of get
still_within = ground arith

checkout_held_example : checkout everything vm (next_turn ∷ []) failed_once ≡ (
  held (record_failure vm 100 []).0.0 ((record_failure vm 100 []).0.1 - 30000000000),
  met next_turn failed_once,
)
checkout_held_example =
    checkout_held everything vm failing_turn thawing [] [] next_turn 30000000000 failing_fails tt
      refl refl refl still_within
