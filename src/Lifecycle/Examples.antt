-- ===== src/Lifecycle/Examples.antt =====
-- Runs of the lifecycle at concrete histories.
use live_data_architecture.Base.{◌≡◌, ◌↔◌, refl, false, true, none, some, List, [], ◌∷◌}
use live_data_architecture.Lifecycle.{
  LifecycleStatus, DependencyHealthStatus, LifecycleState, Report, initial, is_ready, snapshot,
  status_code_from_snapshot, snapshot_ready, snapshot_draining, start_draining, is_draining,
}
use live_data_architecture.Lifecycle.Calls.{Call, perform_all}
use live_data_architecture.Lifecycle.Drain.{
  IsCoherent, SameDrain, history-IsCoherent, drain_sticks, drain_once,
}
use live_data_architecture.Lifecycle.Readiness.{IsUsable, readiness_agrees, drained-503}

abbrev boot_calls : List Call
boot_calls = Call.run ∷ Call.redis Report.healthy ∷ Call.database Report.healthy ∷ []

abbrev late_calls : List Call
late_calls =
    Call.redis Report.healthy ∷ Call.drain "again" none 9 ∷ Call.database Report.unavailable ∷ []

booted : LifecycleState
unfolding initial perform_all
booted = perform_all boot_calls (initial (some 3) 5)

drained : LifecycleState
unfolding booted start_draining
drained = (start_draining "deploy" none 7 booted).0

booted-is_ready : is_ready booted ≡ true
unfolding booted is_ready
booted-is_ready = refl

drained-reason : drained.drain_reason ≡ some "deploy"
unfolding drained
drained-reason = refl

drained-redis_status : drained.redis_status ≡ DependencyHealthStatus.draining
unfolding drained
drained-redis_status = refl

drained-is_draining : is_draining drained.status ≡ true
unfolding drained is_draining
drained-is_draining = refl

history-IsCoherent_example : IsCoherent (perform_all boot_calls (initial (some 3) 5))
history-IsCoherent_example = history-IsCoherent boot_calls (some 3) 5

drain_sticks_example : SameDrain drained (perform_all late_calls drained)
drain_sticks_example = drain_sticks late_calls drained drained-is_draining refl

drain_once_example :
    let t = perform_all late_calls (start_draining "deploy" none 7 booted).0 in
    start_draining "again" (some 8) 9 t ≡ (t, false)
drain_once_example = drain_once late_calls booted "deploy" "again" none (some 8) 7 9 refl

drained-503_example :
    let t = perform_all late_calls (start_draining "deploy" none 7 booted).0 in
    (status_code_from_snapshot (snapshot t) ≡ 503) × (is_ready t ≡ false)
drained-503_example = drained-503 late_calls booted "deploy" none 7 refl

readiness_agrees_example :
    ((is_ready booted ≡ true) ↔ (
      (booted.status ≡ LifecycleStatus.running)
      × IsUsable booted.redis_status
      × IsUsable booted.database_status))
    × (snapshot_ready (snapshot booted) ≡ is_ready booted)
    × ((snapshot_draining (snapshot booted) ≡ true) ↔ (booted.status ≡ LifecycleStatus.draining))
    × ((status_code_from_snapshot (snapshot booted) ≡ 200) ↔ (is_ready booted ≡ true))
    × ((status_code_from_snapshot (snapshot booted) ≡ 503) ↔ (is_ready booted ≡ false))
readiness_agrees_example = readiness_agrees booted
