-- ===== src/Lifecycle/Readiness.antt =====
-- Readiness, as `is_ready` and `_status_code_from_snapshot` of backend/app/platform/health_router.py
-- see it. The endpoints `/health/ready` and `/health/heartbeat` answer with that code; `/health/live`
-- does not look at it.
use live_data_architecture.Base.{
  ℕ, String, ◌≡◌, ◌↔◌, ◌⊎◌, true, false, Option, List, arith, all, not,
}
use live_data_architecture.Lifecycle.{
  LifecycleStatus, DependencyHealthStatus, LifecycleState, is_ready, snapshot, snapshot_ready,
  snapshot_draining, status_code_from_snapshot, start_draining,
}
use live_data_architecture.Lifecycle.Calls.{Call, perform_all, is_run}
use live_data_architecture.Lifecycle.Drain.{is_leaving, perform_all-leaving, start_draining-leaving}

-- A dependency does not stand in the way of traffic.
abbrev pub IsUsable : DependencyHealthStatus → Type 0
IsUsable d = (d ≡ DependencyHealthStatus.disabled) ⊎ (d ≡ DependencyHealthStatus.ok)

-- `is_ready` holds exactly of a running service whose two dependencies are each disabled or ok;
-- a snapshot taken then says the same, and says `draining` exactly in that status; its status code
-- is 200 if it is ready and 503 if not.
pub readiness_agrees :
    (s : LifecycleState)
    → ((is_ready s ≡ true) ↔ (
        (s.status ≡ LifecycleStatus.running)
        × IsUsable s.redis_status
        × IsUsable s.database_status))
      × (snapshot_ready (snapshot s) ≡ is_ready s)
      × ((snapshot_draining (snapshot s) ≡ true) ↔ (s.status ≡ LifecycleStatus.draining))
      × ((status_code_from_snapshot (snapshot s) ≡ 200) ↔ (is_ready s ≡ true))
      × ((status_code_from_snapshot (snapshot s) ≡ 503) ↔ (is_ready s ≡ false))
unfolding is_ready snapshot snapshot_draining status_code_from_snapshot
readiness_agrees s = ground arith

leaving-503 :
    (s : LifecycleState)
    → is_leaving s.status ≡ true
    → (status_code_from_snapshot (snapshot s) ≡ 503) × (is_ready s ≡ false)
unfolding is_ready snapshot status_code_from_snapshot
leaving-503 s h = ground arith

-- Once `start_draining` has been called, in any state, the status code of a snapshot is 503 and
-- `is_ready` is False through any calls until `mark_running`.
pub drained-503 :
    (cs : List Call) (s : LifecycleState) (reason : String) (now : Option ℕ) (clock : ℕ)
    → all (λ c. not (is_run c)) cs ≡ true
    → let t = perform_all cs (start_draining reason now clock s).0 in
      (status_code_from_snapshot (snapshot t) ≡ 503) × (is_ready t ≡ false)
drained-503 cs s reason now clock n =
    leaving-503 _ (perform_all-leaving cs _ n (start_draining-leaving reason now clock s))
