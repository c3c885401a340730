-- ===== src/Lifecycle.antt =====
-- backend/app/platform/lifecycle/state.py: the process-local lifecycle state. Every method runs
-- under the object's lock, so it is one function from state to state.
pub mod Calls
pub mod Drain
pub mod Readiness
mod Examples
use live_data_architecture.Base.{
  ℕ, String, Bool, true, false, ◌&&◌, Option, none, some, if◌then◌else◌,
}

pub data LifecycleStatus : Type 0 where
  starting running draining stopping : LifecycleStatus

pub data DependencyHealthStatus : Type 0 where
  disabled starting ok draining unavailable : DependencyHealthStatus

-- A `datetime` is its count of microseconds.
pub record LifecycleSnapshot : Type 0 where
  pub status : LifecycleStatus
  pub redis_status : DependencyHealthStatus
  pub database_status : DependencyHealthStatus
  pub started_at : ℕ
  pub drain_started_at : Option ℕ
  pub drain_reason : Option String

pub record LifecycleState : Type 0 where
  pub started_at : ℕ
  pub status : LifecycleStatus
  pub redis_status : DependencyHealthStatus
  pub database_status : DependencyHealthStatus
  pub drain_started_at : Option ℕ
  pub drain_reason : Option String

unfoldable pub is_running : LifecycleStatus → Bool
is_running LifecycleStatus.running = true
is_running _ = false

unfoldable pub is_draining : LifecycleStatus → Bool
is_draining LifecycleStatus.draining = true
is_draining _ = false

unfoldable pub dependency_is_ready : DependencyHealthStatus → Bool
dependency_is_ready DependencyHealthStatus.disabled = true
dependency_is_ready DependencyHealthStatus.ok = true
dependency_is_ready _ = false

unfoldable pub drain_dependency : DependencyHealthStatus → DependencyHealthStatus
drain_dependency DependencyHealthStatus.ok = DependencyHealthStatus.draining
drain_dependency d = d

-- `LifecycleState(started_at=...)`; `now` is the clock that a missing argument reads.
unfoldable pub initial : Option ℕ → ℕ → LifecycleState
initial started_at now = record {
  started_at = elim started_at [ none ↦ now | some t ↦ t ];
  status = LifecycleStatus.starting;
  redis_status = DependencyHealthStatus.disabled;
  database_status = DependencyHealthStatus.disabled;
  drain_started_at = none;
  drain_reason = none;
}

unfoldable pub running_from : LifecycleStatus → LifecycleStatus
running_from LifecycleStatus.starting = LifecycleStatus.running
running_from LifecycleStatus.stopping = LifecycleStatus.running
running_from st = st

unfoldable pub mark_running : LifecycleState → LifecycleState
unfolding running_from
mark_running s = record s { status = running_from s.status }

unfoldable pub mark_stopping : LifecycleState → LifecycleState
unfolding drain_dependency
mark_stopping s = record s {
  status = LifecycleStatus.stopping;
  redis_status = drain_dependency s.redis_status;
  database_status = drain_dependency s.database_status;
}

-- `_healthy_dependency_status`
unfoldable pub healthy_dependency_status : LifecycleStatus → DependencyHealthStatus
healthy_dependency_status LifecycleStatus.draining = DependencyHealthStatus.draining
healthy_dependency_status LifecycleStatus.stopping = DependencyHealthStatus.draining
healthy_dependency_status _ = DependencyHealthStatus.ok

-- The five methods `mark_redis_*` and the five methods `mark_database_*` name one of these.
pub data Report : Type 0 where
  starting healthy unavailable draining disabled : Report

unfoldable pub reported : Report → LifecycleStatus → DependencyHealthStatus → DependencyHealthStatus
unfolding healthy_dependency_status drain_dependency
reported Report.starting st d = DependencyHealthStatus.starting
reported Report.healthy st d = healthy_dependency_status st
reported Report.unavailable st d = DependencyHealthStatus.unavailable
reported Report.draining st d = drain_dependency d
reported Report.disabled st d = DependencyHealthStatus.disabled

unfoldable pub mark_redis : Report → LifecycleState → LifecycleState
unfolding reported
mark_redis r s = record s { redis_status = reported r s.status s.redis_status }

unfoldable pub mark_database : Report → LifecycleState → LifecycleState
unfolding reported
mark_database r s = record s { database_status = reported r s.status s.database_status }

unfoldable pub begin_drain : String → ℕ → LifecycleState → LifecycleState
unfolding drain_dependency
begin_drain reason now s = record s {
  status = LifecycleStatus.draining;
  redis_status = drain_dependency s.redis_status;
  database_status = drain_dependency s.database_status;
  drain_started_at = some now;
  drain_reason = some reason;
}

unfoldable pub may_drain : LifecycleStatus → Bool
may_drain LifecycleStatus.draining = false
may_drain LifecycleStatus.stopping = false
may_drain _ = true

-- Whether this call was the one that began the drain comes back beside the new state.
unfoldable pub start_draining : String → Option ℕ → ℕ → LifecycleState → LifecycleState × Bool
unfolding may_drain begin_drain
start_draining reason now clock s =
    if may_drain s.status
    then (begin_drain reason (elim now [ none ↦ clock | some t ↦ t ]) s, true)
    else (s, false)

unfoldable pub is_ready : LifecycleState → Bool
unfolding is_running dependency_is_ready
is_ready s =
    is_running s.status
    && dependency_is_ready s.redis_status
    && dependency_is_ready s.database_status

unfoldable pub snapshot : LifecycleState → LifecycleSnapshot
snapshot s = record {
  status = s.status;
  redis_status = s.redis_status;
  database_status = s.database_status;
  started_at = s.started_at;
  drain_started_at = s.drain_started_at;
  drain_reason = s.drain_reason;
}

-- The properties `draining` and `ready` of a snapshot.
unfoldable pub snapshot_draining : LifecycleSnapshot → Bool
unfolding is_draining
snapshot_draining p = is_draining p.status

unfoldable pub snapshot_ready : LifecycleSnapshot → Bool
unfolding is_running dependency_is_ready
snapshot_ready p =
    is_running p.status
    && dependency_is_ready p.redis_status
    && dependency_is_ready p.database_status

-- `_status_code_from_snapshot` of backend/app/platform/health_router.py
unfoldable pub status_code_from_snapshot : LifecycleSnapshot → ℕ
unfolding snapshot_ready
status_code_from_snapshot p = if snapshot_ready p then 200 else 503
