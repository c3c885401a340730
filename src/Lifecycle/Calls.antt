-- ===== src/Lifecycle/Calls.antt =====
-- Any number of threads call the methods of one lifecycle object. The lock makes each call one
-- step, so what the threads do together is a sequence of calls.
use live_data_architecture.Base.{ℕ, String, ◌≡◌, refl, Bool, true, false, Option, List, [], ◌∷◌}
use live_data_architecture.Lifecycle.{
  LifecycleStatus, LifecycleState, Report, mark_running, mark_stopping, mark_redis, mark_database,
  start_draining,
}

pub data Call : Type 0 where
  run stop : Call
  redis database : Report → Call
  drain : String → Option ℕ → ℕ → Call

unfoldable pub perform : Call → LifecycleState → LifecycleState
unfolding mark_running mark_stopping mark_redis mark_database start_draining
perform Call.run s = mark_running s
perform Call.stop s = mark_stopping s
perform (Call.redis r) s = mark_redis r s
perform (Call.database r) s = mark_database r s
perform (Call.drain reason now clock) s = (start_draining reason now clock s).0

unfoldable pub perform_all : List Call → LifecycleState → LifecycleState
unfolding perform
perform_all [] s = s
perform_all (c ∷ cs) s = perform_all cs (perform c s)

abbrev pub is_stop : Call → Bool
is_stop Call.stop = true
is_stop _ = false

abbrev pub is_run : Call → Bool
is_run Call.run = true
is_run _ = false

-- The moves that the status makes.
pub data Moves : LifecycleStatus → LifecycleStatus → Type 0 where
  stay : {a : LifecycleStatus} → Moves a a
  boot : Moves LifecycleStatus.starting LifecycleStatus.running
  resume : Moves LifecycleStatus.stopping LifecycleStatus.running
  halt : {a : LifecycleStatus} → Moves a LifecycleStatus.stopping
  early_drain : Moves LifecycleStatus.starting LifecycleStatus.draining
  late_drain : Moves LifecycleStatus.running LifecycleStatus.draining

module _ (reason : String) (now : Option ℕ) (clock : ℕ) where
  drain-Moves :
      (s : LifecycleState) (st : LifecycleStatus)
      → s.status ≡ st
      → Moves st (start_draining reason now clock s).0.status
  unfolding start_draining
  drain-Moves s LifecycleStatus.starting e = rw e early_drain
  drain-Moves s LifecycleStatus.running e = rw e late_drain
  drain-Moves s LifecycleStatus.draining e = rw e stay
  drain-Moves s LifecycleStatus.stopping e = rw e stay

run-Moves :
    (st : LifecycleStatus) (s : LifecycleState) → s.status ≡ st → Moves st (mark_running s).status
unfolding mark_running
run-Moves LifecycleStatus.starting s e = rw e boot
run-Moves LifecycleStatus.running s e = rw e stay
run-Moves LifecycleStatus.draining s e = rw e stay
run-Moves LifecycleStatus.stopping s e = rw e resume

-- Every call moves the status along one of the listed moves.
pub perform-Moves : (c : Call) (s : LifecycleState) → Moves s.status (perform c s).status
unfolding perform
perform-Moves Call.run s = run-Moves s.status s refl
perform-Moves Call.stop s = halt
perform-Moves (Call.redis r) s = stay
perform-Moves (Call.database r) s = stay
perform-Moves (Call.drain reason now clock) s = drain-Moves reason now clock s s.status refl
