-- ===== src/Lifecycle/Drain.antt =====
-- What a drain promises: it is recorded once, and what is recorded is not overwritten.
use live_data_architecture.Base.{
  ℕ, String, ◌≡◌, refl, Bool, true, false, Option, List, [], ◌∷◌, arith, all, not, has_value,
}
use live_data_architecture.Lifecycle.{
  LifecycleStatus, DependencyHealthStatus, LifecycleState, initial, start_draining, is_draining,
}
use live_data_architecture.Lifecycle.Calls.{Call, perform, perform_all, is_stop, is_run}

-- The service is on its way out.
abbrev pub is_leaving : LifecycleStatus → Bool
is_leaving LifecycleStatus.draining = true
is_leaving LifecycleStatus.stopping = true
is_leaving _ = false

abbrev pub is_ok : DependencyHealthStatus → Bool
is_ok DependencyHealthStatus.ok = true
is_ok _ = false

abbrev pub is_starting : LifecycleStatus → Bool
is_starting LifecycleStatus.starting = true
is_starting _ = false

-- A drain has its time and its reason, a service that has not run has none, and a service on its
-- way out reports no dependency as healthy.
pub record IsCoherent (s : LifecycleState) : Type 0 where
  pub paired : has_value s.drain_started_at ≡ has_value s.drain_reason
  pub recorded : is_draining s.status ≡ true → has_value s.drain_reason ≡ true
  pub fresh : is_starting s.status ≡ true → has_value s.drain_reason ≡ false
  pub redis : is_leaving s.status ≡ true → is_ok s.redis_status ≡ false
  pub database : is_leaving s.status ≡ true → is_ok s.database_status ≡ false

initial-IsCoherent : (started_at : Option ℕ) (now : ℕ) → IsCoherent (initial started_at now)
unfolding initial is_draining
initial-IsCoherent started_at now = ground arith

perform-IsCoherent : (c : Call) (s : LifecycleState) → IsCoherent s → IsCoherent (perform c s)
unfolding perform is_draining
perform-IsCoherent Call.run s h = ground arith
perform-IsCoherent _ s h = ground arith

perform_all_keeps :
    (cs : List Call) (s : LifecycleState) → IsCoherent s → IsCoherent (perform_all cs s)
unfolding perform_all
perform_all_keeps [] s h = h
perform_all_keeps (c ∷ cs) s h = perform_all_keeps cs (perform c s) (perform-IsCoherent c s h)

-- Whatever methods are called after the construction, in whatever order, a drain has both its
-- time and its reason or neither, a draining service has them, a starting one does not, and a
-- draining or stopping service reports neither dependency as `ok`.
pub history-IsCoherent :
    (cs : List Call) (started_at : Option ℕ) (now : ℕ)
    → IsCoherent (perform_all cs (initial started_at now))
history-IsCoherent cs started_at now =
    perform_all_keeps cs (initial started_at now) (initial-IsCoherent started_at now)

-- The state `t` is draining for the same reason and since the same time as `s`.
pub record SameDrain (s t : LifecycleState) : Type 0 where
  pub draining : is_draining t.status ≡ true
  pub since : t.drain_started_at ≡ s.drain_started_at
  pub reason : t.drain_reason ≡ s.drain_reason

perform-SameDrain :
    (c : Call) (s t : LifecycleState)
    → is_stop c ≡ false
    → SameDrain s t
    → SameDrain s (perform c t)
unfolding perform is_draining
perform-SameDrain Call.run s t n h = ground arith
perform-SameDrain _ s t n h = ground arith

perform_all-SameDrain :
    (cs : List Call) (s t : LifecycleState)
    → all (λ c. not (is_stop c)) cs ≡ true
    → SameDrain s t
    → SameDrain s (perform_all cs t)
unfolding perform_all
perform_all-SameDrain [] s t n h = h
perform_all-SameDrain (c ∷ cs) s t n h =
    perform_all-SameDrain cs s (perform c t) (ground arith)
      (perform-SameDrain c s t (ground arith) h)

-- A draining service stays so, with the time and the reason of the drain, through any calls
-- except `mark_stopping`: no `mark_running` recovers it and no later drain overwrites it.
pub drain_sticks :
    (cs : List Call) (s : LifecycleState)
    → is_draining s.status ≡ true
    → all (λ c. not (is_stop c)) cs ≡ true
    → SameDrain s (perform_all cs s)
drain_sticks cs s d n =
    perform_all-SameDrain cs s s n (record { draining = d; since = refl; reason = refl })

perform-leaving :
    (c : Call) (s : LifecycleState)
    → is_run c ≡ false
    → is_leaving s.status ≡ true
    → is_leaving (perform c s).status ≡ true
unfolding perform
perform-leaving Call.run s n h = ground arith
perform-leaving _ s n h = ground arith

pub perform_all-leaving :
    (cs : List Call) (s : LifecycleState)
    → all (λ c. not (is_run c)) cs ≡ true
    → is_leaving s.status ≡ true
    → is_leaving (perform_all cs s).status ≡ true
unfolding perform_all
perform_all-leaving [] s n h = h
perform_all-leaving (c ∷ cs) s n h =
    perform_all-leaving cs (perform c s) (ground arith) (perform-leaving c s (ground arith) h)

module _ (reason : String) (now : Option ℕ) (clock : ℕ) where
  pub start_draining-leaving :
      (s : LifecycleState) → is_leaving (start_draining reason now clock s).0.status ≡ true
  unfolding start_draining
  start_draining-leaving s = ground arith

  start_draining-refused :
      (s : LifecycleState)
      → is_leaving s.status ≡ true
      → start_draining reason now clock s ≡ (s, false)
  unfolding start_draining
  start_draining-refused s h = ground arith

-- After one `start_draining`, and until `mark_running` is called, every further one returns False
-- and changes nothing.
pub drain_once :
    (cs : List Call) (s : LifecycleState) (reason other : String) (now later : Option ℕ)
    (clock later_clock : ℕ)
    → all (λ c. not (is_run c)) cs ≡ true
    → let t = perform_all cs (start_draining reason now clock s).0 in
      start_draining other later later_clock t ≡ (t, false)
drain_once cs s reason other now later clock later_clock n =
    start_draining-refused other later later_clock _
      (perform_all-leaving cs _ n (start_draining-leaving reason now clock s))
