-- ===== src/Repository/ReadOnly.antt =====
-- What the analytics sessions run cannot change the data: every statement runs in a transaction that
-- was made read-only first.

use live_data_architecture.Base.{
  ℕ, String, ◌≡◌, refl, sym, ap, ◌∙◌, subst, Bool, true, Option, none, some, List, [], ◌∷◌,
}
use live_data_architecture.Base.Results.{Result, ok, err}
use live_data_architecture.Charts.{AnalyticsRows}
use live_data_architecture.Explore.{ExploreQuery}
use live_data_architecture.Explore.Select.{SelectStatement, build_explore_select_statement}
use live_data_architecture.Base.Action.{after-eq-ok}
use live_data_architecture.Repository.Sql.{
  read_only_sql, set_local, local_settings, build_limited_select_sql,
  build_analytics_runtime_guard_sql,
}
use live_data_architecture.Repository.Rows.{Scalars}
use live_data_architecture.Repository.Database.{SqlError, Session, Statement, Database}
use live_data_architecture.Repository.Methods.{
  management, wrapped, run_guards, guarded, execute_statement, execute_select, execute_core,
  execute_explore_query, preview_view_table_sql,
}

module _ (S : Scalars) (D : Database S) (lower : String → String) (has_management : Bool) where
  open D use {State, data_of}

  set_local_guards :
      (session : Session) (settings : List String) (s s' : State)
      → D.read_only s ≡ true
      → run_guards S D lower has_management session (set_local settings) s ≡ (ok tt, s')
      → (D.read_only s' ≡ true) × (data_of s' ≡ data_of s)
  unfolding run_guards
  set_local_guards session [] s s' h e =
      let same : s ≡ s' = ap (λ (x : Result SqlError (Unit {0}) × State). x.1) e in
      (subst (λ t. D.read_only t ≡ true) same h, ap data_of (sym same))
  set_local_guards session (setting ∷ settings) s s' h e =
      let (answer, s₁, run, rest) = after-eq-ok (D.execute session _ s) _ e in
      let here = D.read_only-set_local session setting s s₁ answer h run in
      let kept = D.read_only-keeps session _ s s₁ answer h run in
      let (still, same) = set_local_guards session settings s₁ s' here rest in (still, same ∙ kept)

  guarded_data :
      (session : Session) (statement : Statement) (s s' : State) (rows : AnalyticsRows)
      → guarded S D lower has_management session statement s ≡ (ok rows, s')
      → data_of s' ≡ data_of s
  unfolding build_analytics_runtime_guard_sql run_guards
  guarded_data session statement s s' rows e =
      let (done, s₁, guards, e₁) =
        after-eq-ok
          (run_guards S D lower has_management session build_analytics_runtime_guard_sql s) _ e in
      let (answer, s₀, first, others) =
        after-eq-ok (D.execute session (Statement.text read_only_sql none) s) _ guards in
      let (set, same₀) = D.read_only-set session s s₀ answer first in
      let (kept, same₁) = set_local_guards session local_settings s₀ s₁ set others in
      let (result, s₂, run, e₂) = after-eq-ok (D.execute session statement s₁) _ e₁ in
      let last = D.read_only-keeps session statement s₁ s₂ result kept run in
      let final : s₂ ≡ s' = ap (λ (x : Result SqlError AnalyticsRows × State). x.1) e₂ in
      ap data_of (sym final) ∙ last ∙ same₁ ∙ same₀

  begun_data :
      (session : Session) (statement : Statement) (s : State)
      (x : Result SqlError AnalyticsRows × State)
      → D.begin session (guarded S D lower has_management session statement) s ≡ x
      → data_of x.1 ≡ data_of s
  begun_data session statement s (err e, s') h = D.begin-err session _ s s' e h
  begun_data session statement s (ok rows, s') h =
      let (s₀, s₁, start, run, end) = D.begin-ok session _ s s' rows h in
      end ∙ guarded_data session statement s₀ s₁ rows run ∙ start

  wrapped_data :
      (x : Result SqlError AnalyticsRows × State) → (wrapped S D lower has_management x).1 ≡ x.1
  wrapped_data (ok a, s) = refl
  wrapped_data (err e, s) = refl

  executed_data :
      (session : Session) (statement : Statement) (s : State)
      → data_of
          (wrapped S D lower has_management
            (execute_statement S D lower has_management session statement s)).1
        ≡ data_of s
  unfolding execute_statement
  executed_data session statement s =
      ap data_of (wrapped_data (execute_statement S D lower has_management session statement s))
      ∙ begun_data session statement s _ refl

  core_data :
      (statement : Option SelectStatement) (s : State)
      → data_of (execute_core S D lower has_management statement s).1 ≡ data_of s
  core_data none s = refl
  core_data (some statement) s = executed_data Session.reader (Statement.core_select statement) s

  -- Running a query leaves the data as it was, whatever its text, and whether it returns or raises:
  -- `execute_select`, `execute_explore_query` and `preview_view_table_sql` alike.
  pub queries_change_nothing :
      (sql : String) (row_limit : ℕ) (query : ExploreQuery) (s : State)
      → (data_of (execute_select S D lower has_management sql row_limit s).1 ≡ data_of s)
        × (data_of (execute_explore_query S D lower has_management query s).1 ≡ data_of s)
        × (data_of (preview_view_table_sql S D lower has_management sql row_limit s).1 ≡ data_of s)
  unfolding execute_select execute_explore_query preview_view_table_sql
  queries_change_nothing sql row_limit query s = (
    executed_data Session.reader (Statement.text (build_limited_select_sql sql) (some row_limit)) s,
    core_data (build_explore_select_statement query) s,
    executed_data (management S D lower has_management)
        (Statement.text (build_limited_select_sql sql) (some row_limit)) s,
  )
