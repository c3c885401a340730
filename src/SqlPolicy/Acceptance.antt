-- ===== src/SqlPolicy/Acceptance.antt =====
-- What `validate` accepts, as a description apart from its code, and that it accepts exactly this.
use Prim.Native.String.{count}
use live_data_architecture.Base.{
  ℕ, ◌≤◌, String, ◌≡◌, refl, sym, ap, ◌∙◌, true, false, not, Option, List, [], ◌∷◌, min, arith,
  contains, any, All, eq_refl,
}
use live_data_architecture.Base.Results.{
  Result, ok, err, ◌>>=◌, ◌>>◌, >>=-eq-ok, >>-eq-ok, ok-injective,
}
use live_data_architecture.SqlPolicy.Parser.{SqlGlot, NodeClass, ParseFailure}
use live_data_architecture.SqlPolicy.{
  RejectionReason, PolicyError, rejecting, AnalyticsSqlPolicy, ValidatedSqlQuery,
  max_query_text_length, mutating_expressions, allowed_function_names, is_empty, present,
  ensure_query_length, parse_one_statement, ensure_select_only, ensure_bounded_select_shape,
  normalized_function_name, cte_names, collect_relations, extract_referenced_relations,
  ensure_relations_are_allowlisted, effective_relations, validate,
}
use live_data_architecture.SqlPolicy.Relations.{
  all_of-contains, contains_of-all, is_shadowed, reads, AllPlain, collect_relations_sound,
  collect_relations_complete, without_shadowed, collect_relations-drop,
}
use live_data_architecture.SqlPolicy.Checks.{
  ensure_query_length_iff, ensure_relations_iff, check_functions_sound, check_functions_complete,
  parse_one_statement_sound, parse_one_statement_complete, ensure_select_only_iff,
  ensure_bounded_select_shape_iff, rejecting-eq-ok, rejecting-not-token,
  parse_one_statement-token_error, reads-unshadowed, unshadowed-reads,
}

-- What the six steps of `validate` returned, when all of them passed.
passed :
    {E A B V : Type 0} (m₁ : Result E (Unit {0})) (m₂ : Result E A)
    (m₃ m₄ : A → Result E (Unit {0})) (m₅ : A → Result E B) (m₆ : B → Result E (Unit {0}))
    (out : A → B → V) {v : V}
    → (do m₁; a ← m₂; m₃ a; m₄ a; b ← m₅ a; m₆ b; ok (out a b)) ≡ ok v
    → (a : A) × (b : B) × (m₁ ≡ ok tt)
      × (m₂ ≡ ok a)
      × (m₃ a ≡ ok tt)
      × (m₄ a ≡ ok tt)
      × (m₅ a ≡ ok b)
      × (m₆ b ≡ ok tt)
      × (out a b ≡ v)
passed m₁ m₂ m₃ m₄ m₅ m₆ out h =
    let (p₁, h₁) = >>-eq-ok m₁ _ h in
    let (a, p₂, h₂) = >>=-eq-ok m₂ _ h₁ in
    let (p₃, h₃) = >>-eq-ok (m₃ a) _ h₂ in
    let (p₄, h₄) = >>-eq-ok (m₄ a) _ h₃ in
    let (b, p₅, h₅) = >>=-eq-ok (m₅ a) _ h₄ in
    let (p₆, h₆) = >>-eq-ok (m₆ b) (ok (out a b)) h₅ in
    (a, b, p₁, p₂, p₃, p₄, p₅, p₆, ok-injective h₆)

passing :
    {E A B V : Type 0} (m₁ : Result E (Unit {0})) (m₂ : Result E A)
    (m₃ m₄ : A → Result E (Unit {0})) (m₅ : A → Result E B) (m₆ : B → Result E (Unit {0}))
    (out : A → B → V) (a : A) (b : B)
    → m₁ ≡ ok tt
    → m₂ ≡ ok a
    → m₃ a ≡ ok tt
    → m₄ a ≡ ok tt
    → m₅ a ≡ ok b
    → m₆ b ≡ ok tt
    → (do m₁; a ← m₂; m₃ a; m₄ a; b ← m₅ a; m₆ b; ok (out a b)) ≡ ok (out a b)
passing m₁ m₂ m₃ m₄ m₅ m₆ out a b p₁ p₂ p₃ p₄ p₅ p₆ = rw (p₁, p₂, p₃, p₄, p₅, p₆)

unraised :
    {A B : Type 0} {e e' : PolicyError}
    → ◌≡◌ {A = Result PolicyError B} (err e) (err e')
    → ◌≡◌ {A = Result PolicyError A} (err e) (err e')
unraised h = cc

ok-not-token :
    {A : Type 0} {a : A} → ◌≡◌ {A = Result PolicyError A} (ok a) (err PolicyError.token_error) → ⊥
ok-not-token h = cc

-- A step and its rest raise the parser's error only if `P`.
unless_raised :
    {P A B : Type 0} (m : Result PolicyError A) (f : A → Result PolicyError B)
    → (m ≡ err PolicyError.token_error → P)
    → ((a : A) → f a ≡ err PolicyError.token_error → P)
    → (m >>= f) ≡ err PolicyError.token_error
    → P
unless_raised (ok a) f first rest h = rest a h
unless_raised (err e) f first rest h = first (unraised h)

rejecting-raises-none :
    {A : Type 0} (P : Type 0) (m : Result RejectionReason A)
    → rejecting m ≡ err PolicyError.token_error
    → P
rejecting-raises-none P m h = absurd (rejecting-not-token m h)

module _ (G : SqlGlot) where
  open G use {Node, parse, is_instance, find_all, text_of, name, lower}

  abbrev pub ctes_of : Node → List String
  ctes_of e = cte_names G (find_all (NodeClass.cte ∷ []) e)

  abbrev pub tables_of : Node → List Node
  tables_of e = find_all (NodeClass.table ∷ []) e

  -- The text is short and holds one statement, a SELECT with nothing that writes, locks, samples or
  -- selects into a table; its functions are of the list. Each of its tables has the name of a CTE
  -- of the statement, or is unqualified and allowed; there is a table of the second kind.
  pub record IsSafeQuery (allowed : List String) (sql : String) (e : Node) : Type 0 where
    pub short : count sql ≤ max_query_text_length
    pub statements : List (Option Node)
    pub parsed : parse sql ≡ ok statements
    pub single : present G statements ≡ e ∷ []
    pub select : is_instance NodeClass.select e ≡ true
    pub no_mutation : find_all mutating_expressions e ≡ []
    pub no_into : find_all (NodeClass.into ∷ []) e ≡ []
    pub no_lock : find_all (NodeClass.lock ∷ []) e ≡ []
    pub no_sample : find_all (NodeClass.table_sample ∷ []) e ≡ []
    pub functions :
        All
          (λ f. contains allowed_function_names (normalized_function_name G f) ≡ true)
          (find_all (NodeClass.func ∷ []) e)
    pub tables : AllPlain G (ctes_of e) (tables_of e)
    pub relations :
        (n : String) → any (reads G (ctes_of e) n) (tables_of e) ≡ true → contains allowed n ≡ true
    pub reads_one : any (λ t. not (is_shadowed G (ctes_of e) t)) (tables_of e) ≡ true

  -- The accepted query: the parser's text of the statement, the capped limit, and the names of the
  -- tables that no CTE names.
  pub record IsQueryOf (policy : AnalyticsSqlPolicy) (limit : ℕ) (e : Node) (v : ValidatedSqlQuery)
      : Type 0 where
    pub sql : v.sql ≡ text_of e
    pub row_limit : v.row_limit ≡ min limit policy.max_row_limit
    pub relations :
        (n : String) → contains v.referenced_relations n ≡ any (reads G (ctes_of e) n) (tables_of e)

  extract_sound :
      (e : Node) (r : List String)
      → extract_referenced_relations G e ≡ ok r
      → AllPlain G (ctes_of e) (tables_of e)
        × ((n : String) → contains r n ≡ any (reads G (ctes_of e) n) (tables_of e))
  unfolding extract_referenced_relations
  extract_sound e r h = collect_relations_sound G (ctes_of e) (tables_of e) [] r h

  extract_complete :
      (e : Node)
      → AllPlain G (ctes_of e) (tables_of e)
      → (r : List String) × (extract_referenced_relations G e ≡ ok r)
  unfolding extract_referenced_relations
  extract_complete e h = collect_relations_complete G (ctes_of e) (tables_of e) [] h

  contains-nonempty : (r : List String) (n : String) → contains r n ≡ true → is_empty r ≡ false
  contains-nonempty [] n h = cc
  contains-nonempty (m ∷ r) n h = refl

  nonempty-contains : (r : List String) → is_empty r ≡ false → (n : String) × (contains r n ≡ true)
  nonempty-contains [] h = cc
  nonempty-contains (m ∷ r) h = (m, ground (arith, eq_refl m))

  module _ (policy : AnalyticsSqlPolicy) (sql : String) (limit : ℕ)
      (given : Option (List String)) where
    abbrev query : Node → List String → ValidatedSqlQuery
    query e r = record {
      sql = text_of e;
      referenced_relations = r;
      row_limit = min limit policy.max_row_limit;
    }

    -- Whatever `validate` accepts is a single bounded SELECT of allowed functions. Each of its tables
    -- either has, whatever its schema, the name of a CTE of the statement, or is unqualified and one
    -- of the relations in force: those of the request or, if that set is missing or empty, the
    -- policy's. What it returns is that statement's text, the names of the tables that no CTE names,
    -- and a limit that is the smaller of the requested and the policy's.
    pub validate_sound :
        (v : ValidatedSqlQuery)
        → validate G policy sql limit given ≡ ok v
        → (e : Node) × IsSafeQuery (effective_relations given policy) sql e
          × IsQueryOf policy limit e v
    unfolding validate
    validate_sound v h =
        let (e, r, p₁, p₂, p₃, p₄, p₅, p₆, h₆) =
          passed (rejecting (ensure_query_length sql)) (parse_one_statement G sql)
            (λ e. rejecting (ensure_select_only G e))
            (λ e. rejecting (ensure_bounded_select_shape G e))
            (λ e. rejecting (extract_referenced_relations G e))
            (λ r. rejecting (ensure_relations_are_allowlisted r (effective_relations given policy)))
            query h in
        let (es, parsed, single) = parse_one_statement_sound G sql e p₂ in
        let (select, no_mutation) = (ensure_select_only_iff G e).0 (rejecting-eq-ok _ p₃) in
        let (no_into, no_lock, no_sample, functions) =
          (ensure_bounded_select_shape_iff G e).0 (rejecting-eq-ok _ p₄) in
        let (plain, names) = extract_sound e r (rejecting-eq-ok _ p₅) in
        let (some_name, listed) = (ensure_relations_iff r _).0 (rejecting-eq-ok _ p₆) in
        let (n, found) = nonempty-contains r some_name in
        (
          e,
          record {
            short = (ensure_query_length_iff sql).0 (rejecting-eq-ok _ p₁);
            statements = es;
            parsed = parsed;
            single = single;
            select = select;
            no_mutation = no_mutation;
            no_into = no_into;
            no_lock = no_lock;
            no_sample = no_sample;
            functions = check_functions_sound G _ functions;
            tables = plain;
            relations = λ m read. contains_of-all _ r m listed (names m ∙ read);
            reads_one = reads-unshadowed G (ctes_of e) n (tables_of e) (sym (names n) ∙ found);
          },
          record {
            sql = ap (λ (q : ValidatedSqlQuery). q.sql) (sym h₆);
            row_limit = ap (λ (q : ValidatedSqlQuery). q.row_limit) (sym h₆);
            relations = λ m.
                ap (λ (q : ValidatedSqlQuery). contains q.referenced_relations m) (sym h₆)
                ∙ names m;
          },
        )

    -- Whatever is not a violation of the policy is the parser's own error.
    pub validate-token_error :
        validate G policy sql limit given ≡ err PolicyError.token_error
        → parse sql ≡ err ParseFailure.token_error
    unfolding validate
    validate-token_error =
        let P = parse sql ≡ err ParseFailure.token_error in
        unless_raised (rejecting (ensure_query_length sql)) _ (rejecting-raises-none P _) (λ done.
          unless_raised (parse_one_statement G sql) _ (parse_one_statement-token_error G sql) (λ e.
            unless_raised (rejecting (ensure_select_only G e)) _ (rejecting-raises-none P _)
              (λ done.
                unless_raised (rejecting (ensure_bounded_select_shape G e)) _
                  (rejecting-raises-none P _)
                  (λ done.
                    unless_raised (rejecting (extract_referenced_relations G e)) _
                      (rejecting-raises-none P _)
                      (λ r.
                        unless_raised
                          (rejecting
                            (ensure_relations_are_allowlisted r (effective_relations given policy)))
                          _ (rejecting-raises-none P _) (λ done h. absurd (ok-not-token h)))))))

    -- Every safe query over the relations in force is accepted.
    pub validate_complete :
        (e : Node)
        → IsSafeQuery (effective_relations given policy) sql e
        → (v : ValidatedSqlQuery) × (validate G policy sql limit given ≡ ok v)
          × IsQueryOf policy limit e v
    unfolding validate
    validate_complete e q =
        let (r, p₅) = extract_complete e q.tables in
        let names = (extract_sound e r p₅).1 in
        let (n, read) = unshadowed-reads G (ctes_of e) (tables_of e) q.reads_one in
        let listed =
          all_of-contains (effective_relations given policy) r
            (λ m found. q.relations m (sym (names m) ∙ found)) in
        (
          query e r,
          passing (rejecting (ensure_query_length sql)) (parse_one_statement G sql)
              (λ e. rejecting (ensure_select_only G e))
              (λ e. rejecting (ensure_bounded_select_shape G e))
              (λ e. rejecting (extract_referenced_relations G e))
              (λ r.
                rejecting (ensure_relations_are_allowlisted r (effective_relations given policy)))
              query e r (ap rejecting ((ensure_query_length_iff sql).1 q.short))
              (parse_one_statement_complete G sql e q.statements q.parsed q.single)
              (ap rejecting ((ensure_select_only_iff G e).1 (q.select, q.no_mutation)))
              (ap rejecting (
                (ensure_bounded_select_shape_iff G e).1
                  (q.no_into, q.no_lock, q.no_sample, check_functions_complete G _ q.functions)))
              (ap rejecting p₅)
              (ap rejecting
                ((ensure_relations_iff r _).1 (contains-nonempty r n (names n ∙ read), listed))),
          record { sql = refl; row_limit = refl; relations = names },
        )

  -- A table that has the name of a CTE anywhere in the statement is dropped before its schema and
  -- catalog are looked at: the outcome is that of the statement's other tables alone.
  pub extract_ignores_shadowed :
      (e : Node)
      → extract_referenced_relations G e
        ≡ collect_relations G (ctes_of e) (without_shadowed G (ctes_of e) (tables_of e)) []
  unfolding extract_referenced_relations
  extract_ignores_shadowed e = collect_relations-drop G (ctes_of e) (tables_of e) []
