-- ===== src/Repository/Sql.antt =====
-- The texts of the statements.
use Prim.Native.Char.{Char, code}
use Prim.Native.String.{◌++◌}
use live_data_architecture.Base.{String, Bool, List, [], ◌∷◌, eqb, if◌then◌else◌}

unfoldable pub build_limited_select_sql : String → String
build_limited_select_sql sql = "SELECT * FROM (" ++ sql ++ ") AS analytics_query LIMIT :row_limit"

unfoldable pub build_create_view_table_sql : String → String → String
build_create_view_table_sql name source_sql =
    "CREATE OR REPLACE VIEW " ++ name ++ " AS " ++ source_sql

unfoldable pub build_drop_view_table_sql : String → String
build_drop_view_table_sql name = "DROP VIEW IF EXISTS " ++ name

abbrev pub is_quote : Char → Bool
is_quote c = eqb (code c) b'"'

-- `identifier.replace('"', '""')`
unfoldable pub double_quotes : String → String
double_quotes String.[] = ""
double_quotes (String.◌∷◌ c s) =
    let rest = double_quotes s in
    if is_quote c then String.◌∷◌ c (String.◌∷◌ c rest) else String.◌∷◌ c rest

unfoldable pub quoted_identifier : String → String
unfolding double_quotes
quoted_identifier identifier = "\"" ++ double_quotes identifier ++ "\""

unfoldable pub build_grant_view_table_sql : String → String → String
unfolding quoted_identifier
build_grant_view_table_sql name role_name =
    "GRANT SELECT ON TABLE " ++ name ++ " TO " ++ quoted_identifier role_name

abbrev pub read_only_sql : String
read_only_sql = "SET TRANSACTION READ ONLY"

-- What follows `SET LOCAL ` in the other guards
abbrev pub local_settings : List String
local_settings =
    "search_path = public, pg_catalog" ∷ "statement_timeout = '3000ms'" ∷ "lock_timeout = '500ms'"
    ∷ "idle_in_transaction_session_timeout = '5000ms'" ∷ []

abbrev pub set_local : List String → List String
set_local [] = []
set_local (setting ∷ settings) = ("SET LOCAL " ++ setting) ∷ set_local settings

unfoldable pub build_analytics_runtime_guard_sql : List String
build_analytics_runtime_guard_sql = read_only_sql ∷ set_local local_settings
