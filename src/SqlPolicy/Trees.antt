-- ===== src/SqlPolicy/Trees.antt =====
-- A small parser that knows four texts.
use live_data_architecture.Base.{
  String, Bool, true, false, ◌||◌, Option, none, some, List, [], ◌∷◌, ◌==◌, if◌then◌else◌,
}
use live_data_architecture.SqlPolicy.Parser.{SqlGlot, NodeClass, ParseFailure}
use live_data_architecture.Base.Results.{Result, ok, err}

pub data Part : Type 0 where
  table_part : String → String → Part
  cte_part func_part : String → Part

pub data Tree : Type 0 where
  leaf : Part → Tree
  select_of : String → List Part → Tree

abbrev part_is : NodeClass → Part → Bool
part_is NodeClass.table (table_part n d) = true
part_is NodeClass.cte (cte_part n) = true
part_is NodeClass.func (func_part n) = true
part_is _ _ = false

abbrev is_one_of : List NodeClass → Part → Bool
is_one_of [] p = false
is_one_of (c ∷ cs) p = part_is c p || is_one_of cs p

abbrev parts_of : List NodeClass → List Part → List Tree
parts_of cs [] = []
parts_of cs (p ∷ ps) = let rest = parts_of cs ps in if is_one_of cs p then leaf p ∷ rest else rest

abbrev tree_is : NodeClass → Tree → Bool
tree_is NodeClass.select (select_of s ps) = true
tree_is _ _ = false

abbrev tree_parts : List NodeClass → Tree → List Tree
tree_parts cs (select_of s ps) = parts_of cs ps
tree_parts cs (leaf p) = []

abbrev tree_text : Tree → String
tree_text (select_of s ps) = s
tree_text (leaf p) = ""

abbrev tree_name : Tree → String
tree_name (leaf (table_part n d)) = n
tree_name (leaf (cte_part n)) = n
tree_name (leaf (func_part n)) = n
tree_name (select_of s ps) = ""

abbrev tree_db : Tree → String
tree_db (leaf (table_part n d)) = d
tree_db _ = ""

abbrev pub counts_sql : String
counts_sql = "SELECT SUM(event_count) FROM event_type_counts"

abbrev pub catalog_sql : String
catalog_sql = "SELECT * FROM pg_catalog.pg_user"

abbrev pub shadowed_sql : String
shadowed_sql =
    "WITH pg_user AS (SELECT event_type FROM event_type_counts) SELECT * FROM pg_catalog.pg_user"

-- A text with an open string.
abbrev pub open_sql : String
open_sql = "SELECT 'purchase FROM event_type_counts"

abbrev pub counts : Tree
counts = select_of counts_sql (func_part "sum" ∷ table_part "event_type_counts" "" ∷ [])

abbrev pub shadowed : Tree
shadowed = select_of shadowed_sql (
    cte_part "pg_user" ∷ table_part "pg_user" "pg_catalog" ∷ table_part "event_type_counts" "" ∷ [])

abbrev tree_parse : String → Result ParseFailure (List (Option Tree))
tree_parse s =
    if s == counts_sql
    then ok (some counts ∷ none ∷ [])
    else if s == shadowed_sql
    then ok (some shadowed ∷ [])
    else if s == catalog_sql
    then ok (some (select_of catalog_sql (table_part "pg_user" "pg_catalog" ∷ [])) ∷ [])
    else if s == open_sql
    then err ParseFailure.token_error
    else err ParseFailure.parse_error

abbrev pub trees : SqlGlot
trees = record {
  Node = Tree;
  parse = tree_parse;
  is_instance = tree_is;
  find_all = tree_parts;
  text_of = tree_text;
  sql_name = tree_name;
  name = tree_name;
  db = tree_db;
  catalog = λ t. "";
  alias_or_name = tree_name;
  lower = λ s. s;
}
