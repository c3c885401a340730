-- ===== src/SqlPolicy/Parser.antt =====
-- What the policy uses of the sqlglot package, and of `str.lower`: a parsed statement is a node;
-- `find_all` returns the nodes below it, itself included, of the given classes. Nodes are truthy.
use live_data_architecture.Base.{String, Bool, Option, List}
use live_data_architecture.Base.Results.{Result}

-- The classes `exp.*` that the policy names.
pub data NodeClass : Type 0 where
  select into lock table_sample func anonymous cte table : NodeClass
  alter command create delete drop insert merge truncate_table update : NodeClass

-- `ParseError`, and `TokenError` for a text that has no tokens, such as an open string.
pub data ParseFailure : Type 0 where
  parse_error token_error : ParseFailure

pub record SqlGlot : Type 1 where
  pub Node : Type 0
  -- `sqlglot.parse(sql, read="postgres")`: its statements, where an empty statement is None
  pub parse : String → Result ParseFailure (List (Option Node))
  pub is_instance : NodeClass → Node → Bool
  pub find_all : List NodeClass → Node → List Node
  -- `expression.sql(dialect="postgres")`
  pub text_of : Node → String
  pub sql_name : Node → String
  pub name : Node → String
  pub db : Node → String
  pub catalog : Node → String
  pub alias_or_name : Node → String
  pub lower : String → String
