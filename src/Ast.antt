-- ===== src/Ast.antt =====
-- The syntax tree: ast/node.h and the node types of ast/.
use dtime_db.Prelude.{ℕ, Bool, true, false, List}
use dtime_db.Token.{Text, Token}

-- `Create::Type`.
pub data CreateType : Type 0 where
  create_unset create_database create_table : CreateType

pub record Create : Type 0 where
  pub type : CreateType
  pub name : Text
  pub fields : List (Text × Text)
  pub engine : Text

pub record Show : Type 0 where
  pub curr_db_name : Text
  pub show_option : Text
  pub tb_name : Text
  pub type : Text

pub record Insert : Type 0 where
  pub curr_db_name : Text
  pub from : Text
  pub tags : List Text
  pub fields : List Text
  pub values : List Text
  pub timestamp : Text

-- The pointers to expressions, `nullptr` among them. The number of a node is the 64-bit pattern of an
-- `int64_t` or a `double`.
pub data Expression : Type 0 where
  nullptr : Expression
  node_integer : Token → (value : ℕ) → Expression
  node_float : Token → (value : ℕ) → Expression
  node_string : Token → (value : Text) → Expression
  node_null : Token → Expression
  node_identifier : Token → (value : Text) → Expression
  node_prefix : Token → (operator : Text) → (right : Expression) → Expression
  node_infix : Token → (operator : Text) → (left right : Expression) → Expression
  node_show : Show → Expression
  node_use : (database_name : Text) → Expression
  node_create : Create → Expression
  node_select :
      Token
      → (curr_db_name : Text) → (reduced_fields : List (Text × Text)) → (from where_ : Expression)
      → Expression
  node_insert : Token → Insert → Expression
  node_sys : Token → (option from : Text) → (where_ : Expression) → Expression

abbrev pub is_null : Expression → Bool
is_null nullptr = true
is_null _ = false

pub record ExpressionStatement : Type 0 where
  pub token : Token
  pub expression : Expression

pub record Program : Type 0 where
  pub statements : List ExpressionStatement
