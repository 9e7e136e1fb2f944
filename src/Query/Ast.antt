-- ===== src/Query/Ast.antt =====
-- query/ast.py
use recoverx_cli.Prelude.{ℕ, Bool}
use recoverx_cli.Utils.Text.{Text}
use recoverx_cli.Query.Operators.{Operator}

-- `LiteralNode`: a value with its `value_type`. A float keeps the text that it was read from.
pub data Literal : Type 0 where
  string : Text → Literal
  int : ℕ → Literal
  float : Text → Literal
  bool : Bool → Literal
  null : Literal

pub data QueryNode : Type 0 where
  comparison : Text → Operator → Literal → QueryNode
  and_node : QueryNode → QueryNode → QueryNode
  or_node : QueryNode → QueryNode → QueryNode
  not_node : QueryNode → QueryNode
