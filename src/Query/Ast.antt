-- ===== src/Query/Ast.antt =====
-- crates/infralens-query/src/ast.rs: the syntax tree. A text is its characters, a float its 64 bits.
-- `Exprs` is a vector of expressions. The text forms for messages are not modelled.
use infralens.Prelude.{ℕ, Bool, Option, List, Bytes, ℤ}

pub data BinOp : Type 0 where
  add : BinOp
  sub : BinOp
  mul : BinOp
  div : BinOp
  mod' : BinOp
  eq : BinOp
  not_eq : BinOp
  lt : BinOp
  lt_eq : BinOp
  gt : BinOp
  gt_eq : BinOp
  and : BinOp
  or : BinOp

pub data UnaryOp : Type 0 where
  neg : UnaryOp
  not' : UnaryOp

pub data Literal : Type 0 where
  int : ℤ → Literal
  float : ℕ → Literal
  str : Bytes → Literal
  bool : Bool → Literal
  null : Literal
  interval_ns : ℤ → Literal

mutual
  pub data Expr : Type 0 where
    column : Option Bytes → Bytes → Expr
    literal : Literal → Expr
    star : Expr
    bin_op : BinOp → Expr → Expr → Expr
    unary_op : UnaryOp → Expr → Expr
    is_null : Expr → Expr
    is_not_null : Expr → Expr
    between : Expr → Expr → Expr → Expr
    in_list : Expr → Exprs → Expr
    like : Expr → Bytes → Bool → Expr
    function : Bytes → Exprs → Expr
    time_bucket : ℤ → Expr → Expr
    rate : Expr → ℤ → Expr
    delta : Expr → ℤ → Expr
    histogram_quantile : ℕ → Expr → ℕ → Expr
    now : Expr
    interval : ℤ → Expr

  pub data Exprs : Type 0 where
    nil : Exprs
    cons : Expr → Exprs → Exprs

pub record TableRef : Type 0 where
  pub name : Bytes
  pub alias : Option Bytes

pub data JoinKind : Type 0 where
  inner : JoinKind
  left : JoinKind
  right : JoinKind

pub record JoinClause : Type 0 where
  pub kind : JoinKind
  pub table : TableRef
  pub condition : Expr

pub data Projection : Type 0 where
  all_columns : Projection
  expression : Expr → Option Bytes → Projection

pub record OrderByItem : Type 0 where
  pub expr : Expr
  pub asc : Bool

pub record SelectStatement : Type 0 where
  pub projections : List Projection
  pub from : TableRef
  pub joins : List JoinClause
  pub filter : Option Expr
  pub group_by : List Expr
  pub having : Option Expr
  pub order_by : List OrderByItem
  pub limit : Option ℕ
  pub offset : Option ℕ

pub data Statement : Type 0 where
  select : SelectStatement → Statement
