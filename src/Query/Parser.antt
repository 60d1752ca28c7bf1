-- ===== src/Query/Parser.antt =====
-- crates/infralens-query/src/parser.rs: recursive descent. The state is the current token and those
-- behind it; the last one is never passed. `none` means that the fuel ran out, which bounds the depth
-- of calls. `debug` is the derived text of a token.
pub mod Interval
pub mod Chains
mod Tests
use infralens.Prelude.{
  ℕ, zero, suc, Bool, true, false, Option, none, some, List, [], ◌∷◌, ◌++◌, map, Bytes, Result, ok,
  err, codes, ◌==◌, if◌then◌else◌, ℤ, as_u64,
}
use infralens.Query.Ast
use infralens.Query.Ast.{
  Expr, Exprs, nil, cons, Literal, BinOp, JoinKind, JoinClause, OrderByItem, Projection,
  SelectStatement, Statement, TableRef,
}
use infralens.Query.Errors.{QueryError, parse}
use infralens.Query.Lexer
use infralens.Query.Lexer.{Token}
use Interval.{parse_interval, lower_case}

pub record Parser : Type 0 where
  pub current : Token
  pub rest : List Token

abbrev pub Parsed {ℓ} : Type ℓ → Type ℓ
Parsed A = Option (Result (A × Parser) QueryError)

abbrev pub done {ℓ} : {A : Type ℓ} → A → Parser → Parsed A
done a p = some (ok (a, p))

abbrev pub fail {ℓ} : {A : Type ℓ} → Bytes → Parsed A
fail message = some (err (parse message))

-- `?`
abbrev pub and_then {ℓ κ} :
    {A : Type ℓ} {B : Type κ} → Parsed A → (A → Parser → Parsed B) → Parsed B
and_then none f = none
and_then (some (err e)) f = some (err e)
and_then (some (ok (a, p))) f = f a p

abbrev advance_to : Token → List Token → Parser
advance_to t [] = record { current = t; rest = [] }
advance_to t (u ∷ us) = record { current = u; rest = us }

unfoldable pub advance : Parser → Parser
advance p = advance_to p.current p.rest

-- A number for each token without contents, to compare with.
abbrev pub tag : Token → ℕ
tag Lexer.select' = 1
tag Lexer.from' = 2
tag Lexer.where' = 3
tag Lexer.and' = 4
tag Lexer.or' = 5
tag Lexer.not' = 6
tag Lexer.null' = 7
tag Lexer.join = 8
tag Lexer.on = 9
tag Lexer.as' = 10
tag Lexer.group = 11
tag Lexer.by' = 12
tag Lexer.having = 13
tag Lexer.order = 14
tag Lexer.limit = 15
tag Lexer.offset = 16
tag Lexer.distinct = 17
tag Lexer.inner = 18
tag Lexer.star = 19
tag Lexer.minus = 20
tag Lexer.comma = 21
tag Lexer.dot = 22
tag Lexer.l_paren = 23
tag Lexer.r_paren = 24
tag Lexer.semicolon = 25
tag Lexer.eof = 26
tag _ = 0

abbrev pub at : Token → Parser → Bool
at t p = tag p.current == tag t

unfoldable pub eat_optional : Token → Parser → Parser
eat_optional t p = if at t p then advance p else p

-- A vector of expressions as the syntax tree keeps it.
abbrev pub exprs : List Expr → Exprs
exprs [] = nil
exprs (e ∷ es) = cons e (exprs es)

abbrev pub binary : Expr → BinOp → Expr → Expr
binary l op r = Ast.bin_op op l r

abbrev pub or_op : Token → Option BinOp
or_op Lexer.or' = some Ast.or
or_op _ = none

abbrev pub and_op : Token → Option BinOp
and_op Lexer.and' = some Ast.and
and_op _ = none

abbrev pub add_op : Token → Option BinOp
add_op Lexer.plus = some Ast.add
add_op Lexer.minus = some Ast.sub
add_op _ = none

abbrev pub mul_op : Token → Option BinOp
mul_op Lexer.star = some Ast.mul
mul_op Lexer.slash = some Ast.div
mul_op Lexer.percent = some Ast.mod'
mul_op _ = none

module _ (debug : Token → Bytes) where
  unfoldable pub expect : Token → Parser → Parsed {0} Unit
  expect t p =
      if at t p
      then done tt (advance p)
      else fail (codes "expected " ++ (debug t ++ (codes ", got " ++ debug p.current)))

  abbrev pub ident_of : Token → Parser → Parsed Bytes
  ident_of (Lexer.ident s) p = done s p
  ident_of other p = fail (codes "expected identifier, got " ++ debug other)

  abbrev pub int_of : Token → Parser → Parsed ℤ
  int_of (Lexer.int_lit n) p = done n p
  int_of other p = fail (codes "expected integer, got " ++ debug other)

  abbrev pub string_of : Token → Parser → Parsed Bytes
  string_of (Lexer.str_lit s) p = done s p
  string_of other p = fail (codes "expected string, got " ++ debug other)

  unfoldable pub expect_ident : Parser → Parsed Bytes
  expect_ident p = ident_of p.current (advance p)

  unfoldable pub expect_int : Parser → Parsed ℤ
  expect_int p = int_of p.current (advance p)

  unfoldable pub expect_string : Parser → Parsed Bytes
  expect_string p = string_of p.current (advance p)

  -- `parse_comma_separated`, behind its first item.
  abbrev pub more_items : {A : Type 0} → ℕ → (Parser → Parsed A) → Parser → Parsed (List A)
  more_items zero f p = none
  more_items (suc fuel) f p = elim (at Lexer.comma p) [
    | true ↦
        and_then (f (advance p))
          (λ x p'. and_then (more_items fuel f p') (λ xs p''. done (x ∷ xs) p''))
    | false ↦ done [] p
  ]

  abbrev pub parse_comma_separated :
      {A : Type 0} → ℕ → (Parser → Parsed A) → Parser → Parsed (List A)
  parse_comma_separated fuel f p =
      and_then (f p) (λ x p'. and_then (more_items fuel f p') (λ xs p''. done (x ∷ xs) p''))

  -- The loop of the left-associative levels: operands of the next level, while there is an operator.
  abbrev pub more_operands :
      ℕ → (Token → Option BinOp) → (Parser → Parsed Expr) → Expr → Parser → Parsed Expr
  more_operands zero op_of operand l p = none
  more_operands (suc fuel) op_of operand l p = elim (op_of p.current) [
    | none ↦ done l p
    | some op ↦
        and_then (operand (advance p)) (λ r p'. more_operands fuel op_of operand (binary l op r) p')
  ]

  abbrev pub parsed_interval : Result ℤ QueryError → Parser → Parsed Expr
  parsed_interval (ok ns) p = done (Ast.interval ns) p
  parsed_interval (err e) p = some (err e)

  -- What follows a name: a column, or the arguments of a call.
  abbrev pub after_ident : ℕ → (Parser → Parsed Expr) → Bytes → Parser → Parsed Expr
  after_ident fuel expr name p =
      if at Lexer.dot p
      then and_then (expect_ident (advance p)) (λ col p'. done (Ast.column (some name) col) p')
      else if at Lexer.l_paren p
      then and_then
          (if at Lexer.r_paren (advance p)
            then done [] (advance p)
            else parse_comma_separated fuel expr (advance p))
          (λ args p'.
            and_then (expect Lexer.r_paren p')
              (λ _ p''. done (Ast.function (map lower_case name) (exprs args)) p''))
      else done (Ast.column none name) p

  abbrev pub primary_of : ℕ → (Parser → Parsed Expr) → Token → Parser → Parsed Expr
  primary_of fuel expr (Lexer.int_lit n) p = done (Ast.literal (Ast.int n)) p
  primary_of fuel expr (Lexer.float_lit x) p = done (Ast.literal (Ast.float x)) p
  primary_of fuel expr (Lexer.str_lit s) p = done (Ast.literal (Ast.str s)) p
  primary_of fuel expr Lexer.true' p = done (Ast.literal (Ast.bool true)) p
  primary_of fuel expr Lexer.false' p = done (Ast.literal (Ast.bool false)) p
  primary_of fuel expr Lexer.null' p = done (Ast.literal Ast.null) p
  primary_of fuel expr Lexer.star p = done Ast.star p
  primary_of fuel expr Lexer.l_paren p =
      and_then (expr p) (λ e p'. and_then (expect Lexer.r_paren p') (λ _ p''. done e p''))
  primary_of fuel expr Lexer.interval p =
      and_then (expect_string p) (λ s p'. parsed_interval (parse_interval s) p')
  primary_of fuel expr (Lexer.ident name) p = after_ident fuel expr name p
  primary_of fuel expr other p = fail (codes "unexpected token in expression: " ++ debug other)

  unfoldable pub parse_primary : ℕ → (Parser → Parsed Expr) → Parser → Parsed Expr
  parse_primary fuel expr p = primary_of fuel expr p.current (advance p)

  unfoldable pub parse_unary : ℕ → (Parser → Parsed Expr) → Parser → Parsed Expr
  parse_unary zero expr p = none
  parse_unary (suc fuel) expr p = elim (at Lexer.minus p) [
    | true ↦ and_then (parse_unary fuel expr (advance p)) (λ e p'. done (Ast.unary_op Ast.neg e) p')
    | false ↦ parse_primary fuel expr p
  ]

  unfoldable pub parse_multiplication : ℕ → (Parser → Parsed Expr) → Parser → Parsed Expr
  parse_multiplication fuel expr p =
      and_then (parse_unary fuel expr p) (more_operands fuel mul_op (parse_unary fuel expr))

  unfoldable pub parse_addition : ℕ → (Parser → Parsed Expr) → Parser → Parsed Expr
  parse_addition fuel expr p =
      and_then (parse_multiplication fuel expr p)
        (more_operands fuel add_op (parse_multiplication fuel expr))

  unfoldable pub parse_in_list : ℕ → (Parser → Parsed Expr) → Parser → Parsed (List Expr)
  parse_in_list fuel expr p = and_then (expect Lexer.l_paren p) (λ _ p1.
      and_then (parse_comma_separated fuel expr p1)
        (λ list p2. and_then (expect Lexer.r_paren p2) (λ _ p3. done list p3)))

  abbrev pub comparison_op : Token → Option BinOp
  comparison_op Lexer.eq = some Ast.eq
  comparison_op Lexer.not_eq = some Ast.not_eq
  comparison_op Lexer.lt = some Ast.lt
  comparison_op Lexer.lt_eq = some Ast.lt_eq
  comparison_op Lexer.gt = some Ast.gt
  comparison_op Lexer.gt_eq = some Ast.gt_eq
  comparison_op _ = none

  -- IS NULL and IS NOT NULL, behind IS.
  abbrev pub null_test : Expr → Parser → Parsed Expr
  null_test l p = elim (at Lexer.not' p) [
    | true ↦ and_then (expect Lexer.null' (advance p)) (λ _ p'. done (Ast.is_not_null l) p')
    | false ↦ and_then (expect Lexer.null' p) (λ _ p'. done (Ast.is_null l) p')
  ]

  abbrev pub like_test : Expr → Bool → Parser → Parsed Expr
  like_test l negated p = and_then (expect_string p) (λ s p'. done (Ast.like l s negated) p')

  -- Behind NOT, which stands after an operand.
  abbrev pub negated_test : ℕ → (Parser → Parsed Expr) → Expr → Token → Parser → Parsed Expr
  negated_test fuel expr l Lexer.in' p =
      and_then (parse_in_list fuel expr (advance p))
        (λ list p'. done (Ast.unary_op Ast.not' (Ast.in_list l (exprs list))) p')
  negated_test fuel expr l Lexer.like p = like_test l true (advance p)
  negated_test fuel expr l _ p = fail (codes "expected IN or LIKE after NOT")

  -- The predicates that begin with a keyword, and an operand alone.
  abbrev pub keyword_test : ℕ → (Parser → Parsed Expr) → Expr → Token → Parser → Parsed Expr
  keyword_test fuel expr l Lexer.is p = null_test l (advance p)
  keyword_test fuel expr l Lexer.between p =
      and_then (parse_addition fuel expr (advance p)) (λ low p1.
        and_then (expect Lexer.and' p1) (λ _ p2.
          and_then (parse_addition fuel expr p2) (λ high p3. done (Ast.between l low high) p3)))
  keyword_test fuel expr l Lexer.not' p = negated_test fuel expr l (advance p).current (advance p)
  keyword_test fuel expr l Lexer.in' p =
      and_then (parse_in_list fuel expr (advance p))
        (λ list p'. done (Ast.in_list l (exprs list)) p')
  keyword_test fuel expr l Lexer.like p = like_test l false (advance p)
  keyword_test fuel expr l _ p = done l p

  abbrev pub after_operand : ℕ → (Parser → Parsed Expr) → Expr → Parser → Parsed Expr
  after_operand fuel expr l p = elim (comparison_op p.current) [
    | some op ↦ and_then (parse_addition fuel expr (advance p)) (λ r p'. done (binary l op r) p')
    | none ↦ keyword_test fuel expr l p.current p
  ]

  unfoldable pub parse_comparison : ℕ → (Parser → Parsed Expr) → Parser → Parsed Expr
  parse_comparison fuel expr p = and_then (parse_addition fuel expr p) (after_operand fuel expr)

  unfoldable pub parse_not : ℕ → (Parser → Parsed Expr) → Parser → Parsed Expr
  parse_not zero expr p = none
  parse_not (suc fuel) expr p = elim (at Lexer.not' p) [
    | true ↦ and_then (parse_not fuel expr (advance p)) (λ e p'. done (Ast.unary_op Ast.not' e) p')
    | false ↦ parse_comparison fuel expr p
  ]

  unfoldable pub parse_and : ℕ → (Parser → Parsed Expr) → Parser → Parsed Expr
  parse_and fuel expr p =
      and_then (parse_not fuel expr p) (more_operands fuel and_op (parse_not fuel expr))

  unfoldable pub parse_or : ℕ → (Parser → Parsed Expr) → Parser → Parsed Expr
  parse_or fuel expr p =
      and_then (parse_and fuel expr p) (more_operands fuel or_op (parse_and fuel expr))

  -- Each expression in parentheses takes a unit of fuel.
  unfoldable pub parse_expr : ℕ → Parser → Parsed Expr
  parse_expr zero p = none
  parse_expr (suc fuel) p = parse_or fuel (parse_expr fuel) p

  -- `AS name`, or a name alone.
  abbrev pub alias_of : Token → Parser → Parsed (Option Bytes)
  alias_of Lexer.as' p = and_then (expect_ident (advance p)) (λ s p'. done (some s) p')
  alias_of (Lexer.ident s) p = and_then (expect_ident p) (λ s p'. done (some s) p')
  alias_of _ p = done none p

  abbrev pub optional_alias : Parser → Parsed (Option Bytes)
  optional_alias p = alias_of p.current p

  unfoldable pub parse_projection : ℕ → Parser → Parsed Projection
  parse_projection fuel p = elim (at Lexer.star p) [
    | true ↦ done Ast.all_columns (advance p)
    | false ↦
        and_then (parse_expr fuel p)
          (λ e p1. and_then (optional_alias p1) (λ alias p2. done (Ast.expression e alias) p2))
  ]

  unfoldable pub parse_table_ref : Parser → Parsed TableRef
  parse_table_ref p = and_then (expect_ident p) (λ name p1.
      and_then (optional_alias p1) (λ alias p2. done (record { name = name; alias = alias }) p2))

  -- The kind of the join that begins here, if one does.
  abbrev pub join_kind : Token → Parser → Parsed (Option JoinKind)
  join_kind Lexer.join p = done (some Ast.inner) (advance p)
  join_kind Lexer.inner p =
      and_then (expect Lexer.join (advance p)) (λ _ p'. done (some Ast.inner) p')
  join_kind Lexer.left p =
      and_then (expect Lexer.join (eat_optional Lexer.inner (advance p)))
        (λ _ p'. done (some Ast.left) p')
  join_kind Lexer.right p =
      and_then (expect Lexer.join (eat_optional Lexer.inner (advance p)))
        (λ _ p'. done (some Ast.right) p')
  join_kind _ p = done none p

  unfoldable pub parse_joins : ℕ → Parser → Parsed (List JoinClause)
  parse_joins zero p = none
  parse_joins (suc fuel) p = and_then (join_kind p.current p) (λ kind p1. elim kind [
    | none ↦ done [] p1
    | some k ↦ and_then (parse_table_ref p1) (λ table p2. and_then (expect Lexer.on p2) (λ _ p3.
        and_then (parse_expr fuel p3) (λ condition p4.
          and_then (parse_joins fuel p4)
            (λ js p5. done (record { kind = k; table = table; condition = condition } ∷ js) p5))))
  ])

  abbrev pub direction : Token → Parser → Bool × Parser
  direction Lexer.asc p = (true, advance p)
  direction Lexer.desc p = (false, advance p)
  direction _ p = (true, p)

  unfoldable pub parse_order_by_item : ℕ → Parser → Parsed OrderByItem
  parse_order_by_item fuel p = and_then (parse_expr fuel p) (λ e p'.
      let (asc, p'') = direction p'.current p' in done (record { expr = e; asc = asc }) p'')

  -- A clause that begins with a keyword, and what stands for it otherwise.
  abbrev pub clause : {A : Type 0} → Token → A → (Parser → Parsed A) → Parser → Parsed A
  clause t default body p = elim (at t p) [ true ↦ body (advance p) | false ↦ done default p ]

  abbrev pub condition : ℕ → Parser → Parsed (Option Expr)
  condition fuel p = and_then (parse_expr fuel p) (λ e p'. done (some e) p')

  abbrev pub by_list : {A : Type 0} → ℕ → (Parser → Parsed A) → Parser → Parsed (List A)
  by_list fuel item p = and_then (expect Lexer.by' p) (λ _ p'. parse_comma_separated fuel item p')

  abbrev pub row_count : Parser → Parsed (Option ℕ)
  row_count p = and_then (expect_int p) (λ n p'. done (some (as_u64 n)) p')

  unfoldable pub parse_select : ℕ → Parser → Parsed SelectStatement
  parse_select fuel p = and_then (expect Lexer.select' p) (λ _ p0.
      and_then (parse_comma_separated fuel (parse_projection fuel) (eat_optional Lexer.distinct p0))
        (λ projections p1. and_then (expect Lexer.from' p1) (λ _ p2.
          and_then (parse_table_ref p2) (λ table p3. and_then (parse_joins fuel p3) (λ joins p4.
            and_then (clause Lexer.where' none (condition fuel) p4) (λ where_ p5.
              and_then (clause Lexer.group [] (by_list fuel (parse_expr fuel)) p5) (λ group_by p6.
                and_then (clause Lexer.having none (condition fuel) p6) (λ having p7.
                  and_then (clause Lexer.order [] (by_list fuel (parse_order_by_item fuel)) p7)
                    (λ order_by p8. and_then (clause Lexer.limit none row_count p8) (λ limit p9.
                      and_then (clause Lexer.offset none row_count p9) (λ offset p10.
                        done
                          (record {
                            projections = projections;
                            from = table;
                            joins = joins;
                            filter = where_;
                            group_by = group_by;
                            having = having;
                            order_by = order_by;
                            limit = limit;
                            offset = offset;
                          })
                          p10)))))))))))

  unfoldable pub parse_statement : ℕ → Parser → Parsed Statement
  parse_statement fuel p = elim (at Lexer.select' p) [
    | true ↦ and_then (parse_select fuel p) (λ sel p'.
        and_then (expect Lexer.eof (eat_optional Lexer.semicolon p'))
          (λ _ p''. done (Ast.select sel) p''))
    | false ↦ fail (codes "expected SELECT, got " ++ debug p.current)
  ]
