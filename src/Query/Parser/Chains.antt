-- ===== src/Query/Parser/Chains.antt =====
-- A chain of differences is read from the left.
use infralens.Prelude.{
  ℕ, zero, suc, ◌<◌, ◌≡◌, refl, ◌∙◌, ap, List, [], ◌∷◌, Bytes, length, arith, ℤ,
}
use infralens.Query.Ast.{Expr, int, literal, bin_op, sub}
use infralens.Query.Lexer
use infralens.Query.Lexer.{Token}
use infralens.Query.Parser.{
  Parser, Parsed, done, and_then, advance, add_op, more_operands, parse_addition,
  parse_multiplication, parse_unary, parse_primary,
}

-- `- n1 - n2 ...` and the end.
abbrev pub differences : List ℤ → Parser
differences [] = record { current = Lexer.eof; rest = [] }
differences (n ∷ ns) =
    let more = differences ns in
    record { current = Lexer.minus; rest = Lexer.int_lit n ∷ more.current ∷ more.rest }

abbrev pub number : ℤ → Parser → Parser
number n p = record { current = Lexer.int_lit n; rest = p.current ∷ p.rest }

-- ((l - n1) - n2) ...
abbrev pub from_left : Expr → List ℤ → Expr
from_left l [] = l
from_left l (n ∷ ns) = from_left (bin_op sub l (literal (int n))) ns

module _ (debug : Token → Bytes) (expr : Parser → Parsed Expr) where
  operand_lem :
      (fuel : ℕ) (n : ℤ) (ns : List ℤ)
      → parse_multiplication debug (suc fuel) expr (number n (differences ns))
        ≡ done (literal (int n)) (differences ns)
  unfolding parse_multiplication parse_unary parse_primary advance
  operand_lem fuel n [] = refl
  operand_lem fuel n (m ∷ ns) = refl

  chain_lem :
      (fuel depth : ℕ) (l : Expr) (ns : List ℤ)
      → length ns < fuel
      → more_operands debug fuel add_op
          (parse_multiplication debug (suc depth) expr)
          l
          (differences ns)
        ≡ done (from_left l ns) (differences [])
  unfolding advance
  chain_lem zero depth l ns h = absurd (omega arith)
  chain_lem (suc fuel) depth l [] h = refl
  chain_lem (suc fuel) depth l (n ∷ ns) h =
      ap
        (λ o. and_then o (λ r p'.
          more_operands debug fuel add_op (parse_multiplication debug (suc depth) expr)
            (bin_op sub l r) p'))
        (operand_lem depth n ns)
      ∙ chain_lem fuel depth (bin_op sub l (literal (int n))) ns (omega arith)

  -- With more fuel than differences, a chain of integers with minus signs between them is parsed
  -- to the end, as the expression that subtracts from the left.
  pub parse_addition-differences :
      (fuel : ℕ) (n : ℤ) (ns : List ℤ)
      → length ns < suc fuel
      → parse_addition debug (suc fuel) expr (number n (differences ns))
        ≡ done (from_left (literal (int n)) ns) (differences [])
  unfolding parse_addition
  parse_addition-differences fuel n ns h =
      ap
        (λ o.
          and_then o
            (more_operands debug (suc fuel) add_op (parse_multiplication debug (suc fuel) expr)))
        (operand_lem fuel n ns)
      ∙ chain_lem (suc fuel) fuel (literal (int n)) ns h
