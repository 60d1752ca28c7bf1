-- ===== src/Query/Functions/Tests.antt =====
-- The evaluator at concrete inputs: kernels that are defined for integers and masks.
use infralens.Prelude.{
  ◌*◌, ◌≡◌, refl, Bool, true, false, Option, none, some, List, [], ◌∷◌, codes, pos, map, length-map,
  replicate, length-replicate, arith, ◌∙◌, leb, abs,
}
use infralens.Query.Ast.{Expr, Exprs, BinOp}
use infralens.Query.Functions.{RecordBatch, done, Kernels, array_len, uint64_array, string_array}
use infralens.Query.Functions.Eval.{eval_expr}
use infralens.Query.Functions.Like.{
  glob_to_regex, simple_like_match, split_wildcards, find, match_parts,
}
use infralens.Query.Functions.Rows.{eval_expr_lem}
use infralens.Query.Functions.Sized.{Holds, IsSized, KernelLaws}

-- Kernels that answer with nulls, one per element.
abbrev nulls : List (Option Bool) → List (Option Bool)
nulls = map (λ o. none)

abbrev null_kernels : Kernels
null_kernels = record {
  type_text = λ a. [];
  compare = λ op l r. done (replicate (array_len l) none);
  and_kernel = λ l r. done (nulls l);
  or_kernel = λ l r. done (nulls l);
  not_kernel = λ m. done (nulls m);
  arithmetic = λ op l r. done l;
  float_of_int = abs;
  float_of_nat = λ n. n;
  float_neg = λ x. x;
  float_sub = λ x y. x;
  float_div = λ x y. x;
  float_le = leb;
  float_round_scaled = λ q n. q * n;
  partial_sort = λ xs. some xs;
}

null_kernels-Laws : KernelLaws null_kernels
null_kernels-Laws = record {
  compare = λ n op l r hl hr. length-replicate (array_len l) none ∙ hl;
  and_kernel = λ n l r hl hr. length-map _ l ∙ hl;
  or_kernel = λ n l r hl hr. length-map _ l ∙ hl;
  not_kernel = λ n m h. length-map _ m ∙ h;
  arithmetic = λ n op l r hl hr. hl;
}

abbrev batch : RecordBatch
batch = record {
  columns =
      (codes "timestamp_ns", uint64_array (some 5 ∷ some 7 ∷ []))
      ∷ (codes "severity", string_array (some (codes "INFO") ∷ none ∷ []))
      ∷ [];
  num_rows = 2;
}

abbrev sample : Expr
sample =
    Expr.bin_op BinOp.and (Expr.like (Expr.column none (codes "severity")) (codes "IN%") false) (
      Expr.in_list (Expr.time_bucket (pos 5) (Expr.column none (codes "timestamp_ns")))
        (Exprs.cons (Expr.column none (codes "timestamp_ns")) Exprs.nil))

eval_expr_lem_example : Holds (IsSized 2) (eval_expr null_kernels (pos 0) batch sample)
eval_expr_lem_example =
    eval_expr_lem null_kernels null_kernels-Laws (pos 0) batch (omega arith) (refl, (refl, tt))
      sample

-- A pattern that begins with a wildcard looks for the first occurrence only, and an underscore stands
-- for a full stop.
like_patterns :
    (simple_like_match (codes "INFO") (glob_to_regex (codes "IN%")) ≡ true)
    × (simple_like_match (codes "aba") (glob_to_regex (codes "%a")) ≡ false)
    × (simple_like_match (codes "ab") (glob_to_regex (codes "a_")) ≡ false)
unfolding simple_like_match glob_to_regex split_wildcards find match_parts
like_patterns = (refl, refl, refl)
