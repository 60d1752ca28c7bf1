-- ===== src/Query.antt =====
-- crates/infralens-query: the lexer, the syntax tree, the parser, the planner, the optimizer's rules, the
-- catalog, the evaluator of expressions, the operators, and `execute`, which runs them all.
pub mod Errors
pub mod Ast
pub mod Lexer
pub mod Parser
pub mod Plan
pub mod Planner
pub mod Catalog
pub mod Optimizer
pub mod Functions
pub mod Executor
pub mod Execute
mod Tests
