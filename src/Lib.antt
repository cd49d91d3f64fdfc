-- ===== src/Lib.antt =====
-- Izel: a compiler for the Izel language, in Rust. This library models parts of it and proves what
-- makes them correct. A definition follows the Rust text arm by arm; a panic is a value (`none`),
-- a loop takes fuel, and a theorem shows that the fuel given is enough.
--
-- The text of a source file goes through the lexer (crates/izel_lexer) and the parser
-- (crates/izel_parser), whose trees are compared by `AlphaEq` and evaluated where they are constant.
-- The parser takes any tokens: what it cannot read stands under error nodes or is skipped. The formatter
-- (crates/izel_fmt) prints its trees. Later the body of a function is a graph of blocks (crates/izel_mir), which passes optimise.
--
-- Lexer: crates/izel_lexer/src. Token is lib.rs; Cursor is cursor.rs and string_reader.rs; Literals,
--   Ident and NextToken are lexer.rs, from `lex_number` to `next_token`. A character is its code
--   point, and the cursor holds the list of characters that are left. Loops over the cursor have a
--   round for each character left and one more. The Unicode predicates of `char` are the parameter
--   `CharTables`; `IsUnicode` states what is documented of them at ASCII. The counter of hashes of a
--   raw string is a natural number: Rust's i32 would overflow only on a run of 2^31 hashes.
-- Parser: crates/izel_parser/src, the parser of lib.rs and expr.rs and the trees of cst.rs. The state is
--   the tokens from `pos` on, `pos` and `condition_expr_depth`; the field `source` is not used by the
--   code. A function that fills a vector of children is an action on the children so far, put together
--   from `bump`, `eat_trivia`, tests on the kind and loops (Parser/Steps). Kinds are compared by the
--   number of their variant, and no list of kinds holds `Eof`. A loop has a round for each token left
--   and one more. The calls that go round through the tree, `Calls`, are taken from one level below, and
--   there is a level for each token and one more: a call reads a token before it makes another. `none` is a run that does
--   not end in these bounds. Parser/Good has a rule for each way to put actions together, and the
--   functions are shown by `search` over the rules; a run there is free to fail where `Stuck` holds,
--   which is the empty type where a function is shown to return.
-- Fmt: crates/izel_fmt/src/formatter.rs. Fmt is the formatter's state and its output, Fmt/Format
--   `format_node`, whose ways to lay out the children of a node are one function each, Fmt/Whole
--   `format_source` behind the loop that collects the tokens. A slice of the source that is out of range
--   or not at a character is a panic, `none`.
-- Resolve: crates/izel_resolve/src/lib.rs, `Scope` alone. A scope is shared through `Arc` and changed
--   behind a lock, so the scopes stand in a store and a reference is a place there; a parent stands in
--   front of its child, which bounds the search. The lock is not taken twice: a scope merged with itself
--   does not return.
-- Span: crates/izel_span/src/lib.rs, without `SourceMap`.
-- Ast: crates/izel_parser/src/ast.rs, the trees of expressions, statements, patterns and types; the
--   items of a module are left out. Ast/Equality and Ast/AlphaEq are the derived and the written
--   comparisons. An `i128` is its bit pattern, below 2^128, and an `f64` its 64 bits.
-- Eval: crates/izel_parser/src/eval.rs. Eval/I128 is the arithmetic of `i128` that it uses, Eval/Run
--   `eval_expr` and `eval_block`. They are structural and take no fuel. The arithmetic of `f64` is the
--   parameter `Floats`.
-- Typeck: crates/izel_typeck/src, the data types of type_system.rs and of lib.rs what works on them: Typeck/State
--   is the state of `TypeChecker` that is used and its scopes, Typeck/Prune `prune` and the occurs checks,
--   Typeck/Effects the sets of effects, Typeck/Schemes `generalize` and `instantiate`, Typeck/Lifetimes the
--   elision of lifetimes, Typeck/Lower `lower_ast_type` and `resolve_assoc_type`, Typeck/Unify `unify`.
--   A map is the list of its entries, the newest first. The targets and aliases of all implementations are
--   one list, in the order in which the code visits them. A chain of bindings is followed for at most 2^n - 1
--   steps, n being the number of bindings, which is enough where they form no cycle. The other walks take
--   fuel for the depth of their calls, and `none` is a lack of it, but `substitute_effects` leaves the set as
--   it is, and Typeck/SchemeFuel shows how much is enough. Typeck/Terms has substitutions over any kind of
--   term, with types and sets of effects as its two instances, Typeck/Coercion what two types that unify
--   have in common, Typeck/HasEffect a reading of `has_effect`, Typeck/Standing, Typeck/Quantified and
--   Typeck/Generalize which variables are quantified, Typeck/NewVars and Typeck/Instance which stand in an
--   instance. Associated types are looked up as the code does, and the theorems on `unify` leave them out: an alias that leads back to itself makes the
--   code recurse without end.
-- Mir: crates/izel_mir/src/lib.rs, with petgraph's graph as the list of its node weights and the
--   function from a node to its successors. Mir/Dce is optim.rs: `Dce::run` and the collectors of used
--   locals. The sweep has a round for each instruction and one more, since each round but the last
--   removes one; the search for reachable blocks has a round for each edge and one for the entry,
--   and one that finds the stack empty. `none` is a lack of fuel. The source gives a body no meaning but by generating code, so
--   Mir/Semantics states one: an interpreter over a machine that gives the values of operators and the
--   effect of calls. A call changes no local but its destination there. Its fuel counts the blocks run;
--   the theorem about it holds at every fuel.
-- Borrow: crates/izel_borrow/src/lib.rs. Borrow/Liveness is `LivenessAnalysis`: sets are lists that are
--   compared by what they contain. A changed round makes some set larger, so the rounds are bounded by the
--   blocks and the uses in them. Borrow/Check is `check_operand`, `check_rvalue` and the loop over the
--   arguments of a call; a message is a constructor with the local it names, and a local that the body
--   does not declare is a panic. The rest of `check_all` and `infer_borrow_regions` is not modelled.
--
-- Not modelled: lowering, the inference of expressions and the checks of items, the regions and zones of the borrow checker, the resolver of modules, code
-- generation through LLVM, and the tools (package manager, documentation, language server).
mod Prelude
pub mod Span
pub mod Lexer
pub mod Parser
pub mod Fmt
pub mod Resolve
pub mod Ast
pub mod Eval
pub mod Typeck
pub mod Mir
pub mod Borrow
