-- ===== src/Ast.antt =====
-- crates/izel_parser/src/ast.rs: the syntax tree of expressions, patterns and types. A list or an
-- option of a type of the tree is a type of the block. An `i128` is the number of its 128 bits
-- (two's complement), and an `f64` that of its 64 bits.
pub mod Equality
pub mod AlphaEq
pub mod Spans
pub mod Self
pub mod Sound
pub mod Right
pub mod AlphaEqLaws
mod Tests
use izel.Prelude.{ℕ, Bool, Option, List, Text}
use izel.Span.{Span}

pub data Literal : Type 0 where
  int : ℕ → Literal
  float : ℕ → Literal
  str : Text → Literal
  bool : Bool → Literal
  nil : Literal

pub data BinaryOp : Type 0 where
  add sub mul div rem eq ne lt gt le ge : BinaryOp
  and or bit_and bit_or bit_xor shl shr pipeline : BinaryOp

pub data UnaryOp : Type 0 where
  neg not_op bit_not deref : UnaryOp
  ref : Bool → UnaryOp

mutual
  pub data Expr : Type 0 where
    literal : Literal → Expr
    ident : Text → Span → Expr
    binary : BinaryOp → Expr → Expr → Expr
    unary : UnaryOp → Expr → Expr
    call : Expr → Args → Expr
    member : Expr → Text → Span → Expr
    path : List Text → GenericArgs → Expr
    block_expr : Block → Expr
    given : Expr → Block → OptExpr → Expr
    branch : Expr → Arms → Expr
    loop : Block → Expr
    while_loop : Expr → Block → Expr
    each : Text → Expr → Block → Expr
    raw : Expr → Expr
    bind : List Text → Expr → Expr
    struct_literal : AstType → FieldInits → Expr
    return : Expr → Expr
    next break : Expr
    zone : Text → Block → Expr
    cascade : Expr → OptExpr → Expr
    seek : Block → Option Text → OptBlock → Expr
    tide : Expr → Expr
    witness_new : GenericArg → Expr

  pub data OptExpr : Type 0 where
    no_expr : OptExpr
    some_expr : Expr → OptExpr

  pub data Arg : Type 0 where
    arg : Option Text → Expr → Span → Arg

  pub data Args : Type 0 where
    no_args : Args
    args : Arg → Args → Args

  pub data FieldInits : Type 0 where
    no_inits : FieldInits
    inits : Text → Expr → FieldInits → FieldInits

  pub data Block : Type 0 where
    block : Stmts → OptExpr → Span → Block

  pub data OptBlock : Type 0 where
    no_block : OptBlock
    some_block : Block → OptBlock

  pub data Stmt : Type 0 where
    expr_stmt : Expr → Stmt
    let_stmt : Pattern → OptType → OptExpr → Span → Stmt
    assign : Expr → Expr → Span → Stmt

  pub data Stmts : Type 0 where
    no_stmts : Stmts
    stmts : Stmt → Stmts → Stmts

  pub data GenericArg : Type 0 where
    type_arg : AstType → GenericArg
    expr_arg : Expr → GenericArg

  pub data GenericArgs : Type 0 where
    no_generics : GenericArgs
    generics : GenericArg → GenericArgs → GenericArgs

  pub data AstType : Type 0 where
    prim : Text → AstType
    path_type : List Text → GenericArgs → AstType
    optional : AstType → AstType
    cascade_type : AstType → AstType
    pointer : AstType → Bool → AstType
    witness : GenericArg → AstType
    self_type : AstType
    error : AstType
    function : AstTypes → AstType → List Text → AstType

  pub data AstTypes : Type 0 where
    no_types : AstTypes
    types : AstType → AstTypes → AstTypes

  pub data OptType : Type 0 where
    no_type : OptType
    some_type : AstType → OptType

  pub data Arm : Type 0 where
    arm : Pattern → OptExpr → Expr → Span → Arm

  pub data Arms : Type 0 where
    no_arms : Arms
    arms : Arm → Arms → Arms

  pub data Pattern : Type 0 where
    ident_pattern : Text → Bool → Span → Pattern
    variant : Text → Patterns → Pattern
    literal_pattern : Literal → Pattern
    struct_pattern : AstType → FieldPatterns → Pattern
    tuple : Patterns → Pattern
    slice : Patterns → Pattern
    rest : Text → Pattern
    or_pattern : Patterns → Pattern
    wildcard : Pattern

  pub data Patterns : Type 0 where
    no_patterns : Patterns
    patterns : Pattern → Patterns → Patterns

  pub data FieldPatterns : Type 0 where
    no_fields : FieldPatterns
    fields : Text → Pattern → FieldPatterns → FieldPatterns
