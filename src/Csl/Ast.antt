-- ===== src/Csl/Ast.antt =====
-- crates/sealstack-csl/src/ast.rs and span.rs: expressions, policy rules, types and schemas. A 64-bit
-- integer or float is its bit pattern, a `String` its bytes. `Path` is `DottedPath` here.
use sealstack.Prelude.{ℕ, Bool, Option, List, [], ◌∷◌, ◌++◌}
use sealstack.Bytes.{Bytes, codes, bytes_eq}

pub record Span : Type 0 where
  pub start : ℕ
  pub finish : ℕ

pub record DottedPath : Type 0 where
  pub segments : List Bytes
  pub span : Span

join_from : Bytes → List Bytes → Bytes
join_from first [] = first
join_from first (s ∷ rest) = first ++ (codes "." ++ join_from s rest)

join : List Bytes → Bytes
unfolding join_from
join [] = []
join (s ∷ rest) = join_from s rest

unfoldable pub joined : DottedPath → Bytes
unfolding join
joined path = join path.segments

pub data DurationUnit : Type 0 where
  ns us ms s m h d w mo y : DurationUnit

pub data Literal : Type 0 where
  integer float : ℕ → Literal
  string : Bytes → Literal
  duration : ℕ → DurationUnit → Literal
  boolean : Bool → Literal
  null : Literal

pub data UnaryOp : Type 0 where
  not neg : UnaryOp

pub data BinaryOp : Type 0 where
  eq ne lt le gt ge and or in_set not_in add sub mul div : BinaryOp

mutual
  pub data Expr : Type 0 where
    literal : Literal → Span → Expr
    path : DottedPath → Expr
    unary : UnaryOp → Expr → Span → Expr
    binary : BinaryOp → Expr → Expr → Span → Expr
    call : DottedPath → Exprs → Span → Expr
    list : Exprs → Span → Expr

  pub data Exprs : Type 0 where
    nil : Exprs
    cons : Expr → Exprs → Exprs

pub data Action : Type 0 where
  read list write delete : Action

pub record PolicyRule : Type 0 where
  pub name : Option Bytes
  pub actions : List Action
  pub predicate : Expr
  pub span : Span

pub record PolicyBlock : Type 0 where
  pub rules : List PolicyRule
  pub span : Span

pub data PrimitiveType : Type 0 where
  string text ulid uuid i32 i64 f32 f64 bool instant duration json : PrimitiveType

pub data TypeExpr : Type 0 where
  primitive : PrimitiveType → Span → TypeExpr
  ref named : Bytes → Span → TypeExpr
  list optional : TypeExpr → Span → TypeExpr
  map : TypeExpr → TypeExpr → Span → TypeExpr
  vector : ℕ → Span → TypeExpr

pub record Decorator : Type 0 where
  pub path : DottedPath
  pub args : List Expr
  pub assign : Option Expr
  pub span : Span

-- `Decorator::is`
unfoldable pub is_decorator : Bytes → Decorator → Bool
unfolding joined
is_decorator name dec = bytes_eq (joined dec.path) name

pub record FieldDecl : Type 0 where
  pub name : Bytes
  pub ty : TypeExpr
  pub decorators : List Decorator
  pub span : Span

-- The fields of `SchemaDecl` that the policy generator and the type checker read.
pub record SchemaDecl : Type 0 where
  pub name : Bytes
  pub fields : List FieldDecl
  pub policy : Option PolicyBlock
  pub span : Span

-- The declarations of a file; the type checker looks at no more of these.
pub data TopDecl : Type 0 where
  schema : SchemaDecl → TopDecl
  enum : Bytes → TopDecl
  policy context_profile : TopDecl

pub record File : Type 0 where
  pub namespace : Option DottedPath
  pub decls : List TopDecl
