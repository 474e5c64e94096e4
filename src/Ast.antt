-- ===== src/Ast.antt =====
-- mort/mort_ast.py: the nodes that the parser makes, with the arguments of their constructors. What the
-- checker fills in later (`type`, `is_lit`, resolved names) is no part of them.
use mort.Base.{ℕ, Bool, List, Option, Text}
use mort.Token.{Value}

-- Expressions; the last number of each is its line. `Exprs` and `Inits` are the lists of expressions and
-- of the (field name, expression) pairs of a struct literal.
mutual
  pub data Expr : Type 0 where
    int_lit float_lit char_lit : Value → ℕ → Expr
    null_lit : ℕ → Expr
    bool_lit : Bool → ℕ → Expr
    str_lit : Value → ℕ → Expr
    var : Text → ℕ → Expr
    unary : Text → Expr → ℕ → Expr
    binary : Text → Expr → Expr → ℕ → Expr
    call : Text → Exprs → ℕ → List Text → Expr
    cast : Expr → Text → ℕ → Expr
    try : Expr → ℕ → Expr
    move : Expr → ℕ → Expr
    struct_lit : Text → Inits → ℕ → Expr
    tuple_lit : Exprs → ℕ → Expr
    field_access : Expr → Text → ℕ → Expr
    array_lit : Exprs → ℕ → Expr
    array_repeat : Expr → Value → ℕ → Expr
    index : Expr → Expr → ℕ → Expr

  pub data Exprs : Type 0 where
    no_exprs : Exprs
    more_exprs : Expr → Exprs → Exprs

  pub data Inits : Type 0 where
    no_inits : Inits
    more_inits : Text → Expr → Inits → Inits

-- Statements. The `else` of an `if` is nothing, a block, or another `if`; a pattern that is missing is
-- the wildcard arm.
mutual
  pub data Stmt : Type 0 where
    let_stmt : Text → Option Text → Expr → ℕ → Bool → Stmt
    assign : Expr → Expr → ℕ → Text → Stmt
    return : Option Expr → ℕ → Stmt
    if_stmt : Expr → Stmt → Else → ℕ → Stmt
    while : Expr → Stmt → ℕ → Stmt
    for : Text → Option Text → Expr → Expr → Stmt → ℕ → Bool → Stmt
    block : Stmts → ℕ → Stmt
    expr_stmt : Expr → ℕ → Stmt
    asm : Value → ℕ → Stmt
    break continue : ℕ → Stmt
    defer : Expr → ℕ → Stmt
    match_stmt : Expr → Arms → ℕ → Stmt

  pub data Else : Type 0 where
    no_else : Else
    else_stmt : Stmt → Else

  pub data Stmts : Type 0 where
    no_stmts : Stmts
    more_stmts : Stmt → Stmts → Stmts

  pub data Arms : Type 0 where
    no_arms : Arms
    more_arms : Option Expr → Stmt → ℕ → Arms → Arms

pub record Param : Type 0 where
  pub name : Text
  pub typ : Text

pub record StructField : Type 0 where
  pub name : Text
  pub typ : Text

pub record StructDecl : Type 0 where
  pub name : Text
  pub fields : List StructField
  pub line : ℕ
  pub generic_params : List Text
  pub resource : Bool

pub record TypeAliasDecl : Type 0 where
  pub name : Text
  pub target : Text
  pub line : ℕ

pub record FnDecl : Type 0 where
  pub name : Text
  pub params : List Param
  pub ret : Text
  pub body : Stmt
  pub line : ℕ
  pub generic_params : List Text
  pub public : Bool

pub record EnumVariant : Type 0 where
  pub name : Text
  pub payload_types : List Text

pub record EnumDecl : Type 0 where
  pub name : Text
  pub variants : List EnumVariant
  pub line : ℕ
  pub generic_params : List Text

pub record ExternFnDecl : Type 0 where
  pub name : Text
  pub params : List Param
  pub ret : Text
  pub line : ℕ

pub record TestDecl : Type 0 where
  pub name : Value
  pub body : Stmt
  pub line : ℕ

pub record ImportDecl : Type 0 where
  pub parts : List Text
  pub line : ℕ
  pub alias : Option Text

pub record Program : Type 0 where
  pub funcs : List FnDecl
  pub structs : List StructDecl
  pub globals : List Stmt
  pub externs : List ExternFnDecl
  pub imports : List ImportDecl
  pub enums : List EnumDecl
  pub tests : List TestDecl
  pub module_name : Option Text
  pub aliases : List TypeAliasDecl
