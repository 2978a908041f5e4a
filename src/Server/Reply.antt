-- ===== src/Server/Reply.antt =====
-- The shapes and words of replies in reply.rs.
use scry.Prelude.{ℕ, List, ◌==◌, if◌then◌else◌, Option, Bool}
use scry.Format.Kind
use scry.Format.Lang
use scry.Format.Role
use scry.Text.Str.{ascii}

unfoldable pub role_str : ℕ → List ℕ
role_str r =
    if r == Role.decl
    then ascii "decl"
    else if r == Role.def
    then ascii "def"
    else if r == Role.ref
    then ascii "ref"
    else if r == Role.call
    then ascii "call"
    else ascii "?"

unfoldable pub kind_str : ℕ → List ℕ
kind_str k =
    if k == Kind.function
    then ascii "fn"
    else if k == Kind.type
    then ascii "type"
    else if k == Kind.variable
    then ascii "var"
    else if k == Kind.field
    then ascii "field"
    else if k == Kind.package'
    then ascii "pkg"
    else ascii "?"

-- A node of a forest: `parent` is none for a root.
pub record CallNode : Type 0 where
  pub id : ℕ
  pub parent : Option ℕ
  pub hop : ℕ
  pub dir : List ℕ
  pub name : List ℕ
  pub kind : List ℕ
  pub def : Option (List ℕ)

-- `Reply::Callgraph` and `Reply::Inheritance`.
pub record ForestReply : Type 0 where
  pub nodes : List CallNode
  pub total : ℕ
  pub truncated : Bool

unfoldable pub lang_str : ℕ → List ℕ
lang_str l =
    if l == Lang.cxx
    then ascii "cxx"
    else if l == Lang.java
    then ascii "java"
    else if l == Lang.jvm
    then ascii "jvm"
    else if l == Lang.go
    then ascii "go"
    else if l == Lang.proto
    then ascii "proto"
    else if l == Lang.rust
    then ascii "rust"
    else if l == Lang.kotlin
    then ascii "kt"
    else ascii "?"

pub record XrefHit : Type 0 where
  pub role : List ℕ
  pub file : List ℕ
  pub off : ℕ

pub record SymbolGroup : Type 0 where
  pub name : List ℕ
  pub kind : List ℕ
  pub lang : List ℕ
  pub typed : Option (List ℕ)
  pub sig : Option (List ℕ)
  pub rows : List XrefHit

-- `Reply::Xrefs`
pub record XrefsReply : Type 0 where
  pub groups : List SymbolGroup
  pub total : ℕ
  pub truncated : Bool

-- `TypeHit` and `SigHit`: `rendered` is the type or the signature.
pub record RenderedHit : Type 0 where
  pub name : List ℕ
  pub kind : List ℕ
  pub lang : List ℕ
  pub rendered : List ℕ

-- `Reply::Type` and `Reply::Sig`.
pub record RenderedReply : Type 0 where
  pub hits : List RenderedHit
  pub total : ℕ
  pub truncated : Bool

pub record MemberHit : Type 0 where
  pub name : List ℕ
  pub kind : List ℕ
  pub lang : List ℕ
  pub sig : Option (List ℕ)

pub record MembersReply : Type 0 where
  pub container : List ℕ
  pub members : List MemberHit
  pub total : ℕ
  pub truncated : Bool

pub record InhHit : Type 0 where
  pub name : List ℕ
  pub def : Option (List ℕ)

pub record InhReply : Type 0 where
  pub hits : List InhHit
  pub total : ℕ
