-- ===== src/Linter.antt =====
-- tools/funcoptslint/funcoptslint.go: the analyzer for the functional-options rule.
pub mod Inspection
pub mod Rule
pub mod Literals
pub mod Pass
use pulsar_notifcation_pipel.Base.{
  text_eq, not, has_prefix, has_suffix, if◌then◌else◌, ◌&&◌, ◌++◌, ◌==◌, ◌||◌, ℕ, List, [], ◌∷◌,
  Option, none, some, Bool, false, Text, ascii,
}

-- A named type of go/types: `id` tells it from others, as its pointer does; `package` is the path of
-- the package that declares it, none for a type of the universe.
pub record Named : Type 0 where
  pub id : ℕ
  pub name : Text
  pub exported : Bool
  pub declaring : Option Text
  pub is_struct : Bool

pub data GoType : Type 0 where
  pointer : GoType → GoType
  named : Named → GoType
  other_type : GoType

-- An object in a package's scope: a function with the results of its signature, or another one.
pub data Object : Type 0 where
  func : Option (List GoType) → Object
  other_object : Object

-- The scopes of the packages, by path and name.
abbrev pub Scopes : Type 0
Scopes = Text → Text → Option Object

-- The type expression of a composite literal: a selector at a position, with its left part where
-- that is an identifier, or something else.
pub data TypeExpr : Type 0 where
  selector : (position : ℕ) (qualifier : Option Text) → TypeExpr
  other_expr : TypeExpr

-- What `run` reads of a composite literal; the type is what the type checker knows of it.
pub record Literal : Type 0 where
  pub elts : ℕ
  pub type_expr : TypeExpr
  pub checked_type : Option GoType

pub record Diagnostic : Type 0 where
  pub position : ℕ
  pub message : Text

-- A pointer is looked through once.
abbrev pub pointed : GoType → GoType
pointed (pointer t) = t
pointed (named n) = named n
pointed other_type = other_type

abbrev pub named_struct : GoType → Option Named
named_struct (named n) = if n.is_struct then some n else none
named_struct (pointer t) = none
named_struct other_type = none

-- typeAsNamedStruct
unfoldable pub type_as_named_struct : GoType → Option Named
type_as_named_struct t = named_struct (pointed t)

-- `rt == named`, after the pointer is looked through.
abbrev pub is_type : Named → GoType → Bool
is_type n (named m) = m.id == n.id
is_type n (pointer t) = false
is_type n other_type = false

unfoldable pub returns_named : Named → List GoType → Bool
returns_named n [] = false
returns_named n (t ∷ results) = is_type n (pointed t) || returns_named n results

abbrev pub constructs : Named → Option Object → Bool
constructs n none = false
constructs n (some other_object) = false
constructs n (some (func none)) = false
constructs n (some (func (some results))) = returns_named n results

-- hasConstructor, for the package at a path.
unfoldable pub has_constructor : Scopes → Text → Named → Bool
has_constructor scopes path n =
    constructs n (scopes path (ascii "New" ++ n.name)) || constructs n (scopes path (ascii "New"))

-- selectorPkgName
abbrev pub selector_pkg_name : Option Text → Text
selector_pkg_name none = ascii "pkg"
selector_pkg_name (some x) = x

-- The report on a literal whose type has the given name.
abbrev pub report : ℕ → Option Text → Text → Diagnostic
report position qualifier name = record {
  position = position;
  message =
      ascii "construct "
      ++ (name
          ++ (ascii " via "
              ++ (selector_pkg_name qualifier
                  ++ (ascii ".New"
                      ++ (name
                          ++ ascii
                              " (functional options); direct composite literal violates Constitution Principle II")))));
}

-- isExemptFile
unfoldable pub is_exempt_file : Text → Bool
is_exempt_file path =
    has_suffix path (ascii "_test.go")
    || has_suffix path (ascii ".gen.go")
    || has_suffix path (ascii ".pb.go")

-- The pass: the scopes, the module prefix and the path of the package under analysis.
module _ (scopes : Scopes) (module_prefix own_path : Text) where
  -- The tests on the type, from `Exported` on.
  unfoldable pub flagged : Named → Option Text → Bool
  flagged n none = false
  flagged n (some path) =
      n.exported
      && has_prefix path module_prefix
      && not (text_eq path own_path)
      && has_constructor scopes path n

  unfoldable pub check_type : ℕ → Option Text → Option Named → Option Diagnostic
  check_type position qualifier none = none
  check_type position qualifier (some n) =
      if flagged n n.declaring then some (report position qualifier n.name) else none

  unfoldable pub check_typed : ℕ → Option Text → Option GoType → Option Diagnostic
  check_typed position qualifier none = none
  check_typed position qualifier (some t) = check_type position qualifier (type_as_named_struct t)

  abbrev pub check_selected : TypeExpr → Option GoType → Option Diagnostic
  check_selected other_expr t = none
  check_selected (selector position qualifier) t = check_typed position qualifier t

  -- The function that `run` gives to ast.Inspect, on a composite literal.
  unfoldable pub check_literal : Literal → Option Diagnostic
  check_literal l = if l.elts == 0 then none else check_selected l.type_expr l.checked_type
