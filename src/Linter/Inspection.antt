-- ===== src/Linter/Inspection.antt =====
-- ast.Inspect in tools/funcoptslint/funcoptslint.go: every node of every file that is not exempt, a
-- node before its children.
use pulsar_notifcation_pipel.Base.{
  if◌then◌else◌, ◌++◌, ℕ, suc, List, [], ◌∷◌, Option, none, some, Text,
}
use pulsar_notifcation_pipel.Linter.{
  check_literal, is_exempt_file, GoType, Diagnostic, Literal, Scopes, TypeExpr,
}

-- A syntax tree, as far as the analyzer tells nodes apart. A literal's children are those of its
-- type expression and its elements.
mutual
  pub data Node : Type 0 where
    composite : TypeExpr → Option GoType → (type_nodes elements : Nodes) → Node
    other_node : Nodes → Node

  pub data Nodes : Type 0 where
    leaf : Nodes
    child : Node → Nodes → Nodes

pub record SourceFile : Type 0 where
  pub path : Text
  pub root : Node

abbrev pub count_nodes : Nodes → ℕ
count_nodes leaf = 0
count_nodes (child n ns) = suc (count_nodes ns)

abbrev pub literal_of : TypeExpr → Option GoType → Nodes → Literal
literal_of e t elements = record { elts = count_nodes elements; type_expr = e; checked_type = t }

abbrev pub reported : Option Diagnostic → List Diagnostic
reported none = []
reported (some d) = d ∷ []

module _ (check : Literal → Option Diagnostic) where
  unfoldable mutual
    pub inspect : Node → List Diagnostic
    inspect (composite e t type_nodes elements) =
        reported (check (literal_of e t elements))
        ++ (inspect_all type_nodes ++ inspect_all elements)
    inspect (other_node ns) = inspect_all ns

    pub inspect_all : Nodes → List Diagnostic
    inspect_all leaf = []
    inspect_all (child n ns) = inspect n ++ inspect_all ns

-- One round of the loop of `run`.
unfoldable pub file_reports : (Literal → Option Diagnostic) → SourceFile → List Diagnostic
file_reports check file = if is_exempt_file file.path then [] else inspect check file.root

-- run
unfoldable pub run_pass :
    (scopes : Scopes) (module_prefix own_path : Text) → List SourceFile → List Diagnostic
run_pass scopes module_prefix own_path [] = []
run_pass scopes module_prefix own_path (file ∷ files) =
    file_reports (check_literal scopes module_prefix own_path) file
    ++ run_pass scopes module_prefix own_path files
