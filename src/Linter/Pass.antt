-- ===== src/Linter/Pass.antt =====
-- Every report of tools/funcoptslint/funcoptslint.go, over all files of a pass.
use pulsar_notifcation_pipel.Base.{
  Bool-cases, ◌∙◌, sym, ap, ◌↔◌, ◌++◌, List, [], ◌∷◌, Option, none, some, false, inl, inr, refl,
  ◌≡◌, Text, ◌⊎◌,
}
use pulsar_notifcation_pipel.Linter.Inspection.{
  file_reports, leaf, child, Nodes, inspect_all, other_node, literal_of, composite, inspect,
  reported, run_pass, Node, SourceFile,
}
use pulsar_notifcation_pipel.Linter.{check_literal, is_exempt_file, Diagnostic, Literal, Scopes}
use pulsar_notifcation_pipel.Linter.Literals.{check_literal_iff}
use pulsar_notifcation_pipel.Linter.Rule.{Violates, Any}

abbrev pub Holds : {A : Type 0} → A → List A → Type 0
Holds a = Any (λ x. a ≡ x)

Any-append_left : {A : Type 0} (P : A → Type 0) (xs ys : List A) → Any P xs → Any P (xs ++ ys)
Any-append_left P [] ys h = absurd h
Any-append_left P (x ∷ xs) ys (inl here) = inl here
Any-append_left P (x ∷ xs) ys (inr later) = inr (Any-append_left P xs ys later)

Any-append_right : {A : Type 0} (P : A → Type 0) (xs ys : List A) → Any P ys → Any P (xs ++ ys)
Any-append_right P [] ys h = h
Any-append_right P (x ∷ xs) ys h = inr (Any-append_right P xs ys h)

Any-of_append :
    {A : Type 0} (P : A → Type 0) (xs ys : List A) → Any P (xs ++ ys) → Any P xs ⊎ Any P ys
Any-of_append P [] ys h = inr h
Any-of_append P (x ∷ xs) ys (inl here) = inl (inl here)
Any-of_append P (x ∷ xs) ys (inr later) = elim (Any-of_append P xs ys later) [
  | inl h ↦ inl (inr h)
  | inr h ↦ inr h
]

-- A literal that stands somewhere in a tree.
unfoldable mutual
  pub Occurs : Literal → Node → Type 0
  Occurs l (composite e t type_nodes elements) =
      (l ≡ literal_of e t elements) ⊎ OccursAmong l type_nodes ⊎ OccursAmong l elements
  Occurs l (other_node ns) = OccursAmong l ns

  pub OccursAmong : Literal → Nodes → Type 0
  OccursAmong l leaf = ⊥
  OccursAmong l (child n ns) = Occurs l n ⊎ OccursAmong l ns

module _ (check : Literal → Option Diagnostic) (d : Diagnostic) where
  -- A literal of the tree for which the check gives the diagnostic.
  abbrev pub Found : (Literal → Type 0) → Type 0
  Found P = (l : Literal) × P l × (check l ≡ some d)

  reported_iff : (o : Option Diagnostic) → Holds d (reported o) → o ≡ some d
  reported_iff none h = absurd h
  reported_iff (some x) (inl e) = ap some (sym e)
  reported_iff (some x) (inr h) = absurd h

  mutual
    unfolding inspect Occurs

    inspect_sound : (n : Node) → Holds d (inspect check n) → Found (λ l. Occurs l n)
    inspect_sound (composite e t type_nodes elements) h =
        elim (Any-of_append _ (reported (check (literal_of e t elements))) _ h) [
          | inl here ↦ (literal_of e t elements, inl refl, reported_iff _ here)
          | inr later ↦ elim (Any-of_append _ (inspect_all check type_nodes) _ later) [
            | inl a ↦ let (l, o, f) = inspect_all_sound type_nodes a in (l, inr (inl o), f)
            | inr b ↦ let (l, o, f) = inspect_all_sound elements b in (l, inr (inr o), f)
          ]
        ]
    inspect_sound (other_node ns) h = inspect_all_sound ns h

    inspect_all_sound :
        (ns : Nodes) → Holds d (inspect_all check ns) → Found (λ l. OccursAmong l ns)
    inspect_all_sound leaf h = absurd h
    inspect_all_sound (child n ns) h = elim (Any-of_append _ (inspect check n) _ h) [
      | inl a ↦ let (l, o, f) = inspect_sound n a in (l, inl o, f)
      | inr b ↦ let (l, o, f) = inspect_all_sound ns b in (l, inr o, f)
    ]

  Holds-reported : (l : Literal) → check l ≡ some d → Holds d (reported (check l))
  Holds-reported l e = rw e (inl refl)

  mutual
    unfolding inspect Occurs

    inspect_complete :
        (n : Node) (l : Literal) → Occurs l n → check l ≡ some d → Holds d (inspect check n)
    inspect_complete (composite e t type_nodes elements) l (inl same) f =
        Any-append_left _ _ _ (Holds-reported _ (ap check (sym same) ∙ f))
    inspect_complete (composite e t type_nodes elements) l (inr (inl o)) f =
        Any-append_right _ (reported (check (literal_of e t elements))) _ (
          Any-append_left _ (inspect_all check type_nodes) _
            (inspect_all_complete type_nodes l o f))
    inspect_complete (composite e t type_nodes elements) l (inr (inr o)) f =
        Any-append_right _ (reported (check (literal_of e t elements))) _ (
          Any-append_right _ (inspect_all check type_nodes) _ (inspect_all_complete elements l o f))
    inspect_complete (other_node ns) l o f = inspect_all_complete ns l o f

    inspect_all_complete :
        (ns : Nodes) (l : Literal)
        → OccursAmong l ns
        → check l ≡ some d
        → Holds d (inspect_all check ns)
    inspect_all_complete leaf l o f = absurd o
    inspect_all_complete (child n ns) l (inl o) f =
        Any-append_left _ (inspect check n) _ (inspect_complete n l o f)
    inspect_all_complete (child n ns) l (inr o) f =
        Any-append_right _ (inspect check n) _ (inspect_all_complete ns l o f)

-- A literal of a file that is not exempt.
abbrev pub OccursInFile : Literal → SourceFile → Type 0
OccursInFile l file = (is_exempt_file file.path ≡ false) × Occurs l file.root

file_reports_sound :
    (check : Literal → Option Diagnostic) (d : Diagnostic) (file : SourceFile)
    → Holds d (file_reports check file)
    → Found check d (λ l. OccursInFile l file)
unfolding file_reports
file_reports_sound check d file h = elim (Bool-cases (is_exempt_file file.path)) [
  | inl exempt ↦ absurd (rw exempt at h)
  | inr kept ↦ let (l, o, f) = inspect_sound check d file.root (rw kept at h) in (l, (kept, o), f)
]

file_reports_complete :
    (check : Literal → Option Diagnostic) (d : Diagnostic) (file : SourceFile) (l : Literal)
    → OccursInFile l file
    → check l ≡ some d
    → Holds d (file_reports check file)
unfolding file_reports
file_reports_complete check d file l (kept, o) f =
    rw kept (inspect_complete check d file.root l o f)

module _ (scopes : Scopes) (module_prefix own_path : Text) (d : Diagnostic) where
  run_pass_sound :
      (files : List SourceFile)
      → Holds d (run_pass scopes module_prefix own_path files)
      → (l : Literal) × Any (OccursInFile l) files × Violates scopes module_prefix own_path l d
  unfolding run_pass
  run_pass_sound [] h = absurd h
  run_pass_sound (file ∷ files) h =
      let check = check_literal scopes module_prefix own_path in
      elim (Any-of_append _ (file_reports check file) _ h) [
        | inl a ↦
            let (l, o, f) = file_reports_sound check d file a in
            (l, inl o, (check_literal_iff scopes module_prefix own_path l d).0 f)
        | inr b ↦ let (l, o, v) = run_pass_sound files b in (l, inr o, v)
      ]

  run_pass_complete :
      (files : List SourceFile) (l : Literal)
      → Any (OccursInFile l) files
      → Violates scopes module_prefix own_path l d
      → Holds d (run_pass scopes module_prefix own_path files)
  unfolding run_pass
  run_pass_complete [] l h v = absurd h
  run_pass_complete (file ∷ files) l (inl here) v = Any-append_left _ _ _ (
      file_reports_complete (check_literal scopes module_prefix own_path) d file l here
        ((check_literal_iff scopes module_prefix own_path l d).1 v))
  run_pass_complete (file ∷ files) l (inr later) v =
      Any-append_right _ (file_reports (check_literal scopes module_prefix own_path) file) _
        (run_pass_complete files l later v)

-- A pass reports a diagnostic exactly if a composite literal, at any depth in a file that is not
-- generated and not a test, violates the rule and the diagnostic says so.
pub run_pass_iff :
    (scopes : Scopes) (module_prefix own_path : Text) (files : List SourceFile) (d : Diagnostic)
    → Holds d (run_pass scopes module_prefix own_path files)
      ↔ ((l : Literal) × Any (OccursInFile l) files × Violates scopes module_prefix own_path l d)
run_pass_iff scopes module_prefix own_path files d = (
  run_pass_sound scopes module_prefix own_path d files,
  λ (l, o, v). run_pass_complete scopes module_prefix own_path d files l o v,
)
