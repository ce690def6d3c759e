-- ===== src/Linter/Literals.antt =====
-- Which composite literals tools/funcoptslint/funcoptslint.go reports.
use pulsar_notifcation_pipel.Base.{
  ap, ◌∙◌, ◌==◌, Bool-cases, subst, sym, ◌↔◌, ◌≢◌, ℕ, Option, none, some, true, false, inl, inr,
  refl, arith, ◌≡◌, Text, ◌⊎◌,
}
use pulsar_notifcation_pipel.Linter.{
  other_expr, selector, check_selected, TypeExpr, other_type, Diagnostic, pointer, report, Literal,
  flagged, named, GoType, Named, Scopes, check_literal, check_type, check_typed,
  type_as_named_struct,
}
use pulsar_notifcation_pipel.Linter.Rule.{
  flagged_sound, check_type_sound, has_constructor_iff, flagged_complete, Violates,
}
use mathlib.Core.Option.{some-ne-none}

type_as_named_struct_sound :
    (t : GoType) (n : Named)
    → type_as_named_struct t ≡ some n
    → (n.is_struct ≡ true) × ((some t ≡ some (named n)) ⊎ (some t ≡ some (pointer (named n))))
unfolding type_as_named_struct
type_as_named_struct_sound (named m) n e = (ground arith, inl (ground arith))
type_as_named_struct_sound (pointer (named m)) n e = (ground arith, inr (ground arith))
type_as_named_struct_sound (pointer (pointer t)) n e = absurd (some-ne-none _ (sym e))
type_as_named_struct_sound (pointer other_type) n e = absurd (some-ne-none _ (sym e))
type_as_named_struct_sound other_type n e = absurd (some-ne-none _ (sym e))

-- check_literal on the parts of a literal that is not empty.
check_selected_sound :
    (scopes : Scopes) (module_prefix own_path : Text) (l : Literal) (d : Diagnostic)
    → l.elts ≢ 0
    → (e : TypeExpr) → l.type_expr ≡ e
    → (t : Option GoType) → l.checked_type ≡ t
    → check_selected scopes module_prefix own_path e t ≡ some d
    → Violates scopes module_prefix own_path l d
unfolding check_typed
check_selected_sound scopes module_prefix own_path l d given other_expr expr t known found =
    absurd (some-ne-none _ (sym found))
check_selected_sound scopes module_prefix own_path l d given (selector position qualifier) expr none
      known found =
    absurd (some-ne-none _ (sym found))
check_selected_sound scopes module_prefix own_path l d given (selector position qualifier) expr
      (some t) known found =
    let (n, struct, flag, says) =
      check_type_sound scopes module_prefix own_path position qualifier (type_as_named_struct t) d
        found in
    let (is_struct, shape) = type_as_named_struct_sound t n struct in
    let (path, declared, exported, within, elsewhere, built) =
      flagged_sound scopes module_prefix own_path n n.declaring flag in
    record {
      not_empty = given;
      position = position;
      qualifier = qualifier;
      selects = expr;
      built = n;
      typed = rw known shape;
      struct = is_struct;
      exported = exported;
      path = path;
      declared = declared;
      in_module = within;
      elsewhere = elsewhere;
      constructor = (has_constructor_iff scopes path n).0 built;
      says = says;
    }

check_type_complete :
    (scopes : Scopes) (module_prefix own_path : Text) (position : ℕ) (qualifier : Option Text)
    (n : Named)
    → flagged scopes module_prefix own_path n n.declaring ≡ true
    → check_type scopes module_prefix own_path position qualifier (some n)
      ≡ some (report position qualifier n.name)
unfolding check_type
check_type_complete scopes module_prefix own_path position qualifier n flag = rw flag refl

type_as_named_struct_complete :
    (n : Named)
    → n.is_struct ≡ true
    → (type_as_named_struct (named n) ≡ some n)
      × (type_as_named_struct (pointer (named n)) ≡ some n)
unfolding type_as_named_struct
type_as_named_struct_complete n struct = (ground arith, ground arith)

check_typed_complete :
    (scopes : Scopes) (module_prefix own_path : Text) (position : ℕ) (qualifier : Option Text)
    (n : Named) (t : Option GoType)
    → n.is_struct ≡ true
    → flagged scopes module_prefix own_path n n.declaring ≡ true
    → (t ≡ some (named n)) ⊎ (t ≡ some (pointer (named n)))
    → check_typed scopes module_prefix own_path position qualifier t
      ≡ some (report position qualifier n.name)
unfolding check_typed
check_typed_complete scopes module_prefix own_path position qualifier n t struct flag (inl e) =
    rw (e, (type_as_named_struct_complete n struct).0)
      (check_type_complete scopes module_prefix own_path position qualifier n flag)
check_typed_complete scopes module_prefix own_path position qualifier n t struct flag (inr e) =
    rw (e, (type_as_named_struct_complete n struct).1)
      (check_type_complete scopes module_prefix own_path position qualifier n flag)

check_literal_complete :
    (scopes : Scopes) (module_prefix own_path : Text) (l : Literal) (d : Diagnostic)
    → Violates scopes module_prefix own_path l d
    → check_literal scopes module_prefix own_path l ≡ some d
unfolding check_literal
check_literal_complete scopes module_prefix own_path l d v =
    let flag : flagged scopes module_prefix own_path v.built v.built.declaring ≡ true =
      subst (λ o. flagged scopes module_prefix own_path v.built o ≡ true) (sym v.declared)
        (flagged_complete scopes module_prefix own_path v.built v.path v.exported v.in_module
          v.elsewhere ((has_constructor_iff scopes v.path v.built).1 v.constructor)) in
    let given : (l.elts == 0) ≡ false = ground arith in
    rw (given, v.selects)
      (check_typed_complete scopes module_prefix own_path v.position v.qualifier v.built
          l.checked_type v.struct flag v.typed
        ∙ ap some (sym v.says))

-- A literal is reported exactly if it violates the rule, and with the diagnostic that says so.
pub check_literal_iff :
    (scopes : Scopes) (module_prefix own_path : Text) (l : Literal) (d : Diagnostic)
    → (check_literal scopes module_prefix own_path l ≡ some d)
      ↔ Violates scopes module_prefix own_path l d
unfolding check_literal
check_literal_iff scopes module_prefix own_path l d =
    (sound, check_literal_complete scopes module_prefix own_path l d)
  where
    sound :
        check_literal scopes module_prefix own_path l ≡ some d
        → Violates scopes module_prefix own_path l d
    sound e = elim (Bool-cases (l.elts == 0)) [
      | inl empty ↦ absurd (some-ne-none _ (sym (rw empty at e)))
      | inr given ↦
          check_selected_sound scopes module_prefix own_path l d (ground arith) l.type_expr refl
            l.checked_type refl (rw given at e)
    ]
