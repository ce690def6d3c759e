-- ===== src/Examples/Linter.antt =====
-- A concrete run of the linter: one literal of a type that has a constructor in another package.
use pulsar_notifcation_pipel.Base.{
  has_prefix, has_suffix, if◌then◌else◌, text_eq, [], ◌∷◌, none, some, true, inl, inr, refl, arith,
  ascii,
}
use pulsar_notifcation_pipel.Linter.Pass.{run_pass_iff, Holds, Occurs}
use pulsar_notifcation_pipel.Linter.Inspection.{
  other_node, run_pass, child, leaf, composite, SourceFile,
}
use pulsar_notifcation_pipel.Linter.{
  pointer, func, named, report, selector, Diagnostic, Literal, Named, Scopes, is_exempt_file,
}
use pulsar_notifcation_pipel.Linter.Rule.{Violates}

abbrev client_type : Named
client_type = record {
  id = 1;
  name = ascii "Client";
  exported = true;
  declaring = some (ascii "m/client");
  is_struct = true;
}

-- The package m/client has a function New that returns a pointer to the type.
abbrev scopes : Scopes
scopes path name =
    if text_eq name (ascii "New")
    then some (func (some (pointer (named client_type) ∷ [])))
    else none

abbrev written : Literal
written = record {
  elts = 1;
  type_expr = selector 10 (some (ascii "client"));
  checked_type = some (named client_type);
}

abbrev source : SourceFile
source = record {
  path = ascii "a.go";
  root = composite written.type_expr written.checked_type leaf (child (other_node leaf) leaf);
}

abbrev finding : Diagnostic
finding = report 10 (some (ascii "client")) (ascii "Client")

written-Violates : Violates scopes (ascii "m/") (ascii "m/app") written finding
unfolding text_eq ascii has_prefix
written-Violates = record {
  not_empty = ground arith;
  position = 10;
  qualifier = some (ascii "client");
  selects = refl;
  built = client_type;
  typed = inl refl;
  struct = refl;
  exported = refl;
  path = ascii "m/client";
  declared = refl;
  in_module = refl;
  elsewhere = ground arith;
  constructor = inr (_, refl, inl (client_type, refl, inr refl));
  says = refl;
}

run_pass_example : Holds finding (run_pass scopes (ascii "m/") (ascii "m/app") (source ∷ []))
unfolding is_exempt_file has_suffix has_prefix ascii Occurs
run_pass_example =
    (run_pass_iff scopes (ascii "m/") (ascii "m/app") (source ∷ []) finding).1
      (written, inl (refl, inl refl), written-Violates)
