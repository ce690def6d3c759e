-- ===== src/Linter/Rule.antt =====
-- What tools/funcoptslint/funcoptslint.go reports, against the rule that it enforces.
use pulsar_notifcation_pipel.Base.{
  Bool-cases, text_eq_iff, sym, none, ◌++◌, has_prefix, ◌↔◌, ◌≢◌, ℕ, List, [], ◌∷◌, Option, some,
  true, inl, inr, refl, arith, ◌≡◌, Text, ascii, ◌⊎◌,
}
use pulsar_notifcation_pipel.Linter.{
  check_type, other_object, Object, constructs, flagged, has_constructor, returns_named, report,
  other_type, selector, pointed, pointer, Diagnostic, func, is_type, named, GoType, Literal, Named,
  Scopes,
}
use mathlib.Core.Option.{some-ne-none}
use mathlib.Core.Bool.{true≢false}

abbrev pub Any : {A : Type 0} → (A → Type 0) → List A → Type 0
Any P [] = ⊥
Any P (x ∷ xs) = P x ⊎ Any P xs

-- A result of the type itself, or of a pointer to it.
abbrev pub IsResult : Named → GoType → Type 0
IsResult n t = (m : Named) × (m.id ≡ n.id) × ((t ≡ named m) ⊎ (t ≡ pointer (named m)))

-- The package at the path has a function of that name with such a result.
abbrev pub HasFunction : Scopes → Text → Named → Text → Type 0
HasFunction scopes path n name =
    (results : List GoType) × (scopes path name ≡ some (func (some results)))
    × Any (IsResult n) results

-- The literal violates the rule, and the diagnostic says so at its selector.
pub record Violates (scopes : Scopes) (module_prefix own_path : Text) (l : Literal) (d : Diagnostic)
    : Type 0 where
  pub not_empty : l.elts ≢ 0
  pub position : ℕ
  pub qualifier : Option Text
  pub selects : l.type_expr ≡ selector position qualifier
  pub built : Named
  pub typed :
      (l.checked_type ≡ some (named built)) ⊎ (l.checked_type ≡ some (pointer (named built)))
  pub struct : built.is_struct ≡ true
  pub exported : built.exported ≡ true
  pub path : Text
  pub declared : built.declaring ≡ some path
  pub in_module : has_prefix path module_prefix ≡ true
  pub elsewhere : path ≢ own_path
  pub constructor :
      HasFunction scopes path built (ascii "New" ++ built.name)
      ⊎ HasFunction scopes path built (ascii "New")
  pub says : d ≡ report position qualifier built.name

is_type_sound : (n : Named) (t : GoType) → is_type n (pointed t) ≡ true → IsResult n t
is_type_sound n (named m) e = (m, ground arith, inl refl)
is_type_sound n (pointer (named m)) e = (m, ground arith, inr refl)
is_type_sound n (pointer (pointer t)) e = absurd (true≢false (sym e))
is_type_sound n (pointer other_type) e = absurd (true≢false (sym e))
is_type_sound n other_type e = absurd (true≢false (sym e))

is_type_complete : (n : Named) (t : GoType) → IsResult n t → is_type n (pointed t) ≡ true
is_type_complete n t (m, same, inl e) = rw e (ground arith)
is_type_complete n t (m, same, inr e) = rw e (ground arith)

returns_named_sound :
    (n : Named) (results : List GoType) → returns_named n results ≡ true → Any (IsResult n) results
unfolding returns_named
returns_named_sound n [] e = absurd (true≢false (sym e))
returns_named_sound n (t ∷ results) e = elim (Bool-cases (is_type n (pointed t))) [
  | inl here ↦ inl (is_type_sound n t here)
  | inr later ↦ inr (returns_named_sound n results (ground arith))
]

returns_named_complete :
    (n : Named) (results : List GoType) → Any (IsResult n) results → returns_named n results ≡ true
unfolding returns_named
returns_named_complete n [] h = absurd h
returns_named_complete n (t ∷ results) (inl here) =
    let e = is_type_complete n t here in ground arith
returns_named_complete n (t ∷ results) (inr later) =
    let e = returns_named_complete n results later in ground arith

module _ (scopes : Scopes) (path : Text) (n : Named) where
  constructs_sound :
      (name : Text) → constructs n (scopes path name) ≡ true → HasFunction scopes path n name
  constructs_sound name = go (scopes path name) refl
    where
      go :
          (o : Option Object)
          → scopes path name ≡ o
          → constructs n o ≡ true
          → HasFunction scopes path n name
      go none same e = absurd (true≢false (sym e))
      go (some other_object) same e = absurd (true≢false (sym e))
      go (some (func none)) same e = absurd (true≢false (sym e))
      go (some (func (some results))) same e = (results, same, returns_named_sound n results e)

  constructs_complete :
      (name : Text) → HasFunction scopes path n name → constructs n (scopes path name) ≡ true
  constructs_complete name (results, same, h) = rw same (returns_named_complete n results h)

  pub has_constructor_iff : (has_constructor scopes path n ≡ true) ↔ (
      HasFunction scopes path n (ascii "New" ++ n.name) ⊎ HasFunction scopes path n (ascii "New"))
  unfolding has_constructor
  has_constructor_iff = (sound, complete)
    where
      sound :
          has_constructor scopes path n ≡ true
          → HasFunction scopes path n (ascii "New" ++ n.name)
            ⊎ HasFunction scopes path n (ascii "New")
      sound e = elim (Bool-cases (constructs n (scopes path (ascii "New" ++ n.name)))) [
        | inl here ↦ inl (constructs_sound _ here)
        | inr later ↦ inr (constructs_sound _ (ground arith))
      ]

      complete :
          HasFunction scopes path n (ascii "New" ++ n.name)
            ⊎ HasFunction scopes path n (ascii "New")
          → has_constructor scopes path n ≡ true
      complete (inl h) = let e = constructs_complete _ h in ground arith
      complete (inr h) = let e = constructs_complete _ h in ground arith

module _ (scopes : Scopes) (module_prefix own_path : Text) where
  pub flagged_sound :
      (n : Named) (declared : Option Text)
      → flagged scopes module_prefix own_path n declared ≡ true
      → (path : Text) × (declared ≡ some path)
        × (n.exported ≡ true)
        × (has_prefix path module_prefix ≡ true)
        × (path ≢ own_path)
        × (has_constructor scopes path n ≡ true)
  unfolding flagged
  flagged_sound n none e = absurd (true≢false (sym e))
  flagged_sound n (some path) e = (
    path,
    refl,
    ground arith,
    ground arith,
    ground (arith, text_eq_iff path own_path),
    ground arith,
  )

  pub flagged_complete :
      (n : Named) (path : Text)
      → n.exported ≡ true
      → has_prefix path module_prefix ≡ true
      → path ≢ own_path
      → has_constructor scopes path n ≡ true
      → flagged scopes module_prefix own_path n (some path) ≡ true
  unfolding flagged
  flagged_complete n path exported within elsewhere built =
      ground (arith, text_eq_iff path own_path)

  pub check_type_sound :
      (position : ℕ) (qualifier : Option Text) (o : Option Named) (d : Diagnostic)
      → check_type scopes module_prefix own_path position qualifier o ≡ some d
      → (n : Named) × (o ≡ some n)
        × (flagged scopes module_prefix own_path n n.declaring ≡ true)
        × (d ≡ report position qualifier n.name)
  unfolding check_type
  check_type_sound position qualifier none d e = absurd (some-ne-none _ (sym e))
  check_type_sound position qualifier (some n) d e =
      elim (Bool-cases (flagged scopes module_prefix own_path n n.declaring)) [
        | inl yes_flagged ↦ (n, refl, yes_flagged, ground arith)
        | inr not_flagged ↦ absurd (some-ne-none _ (sym (rw not_flagged at e)))
      ]
