-- ===== src/Check/Rules/Fits.antt =====
-- internal/application/commands/internal/schemarules/rules.go: a value has no issues exactly if it fits the rules.
use spec_cli.Common.{
  ℕ, ◌≤◌, String, ◌≡◌, refl, sym, subst, Bool, true, false, not, Option, none, some, List, [], ◌∷◌,
  ◌↔◌, arith, all, any, All, length,
}
use spec_cli.Common.{◌==◌, string_eq, if◌then◌else◌}
use spec_cli.Values.{
  Scalars, Value, null, bool, num, time, str, list, object, Items, items, normalize_value,
}
use spec_cli.Values.Entries.{literal_equal}
use spec_cli.Check.Rules.{
  Evaluated, evaluated, eval_error, RuleValue, FieldRules, unless, has_type, is_value_of_type,
  repeated, at_least, at_most, all_of_type, resolve_rule, resolve_all, type_mismatch, not_unique,
  unique_issues, array_issues, expected_kind, kind_issues, array_type_issues, type_issues,
  enum_issues, enum_issues_of, const_issues, const_issues_of, check_value,
}
use spec_cli.Check.Nil.{and_iff, not_or_iff, unless-nil_iff, both-nil, ↔-both, ◌⟶◌}

evaluated-injective : {A : Type 0} {a b : A} → evaluated a ≡ evaluated b → a ≡ b
evaluated-injective h = cc

module _ {S : Scalars} where
  -- No item equals one before it.
  abbrev pub AllApart : List (Value S) → Type 0
  AllApart [] = Unit {0}
  AllApart (v ∷ vs) = All (λ w. literal_equal v w ≡ false) vs × AllApart vs

  abbrev pub AtLeast : Option ℕ → List (Value S) → Type 0
  AtLeast none vs = Unit {0}
  AtLeast (some n) vs = n ≤ length vs

  abbrev pub AtMost : Option ℕ → List (Value S) → Type 0
  AtMost none vs = Unit {0}
  AtMost (some n) vs = length vs ≤ n

  abbrev pub AllOfType : Option String → List (Value S) → Type 0
  AllOfType none vs = Unit {0}
  AllOfType (some kind) vs = All (λ v. is_value_of_type v kind ≡ true) vs

  abbrev pub ApartIf : Bool → List (Value S) → Type 0
  ApartIf false vs = Unit {0}
  ApartIf true vs = AllApart vs

  -- A list of the bounds, the uniqueness and the item type that the rules ask for.
  abbrev pub FitsArray : {Expr Template : Type 0} → FieldRules S Expr Template → Value S → Type 0
  FitsArray rules (list vs) =
      AtLeast rules.min_items (items vs)
      × (AtMost rules.max_items (items vs)
          × (ApartIf rules.unique_items (items vs) × AllOfType rules.item_type (items vs)))
  FitsArray rules null = ⊥
  FitsArray rules (bool _) = ⊥
  FitsArray rules (num _) = ⊥
  FitsArray rules (time _) = ⊥
  FitsArray rules (str _) = ⊥
  FitsArray rules (object _) = ⊥

  at_least_iff : (o : Option ℕ) (vs : List (Value S)) → (at_least o vs ≡ true) ↔ AtLeast o vs
  at_least_iff none vs = (λ _. tt, λ _. refl)
  at_least_iff (some n) vs = (λ h. ground arith, λ h. ground arith)

  at_most_iff : (o : Option ℕ) (vs : List (Value S)) → (at_most o vs ≡ true) ↔ AtMost o vs
  at_most_iff none vs = (λ _. tt, λ _. refl)
  at_most_iff (some n) vs = (λ h. ground arith, λ h. ground arith)

  all_iff :
      (p : Value S → Bool) (vs : List (Value S)) → (all p vs ≡ true) ↔ All (λ v. p v ≡ true) vs
  all_iff p [] = (λ _. tt, λ _. refl)
  all_iff p (v ∷ vs) = and_iff (p v) (all p vs) ⟶ ↔-both (λ h. h, λ h. h) (all_iff p vs)

  all_of_type_iff :
      (o : Option String) (vs : List (Value S)) → (all_of_type o vs ≡ true) ↔ AllOfType o vs
  all_of_type_iff none vs = (λ _. tt, λ _. refl)
  all_of_type_iff (some kind) vs = all_iff (λ v. is_value_of_type v kind) vs

  repeated_iff :
      (v : Value S) (vs : List (Value S))
      → (not (repeated v vs) ≡ true) ↔ All (λ w. literal_equal v w ≡ false) vs
  repeated_iff v [] = (λ _. tt, λ _. refl)
  repeated_iff v (w ∷ vs) =
      not_or_iff (literal_equal v w) (repeated v vs) ⟶ ↔-both (λ h. h, λ h. h) (repeated_iff v vs)

  module _ {Expr Template : Type 0} (eval : Expr → Evaluated (Value S))
      (render : Template → Evaluated String) (rules : FieldRules S Expr Template) where
    unique_issues-nil_iff :
        (vs : List (Value S)) → (unique_issues eval render rules vs ≡ []) ↔ AllApart vs
    unfolding unique_issues
    unique_issues-nil_iff [] = (λ _. tt, λ _. refl)
    unique_issues-nil_iff (v ∷ vs) =
        both-nil (unless (not (repeated v vs)) (not_unique eval render rules))
          (unique_issues eval render rules vs)
          (unless-nil_iff (not (repeated v vs)) (not_unique eval render rules) ⟶ repeated_iff v vs)
          (unique_issues-nil_iff vs)

    unique_if_iff :
        (b : Bool) (vs : List (Value S))
        → ((if b then unique_issues eval render rules vs else []) ≡ []) ↔ ApartIf b vs
    unique_if_iff true vs = unique_issues-nil_iff vs
    unique_if_iff false vs = (λ _. tt, λ _. refl)

    array_issues-nil_iff :
        (v : Items S) → (array_issues eval render rules (items v) ≡ []) ↔ FitsArray rules (list v)
    unfolding array_issues
    array_issues-nil_iff v =
        let vs = items v in
        both-nil _ _
          (unless-nil_iff (at_least rules.min_items vs) _ ⟶ at_least_iff rules.min_items vs)
          (both-nil _ _
            (unless-nil_iff (at_most rules.max_items vs) _ ⟶ at_most_iff rules.max_items vs)
            (both-nil (if rules.unique_items then unique_issues eval render rules vs else []) _
              (unique_if_iff rules.unique_items vs)
              (unless-nil_iff (all_of_type rules.item_type vs) _
                ⟶ all_of_type_iff rules.item_type vs)))

    array_type_issues-nil_iff :
        (v : Value S) → (array_type_issues eval render rules v ≡ []) ↔ FitsArray rules v
    unfolding array_type_issues
    array_type_issues-nil_iff (list vs) = array_issues-nil_iff vs
    array_type_issues-nil_iff null = (λ h. cc, λ h. absurd h)
    array_type_issues-nil_iff (bool _) = (λ h. cc, λ h. absurd h)
    array_type_issues-nil_iff (num _) = (λ h. cc, λ h. absurd h)
    array_type_issues-nil_iff (time _) = (λ h. cc, λ h. absurd h)
    array_type_issues-nil_iff (str _) = (λ h. cc, λ h. absurd h)
    array_type_issues-nil_iff (object _) = (λ h. cc, λ h. absurd h)

    abbrev pub KindIf : Option String → Value S → Type 0
    KindIf none v = Unit {0}
    KindIf (some _) v = has_type rules.field_type v ≡ true

    kind_issues-nil_iff :
        (o : Option String) (v : Value S) → (kind_issues eval render rules o v ≡ []) ↔ KindIf o v
    unfolding kind_issues
    kind_issues-nil_iff none v = (λ _. tt, λ _. refl)
    kind_issues-nil_iff (some expected) v =
        unless-nil_iff (has_type rules.field_type v) (type_mismatch eval render rules expected)

    abbrev pub FitsIf : Bool → Value S → Type 0
    FitsIf true v = FitsArray rules v
    FitsIf false v = KindIf (expected_kind eval render rules rules.field_type) v

    -- The value has the type of the field, where the type is one that is checked.
    abbrev pub FitsType : Value S → Type 0
    FitsType v = FitsIf (rules.field_type == "array") v

    type_if_iff :
        (b : Bool) (v : Value S)
        → ((if b
              then array_type_issues eval render rules v
              else kind_issues eval render rules
                  (expected_kind eval render rules rules.field_type)
                  v)
            ≡ [])
          ↔ FitsIf b v
    type_if_iff true v = array_type_issues-nil_iff v
    type_if_iff false v = kind_issues-nil_iff (expected_kind eval render rules rules.field_type) v

    type_issues-nil_iff : (v : Value S) → (type_issues eval render rules v ≡ []) ↔ FitsType v
    unfolding type_issues
    type_issues-nil_iff v = type_if_iff (rules.field_type == "array") v

    -- The enumeration can be evaluated, and one of its values counts as the value.
    abbrev pub InEnum : List (RuleValue S Template) → Value S → Type 0
    InEnum [] v = Unit {0}
    InEnum (r ∷ rs) v =
        (vs : List (Value S)) × (resolve_all eval render (r ∷ rs) ≡ evaluated vs)
        × (any (λ w. literal_equal w v) vs ≡ true)

    -- The constant can be evaluated, and counts as the value.
    abbrev pub IsConst : Option (RuleValue S Template) → Value S → Type 0
    IsConst none v = Unit {0}
    IsConst (some r) v =
        (w : Value S) × (resolve_rule eval render r ≡ evaluated w) × (literal_equal w v ≡ true)

    enum_issues_of_iff :
        (e : Evaluated (List (Value S))) (v : Value S)
        → (enum_issues_of eval render rules e v ≡ [])
          ↔ ((vs : List (Value S)) × (e ≡ evaluated vs) × (any (λ w. literal_equal w v) vs ≡ true))
    unfolding enum_issues_of
    enum_issues_of_iff (eval_error m) v = (λ h. cc, λ (_, h, _). cc)
    enum_issues_of_iff (evaluated vs) v = unless-nil_iff (any (λ w. literal_equal w v) vs) _ ⟶ (
      λ h. (vs, refl, h),
      λ (ws, same, h).
          subst (λ us. any (λ w. literal_equal w v) us ≡ true) (sym (evaluated-injective same)) h,
    )

    const_issues_of_iff :
        (e : Evaluated (Value S)) (v : Value S)
        → (const_issues_of eval render rules e v ≡ [])
          ↔ ((w : Value S) × (e ≡ evaluated w) × (literal_equal w v ≡ true))
    unfolding const_issues_of
    const_issues_of_iff (eval_error m) v = (λ h. cc, λ (_, h, _). cc)
    const_issues_of_iff (evaluated u) v = unless-nil_iff (literal_equal u v) _ ⟶ (
      λ h. (u, refl, h),
      λ (w, same, h). subst (λ x. literal_equal x v ≡ true) (sym (evaluated-injective same)) h,
    )

    enum_issues-nil_iff :
        (rs : List (RuleValue S Template)) (v : Value S)
        → (enum_issues eval render rules rs v ≡ []) ↔ InEnum rs v
    enum_issues-nil_iff [] v = (λ _. tt, λ _. refl)
    enum_issues-nil_iff (r ∷ rs) v = enum_issues_of_iff (resolve_all eval render (r ∷ rs)) v

    const_issues-nil_iff :
        (r : Option (RuleValue S Template)) (v : Value S)
        → (const_issues eval render rules r v ≡ []) ↔ IsConst r v
    const_issues-nil_iff none v = (λ _. tt, λ _. refl)
    const_issues-nil_iff (some r) v = const_issues_of_iff (resolve_rule eval render r) v

    -- The value, dates as texts, fits the rules of its field.
    abbrev pub Fits : Value S → Type 0
    Fits raw =
        FitsType (normalize_value raw)
        × (InEnum rules.enum (normalize_value raw) × IsConst rules.const (normalize_value raw))

    -- A value has no issues exactly if it fits the rules: it has the type, an array its bounds, its item type and
    -- items that are apart where they have to be, and it counts as one of the enumeration and as the constant.
    pub check_value-nil_iff : (raw : Value S) → (check_value eval render rules raw ≡ []) ↔ Fits raw
    unfolding check_value
    check_value-nil_iff raw =
        let v = normalize_value raw in
        both-nil (type_issues eval render rules v) _ (type_issues-nil_iff v) (
          both-nil (enum_issues eval render rules rules.enum v) _ (enum_issues-nil_iff rules.enum v)
            (const_issues-nil_iff rules.const v))
