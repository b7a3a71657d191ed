-- ===== src/Values/Laws.antt =====
-- Copying and normalising.
use spec_cli.Common.{◌≡◌, refl, ap, string_eq}
use mathlib.Core.Path.{ap₂}
use spec_cli.Values.{Scalars, Value, null, bool, num, time, str, list, object, Items, nil, cons}
use spec_cli.Values.{Fields, end, field, deep_copy, copy_items, copy_fields}

mutual
  unfolding deep_copy copy_items copy_fields

  pub deep_copy_lem : {S : Scalars} (v : Value S) → deep_copy v ≡ v
  deep_copy_lem null = refl
  deep_copy_lem (bool b) = refl
  deep_copy_lem (num n) = refl
  deep_copy_lem (time t) = refl
  deep_copy_lem (str s) = refl
  deep_copy_lem (list vs) = ap list (copy_items_lem vs)
  deep_copy_lem (object fs) = ap object (copy_fields_lem fs)

  pub copy_items_lem : {S : Scalars} (vs : Items S) → copy_items vs ≡ vs
  copy_items_lem nil = refl
  copy_items_lem (cons v vs) = ap₂ cons (deep_copy_lem v) (copy_items_lem vs)

  pub copy_fields_lem : {S : Scalars} (fs : Fields S) → copy_fields fs ≡ fs
  copy_fields_lem end = refl
  copy_fields_lem (field k v fs) = ap₂ (field k) (deep_copy_lem v) (copy_fields_lem fs)
