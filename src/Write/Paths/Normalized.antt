-- ===== src/Write/Paths/Normalized.antt =====
-- internal/application/commands/internal/writeargs/writeargs.go: the paths of --set-file operations.
use spec_cli.Common.{◌≡◌, ◌≢◌, refl, sym, ap, Bool, true, false, not, arith, ◌⊎◌, inl, inr, subst}
use spec_cli.Common.{◌&&◌, nat_eq, string_eq, Bool-cases}
use Prim.Native.String.{String}
use mathlib.Core.List.{List}
use spec_cli.Errors.{ok, ok-injective, fail_not_ok, >>=-eq-ok, ◌>>=◌}
use spec_cli.Write.{WriteOperation, WriteOperationKind, set, set_file, unset}
use spec_cli.Write.Paths.{
  Absolute, absolute, abs_error, is_set_file, normalized_operation, normalize_operation,
  normalize_operation_paths,
}

module _ (is_abs : String → Bool) (abs : String → Absolute) (require_absolute : Bool) where
  -- The kind and the path are kept; only a --set-file has another value, the absolute path.
  pub record IsNormalized (a b : WriteOperation) : Type 0 where
    pub same_kind : b.kind ≡ a.kind
    pub same_path : b.path ≡ a.path
    pub untouched : a.kind ≢ set_file → b.raw_value ≡ a.raw_value
    pub resolved : a.kind ≡ set_file → abs a.raw_value ≡ absolute b.raw_value
    pub was_absolute : a.kind ≡ set_file → require_absolute ≡ true → is_abs a.raw_value ≡ true

  -- The operations of two lists correspond one by one.
  abbrev pub AreNormalized : List WriteOperation → List WriteOperation → Type 0
  AreNormalized List.[] List.[] = Unit
  AreNormalized (List.◌∷◌ a ops) (List.◌∷◌ b out) = IsNormalized a b × AreNormalized ops out
  AreNormalized _ _ = ⊥

  Kind-cases :
      (k : WriteOperationKind)
      → ((is_set_file k ≡ true) × (k ≡ set_file)) ⊎ ((is_set_file k ≡ false) × (k ≢ set_file))
  Kind-cases set = inr (refl, λ e. cc)
  Kind-cases set_file = inl (refl, refl)
  Kind-cases unset = inr (refl, λ e. cc)

  normalized_operation-ok :
      (op next : WriteOperation) (a : Absolute)
      → normalized_operation op a ≡ ok next
      → (a ≡ absolute next.raw_value) × (next.kind ≡ op.kind) × (next.path ≡ op.path)
  unfolding normalized_operation
  normalized_operation-ok op next (absolute p) h =
      let same = ok-injective h in
      (
        ap (λ n. absolute n.raw_value) same,
        sym (ap (λ n. n.kind) same),
        sym (ap (λ n. n.path) same),
      )
  normalized_operation-ok op next (abs_error r) h = cc

  absolute_if_required :
      (raw : String)
      → (require_absolute && not (is_abs raw)) ≡ false
      → require_absolute ≡ true
      → is_abs raw ≡ true
  absolute_if_required raw h r = ground arith

  normalize_operation-ok :
      (op next : WriteOperation)
      → normalize_operation is_abs abs require_absolute op ≡ ok next
      → IsNormalized op next
  unfolding normalize_operation
  normalize_operation-ok op next h = elim (Kind-cases op.kind) [
    | inr (e, n) ↦
        let same = ok-injective (rw e at h) in
        record {
          same_kind = sym (ap (λ n. n.kind) same);
          same_path = sym (ap (λ n. n.path) same);
          untouched = λ _. sym (ap (λ n. n.raw_value) same);
          resolved = λ k. absurd (n k);
          was_absolute = λ k. absurd (n k);
        }
    | inl (e, s) ↦ elim (Bool-cases (require_absolute && not (is_abs op.raw_value))) [
      | inl b ↦ absurd (fail_not_ok (rw (e, b) at h))
      | inr b ↦
          let (found, kind, path) =
            normalized_operation-ok op next (abs op.raw_value) (rw (e, b) at h) in
          record {
            same_kind = kind;
            same_path = path;
            untouched = λ n. absurd (n s);
            resolved = λ _. found;
            was_absolute = λ _. absolute_if_required op.raw_value b;
          }
    ]
  ]

  -- Where the operations are normalized, the results correspond to them one by one: each has the kind
  -- and the path of its operation, and its value too unless it is a --set-file; the value of a
  -- --set-file is what the absolute path of its own value is, which was absolute already if that is
  -- required.
  pub normalize_operation_paths-ok :
      (ops out : List WriteOperation)
      → normalize_operation_paths is_abs abs require_absolute ops ≡ ok out
      → AreNormalized ops out
  unfolding normalize_operation_paths
  normalize_operation_paths-ok List.[] out h = subst (AreNormalized List.[]) (ok-injective h) tt
  normalize_operation_paths-ok (List.◌∷◌ op ops) out h =
      let (next, e, r) =
        >>=-eq-ok (normalize_operation is_abs abs require_absolute op)
          (λ next. normalize_operation_paths is_abs abs require_absolute ops >>= λ rest.
            ok (List.◌∷◌ next rest))
          h in
      let (rest, f, q) =
        >>=-eq-ok (normalize_operation_paths is_abs abs require_absolute ops)
          (λ rest. ok (List.◌∷◌ next rest)) r in
      subst (AreNormalized (List.◌∷◌ op ops)) (ok-injective q)
        (normalize_operation-ok op next e, normalize_operation_paths-ok ops rest f)
