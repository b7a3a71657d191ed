-- ===== src/Values/Entries.antt =====
-- internal/application/values/values.go: when a value that is written counts as the one that is there; and
-- the entries of a map of values.
use spec_cli.Common.{String, ◌≡◌, refl, Bool, true, false, none, some, arith}
use spec_cli.Common.{◌==◌, string_eq, bool_eq, if◌then◌else◌}
use spec_cli.Values.{Scalars, Value, null, bool, num, time, str, list, object}
use spec_cli.Values.{Fields, end, field, find, render}

-- `LiteralEqual`
unfoldable pub literal_equal : {S : Scalars} → Value S → Value S → Bool
unfolding render
literal_equal {S} (num m) (num n) = S.num_eq m n
literal_equal {S} (num m) v = render {S = S} (num m) == render v
literal_equal (str s) (str t) = s == t
literal_equal (str s) _ = false
literal_equal (bool a) (bool b) = a == b
literal_equal (bool a) _ = false
literal_equal null null = true
literal_equal null _ = false
literal_equal {S} (time t) (time u) = S.time_eq t u
literal_equal {S} (time t) (str s) = S.date_text t == s
literal_equal (time t) _ = false
literal_equal {S} (list vs) v = render {S = S} (list vs) == render v
literal_equal {S} (object fs) v = render {S = S} (object fs) == render v

module _ {S : Scalars} where
  -- `m[k] = v`
  unfoldable pub put : String → Value S → Fields S → Fields S
  put k v end = field k v end
  put k v (field j w fs) = if j == k then field k v fs else field j w (put k v fs)

  -- `delete(m, k)`
  unfoldable pub remove : String → Fields S → Fields S
  remove k end = end
  remove k (field j w fs) = let rest = remove k fs in if j == k then rest else field j w rest

  pub find-put :
      (j k : String) (v : Value S) (fs : Fields S)
      → find j (put k v fs) ≡ (if k == j then some v else find j fs)
  unfolding find put
  find-put j k v end = refl
  find-put j k v (field i w fs) = ground (arith, find-put j k v fs)

  pub find-remove :
      (j k : String) (fs : Fields S) → find j (remove k fs) ≡ (if k == j then none else find j fs)
  unfolding find remove
  find-remove j k end = ground arith
  find-remove j k (field i w fs) = ground (arith, find-remove j k fs)
