-- ===== src/Daemon/Ids.antt =====
-- toPodUser and toID of pkg/daemon/pod.go; toGroupIDs and toUserID of pkg/daemon/container.go.
pub mod Laws
use k3c.Prelude.{Option, none, some, List, [], ◌∷◌, Bool, ◌||◌, ◌++◌, if◌then◌else◌}
use k3c.Prelude.Text.{Text, codes, is_empty, ◌==◌}
use k3c.Prelude.Int.{ℤ, parse_int}
use k3c.Prelude.Results.{Result, ok, err, panic, wrap, message, or_err, traverse, ◌>>=◌}

abbrev pub is_root : Text → Bool
is_root val = is_empty val || val == codes "root"

-- A pod's user that is no number is dropped.
unfoldable pub to_pod_user : Text → Option ℤ
to_pod_user val = if is_root val then none else parse_int val

abbrev parsed_id : Text → Result ℤ
parsed_id val =
    wrap (codes "failed to parse " ++ val)
      (or_err (parse_int val) (message (codes "invalid syntax")))

-- `ok none` is the nil pointer with no error.
unfoldable pub to_id : Text → Result (Option ℤ)
to_id val = if is_root val then ok none else (do n ← parsed_id val; ok (some n))

-- id.Value, where the pointer may be nil.
abbrev deref : Option ℤ → Result ℤ
deref none = panic
deref (some n) = ok n

unfoldable pub to_group_ids : List Text → Result (List ℤ)
to_group_ids = traverse (λ group. to_id group >>= deref)

unfoldable pub to_user_id : Text → Text × Option ℤ
to_user_id val =
    if is_root val
    then (val, none)
    else elim (parse_int val) [ none ↦ (val, none) | some n ↦ ([], some n) ]
