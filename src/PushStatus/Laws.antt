-- ===== src/PushStatus/Laws.antt =====
-- Each ref that was added is reported once, in order of arrival.
use k3c.Prelude.{
  ◌≡◌, refl, ap, ◌∙◌, Bool, none, some, List, [], ◌∷◌, ◌++◌, map, arith, any, any-append,
  if◌then◌else◌,
}
use k3c.Prelude.Text.{Text, ◌==◌, eq_iff}
use k3c.Prelude.Maps.{lookup, lookup-insert}
use k3c.PushStatus.{Tracker, PushJobs, new_push_jobs, add, job_info, status}

abbrev pub member : Text → List Text → Bool
member ref = any (λ x. x == ref)

-- The first occurrence of each text, in order.
abbrev dedup_onto : List Text → List Text → List Text
dedup_onto seen [] = seen
dedup_onto seen (x ∷ xs) = dedup_onto (if member x seen then seen else seen ++ x ∷ []) xs

abbrev pub first_occurrences : List Text → List Text
first_occurrences = dedup_onto []

abbrev pub add_all : PushJobs → List Text → PushJobs
add_all j [] = j
add_all j (ref ∷ refs) = add_all (add ref j) refs

-- The set and the list hold the same refs.
abbrev Agrees : PushJobs → Type 0
Agrees j = (ref : Text) → lookup ref j.jobs ≡ (if member ref j.ordered then some tt else none)

add-Agrees : (ref : Text) (j : PushJobs) → Agrees j → Agrees (add ref j)
unfolding add
add-Agrees ref j v x = ground (
  arith,
  v x,
  v ref,
  lookup-insert x ref tt j.jobs,
  any-append (λ (y : Text). y == x) j.ordered (ref ∷ []),
  eq_iff ref x,
)

ordered-add :
    (ref : Text) (j : PushJobs)
    → Agrees j
    → (add ref j).ordered ≡ (if member ref j.ordered then j.ordered else j.ordered ++ ref ∷ [])
unfolding add
ordered-add ref j v = ground (arith, v ref)

ordered-add_all :
    (j : PushJobs) (refs : List Text)
    → Agrees j
    → (add_all j refs).ordered ≡ dedup_onto j.ordered refs
ordered-add_all j [] v = refl
ordered-add_all j (ref ∷ refs) v =
    ordered-add_all (add ref j) refs (add-Agrees ref j v)
    ∙ ap (λ (seen : List Text). dedup_onto seen refs) (ordered-add ref j v)

-- After any refs were added to a fresh job list, in any order and with repetitions, the report has
-- one entry for each distinct ref, in the order of their first arrival, with the status that the
-- tracker gives that ref.
pub status-add_all :
    (tracker : Tracker) (refs : List Text)
    → status tracker (add_all new_push_jobs refs)
      ≡ map (λ ref. job_info ref (tracker ref)) (first_occurrences refs)
unfolding status new_push_jobs lookup
status-add_all tracker refs =
    ap (map (λ ref. job_info ref (tracker ref))) (ordered-add_all new_push_jobs refs (λ ref. refl))
