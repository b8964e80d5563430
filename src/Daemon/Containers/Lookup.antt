-- ===== src/Daemon/Containers/Lookup.antt =====
-- Which container a name or a prefix of an id stands for.
use k3c.Prelude.{
  ◌≡◌, ◌⊎◌, inl, inr, refl, ap, subst, ◌∙◌, Bool, true, false, Option, none, some, List, [], ◌∷◌,
  any, arith, Bool-cases, ◌&&◌, Option-cases,
}
use mathlib.Core.Option.{some-injective}
use k3c.Prelude.Text.{Text, ◌==◌, eq_iff, has_prefix, strip_prefix}
use k3c.Prelude.Results.{ok, err, container_not_found}
use k3c.Core.{Pod, Container, ContainerStatus}
use k3c.Daemon.Runtime.{Runtime, Deps}
use k3c.Daemon.Pods.{list_pods}
use k3c.Daemon.Containers.{
  Found, matches, find_container, find_status, find_pod, get_container, or_next,
}

abbrev pub Among : {A : Type 0} → A → List A → Type 0
Among x [] = ⊥
Among x (y ∷ ys) = (x ≡ y) ⊎ Among x ys

-- What it takes for a container of a pod to be the one that is meant.
pub record IsMatch (name : Text) (f : Found) (s : ContainerStatus) : Type 0 where
  pub listed : Among s f.pod.status.container_statuses
  pub matching : matches name s ≡ true
  pub present : Among f.container f.pod.spec.containers
  pub same_name : f.container.name ≡ s.name
  pub same_id : f.id ≡ s.container_id

abbrev pub one : Pod → Container → ContainerStatus → Found
one p c s = record { pod = p; container = c; id = s.container_id }

abbrev OfContainer : Pod → ContainerStatus → List Container → Found → Type 0
OfContainer p s cs f =
    (f.pod ≡ p) × Among f.container cs × (f.container.name ≡ s.name) × (f.id ≡ s.container_id)

find_container_sound :
    (p : Pod) (s : ContainerStatus) (cs : List Container) (f : Found)
    → find_container p s cs ≡ some f
    → OfContainer p s cs f
unfolding find_container
find_container_sound p s [] f e = cc
find_container_sound p s (c ∷ cs) f e = elim (Bool-cases (c.name == s.name)) [
  | inl h ↦
      subst (OfContainer p s (c ∷ cs)) (some-injective (one p c s) f (rw (h, find_container) at e))
        (refl, inl refl, (eq_iff c.name s.name).0 h, refl)
  | inr h ↦
      let (a, b, d, g) = find_container_sound p s cs f (rw (h, find_container) at e) in
      (a, inr b, d, g)
]

find_container_complete :
    (p : Pod) (s : ContainerStatus) (cs : List Container)
    → find_container p s cs ≡ none
    → any (λ c. c.name == s.name) cs ≡ false
unfolding find_container
find_container_complete p s [] e = refl
find_container_complete p s (c ∷ cs) e = ground (arith, find_container_complete p s cs)

or_next-none : (a b : Option Found) → or_next a b ≡ none → (a ≡ none) × (b ≡ none)
or_next-none none b e = (refl, e)
or_next-none (some f) b e = cc

or_next-some : (a b : Option Found) (f : Found) → or_next a b ≡ some f → (a ≡ some f) ⊎ (b ≡ some f)
or_next-some none b f e = inr e
or_next-some (some g) b f e = inl e

abbrev OfStatuses : Text → Pod → List ContainerStatus → Found → Type 0
OfStatuses name p ss f =
    (f.pod ≡ p)
    × ((s : ContainerStatus) × Among s ss
        × (matches name s ≡ true)
        × OfContainer p s p.spec.containers f)

OfStatuses-cons :
    (name : Text) (p : Pod) (s : ContainerStatus) (ss : List ContainerStatus) (f : Found)
    → OfStatuses name p ss f
    → OfStatuses name p (s ∷ ss) f
OfStatuses-cons name p s ss f (a, (t, b, d, c)) = (a, (t, inr b, d, c))

find_status_sound :
    (name : Text) (p : Pod) (ss : List ContainerStatus) (f : Found)
    → find_status name p ss ≡ some f
    → OfStatuses name p ss f
unfolding find_status
find_status_sound name p [] f e = cc
find_status_sound name p (s ∷ ss) f e = elim (Bool-cases (matches name s)) [
  | inr h ↦ OfStatuses-cons name p s ss f (find_status_sound name p ss f (rw (h, find_status) at e))
  | inl h ↦ elim (or_next-some _ _ f (rw (h, find_status) at e)) [
    | inl here ↦
        let found = find_container_sound p s p.spec.containers f here in
        (found.0, (s, inl refl, h, found))
    | inr there ↦ OfStatuses-cons name p s ss f (find_status_sound name p ss f there)
  ]
]

-- A status that matches, with a container of its name.
abbrev pub has_match : Text → Pod → ContainerStatus → Bool
has_match name p s = matches name s && any (λ c. c.name == s.name) p.spec.containers

find_status_complete :
    (name : Text) (p : Pod) (ss : List ContainerStatus)
    → find_status name p ss ≡ none
    → any (has_match name p) ss ≡ false
unfolding find_status
find_status_complete name p [] e = refl
find_status_complete name p (s ∷ ss) e = elim (Bool-cases (matches name s)) [
  | inr h ↦ rw h (find_status_complete name p ss (rw (h, find_status) at e))
  | inl h ↦
      let (here, later) = or_next-none _ _ (rw (h, find_status) at e) in
      rw h (
        rw (find_container_complete p s p.spec.containers here)
          (find_status_complete name p ss later))
]

abbrev pub pod_matches : Text → Pod → Bool
pod_matches name p = any (has_match name p) p.status.container_statuses

abbrev pub OfPods : Text → List Pod → Found → Type 0
OfPods name ps f = Among f.pod ps × ((s : ContainerStatus) × IsMatch name f s)

find_pod_sound :
    (name : Text) (ps : List Pod) (f : Found) → find_pod name ps ≡ some f → OfPods name ps f
unfolding find_pod
find_pod_sound name [] f e = cc
find_pod_sound name (p ∷ ps) f e =
    elim (or_next-some (find_status name p p.status.container_statuses) _ f e) [
      | inl here ↦
          let (same, (s, listed, m, (_, present, name_eq, id_eq))) =
            find_status_sound name p p.status.container_statuses f here in
          (
            inl same,
            (
              s,
              record {
                listed = rw same listed;
                matching = m;
                present = rw same present;
                same_name = name_eq;
                same_id = id_eq;
              },
            ),
          )
      | inr there ↦ let (a, m) = find_pod_sound name ps f there in (inr a, m)
    ]

find_pod_complete :
    (name : Text) (ps : List Pod) → find_pod name ps ≡ none → any (pod_matches name) ps ≡ false
unfolding find_pod
find_pod_complete name [] e = refl
find_pod_complete name (p ∷ ps) e =
    let (here, later) = or_next-none (find_status name p p.status.container_statuses) _ e in
    rw (find_status_complete name p p.status.container_statuses here)
      (find_pod_complete name ps later)

-- GetContainer over the pods that listPods gives has one of two outcomes. It finds a container of
-- one of them, with a status of the same name whose name is the one that was asked for or whose id
-- begins with it, and the id is the status's. Or it reports that there is no container, and then no
-- pod has a status that matches and a container of that status's name.
pub get_container_lem :
    (r : Runtime) (deps : Deps) (name : Text) (w : r.World) {ps : List Pod}
    → list_pods r deps true w ≡ ok ps
    → ((f : Found) × (get_container r deps name w ≡ ok f) × OfPods name ps f)
      ⊎ ((get_container r deps name w ≡ err container_not_found)
          × (any (pod_matches name) ps ≡ false))
unfolding get_container
get_container_lem r deps name w {ps} e = elim (Option-cases (find_pod name ps)) [
  | inl h ↦ inr (rw (e, h) refl, find_pod_complete name ps h)
  | inr (f, h) ↦ inl (f, rw (e, h) refl, find_pod_sound name ps f h)
]

find_container_first :
    (p : Pod) (s : ContainerStatus) (cs : List Container)
    → any (λ c. c.name == s.name) cs ≡ true
    → (c : Container) × (find_container p s cs ≡ some (one p c s))
unfolding find_container
find_container_first p s [] h = cc
find_container_first p s (c ∷ cs) h = elim (Bool-cases (c.name == s.name)) [
  | inl e ↦ (c, rw (e, find_container) refl)
  | inr e ↦
      let (d, found) = find_container_first p s cs (rw e at h) in (d, rw (e, find_container) found)
]

matches_empty : (s : ContainerStatus) → matches [] s ≡ true
unfolding has_prefix strip_prefix
matches_empty s = ground arith

find_status_first :
    (p : Pod) (s : ContainerStatus) (ss : List ContainerStatus) (c : Container)
    → find_container p s p.spec.containers ≡ some (one p c s)
    → find_status [] p (s ∷ ss) ≡ some (one p c s)
unfolding find_status
find_status_first p s ss c found = rw (matches_empty s) (rw found refl)

-- The empty name stands for a container: every id begins with it, so GetContainer answers with the
-- first status of the first pod, whatever that is, if that pod has a container of that status's
-- name.
pub get_container_empty :
    (r : Runtime) (deps : Deps) (w : r.World) (p : Pod) (ps : List Pod) (s : ContainerStatus)
    (ss : List ContainerStatus)
    → list_pods r deps true w ≡ ok (p ∷ ps)
    → p.status.container_statuses ≡ s ∷ ss
    → any (λ c. c.name == s.name) p.spec.containers ≡ true
    → (c : Container) × (get_container r deps [] w ≡ ok (one p c s))
unfolding get_container find_pod
get_container_empty r deps w p ps s ss listed first h =
    let (c, found) = find_container_first p s p.spec.containers h in
    let here : find_status [] p p.status.container_statuses ≡ some (one p c s) =
      ap (find_status [] p) first ∙ find_status_first p s ss c found in
    (c, rw (listed, get_container) (rw (here, find_pod) refl))
