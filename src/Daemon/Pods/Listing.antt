-- ===== src/Daemon/Pods/Listing.antt =====
-- Which containers listPods shows under which pod.
use k3c.Prelude.{
  ◌≡◌, refl, sym, ap, ◌∙◌, subst, Option, none, some, if◌then◌else◌, List, [], ◌∷◌, ◌++◌, keep,
  arith, Bool-cases, Option-cases, ◌⊎◌, inl, inr,
}
use mathlib.Core.Option.{some-injective}
use mathlib.Core.List.{append_assoc, append-nil}
use k3c.Prelude.Text.{Text, ◌==◌, eq_iff}
use k3c.Prelude.Maps.{Map, lookup, insert, lookup-insert, lookup-nil}
use k3c.Prelude.Results.{ok, traverse, >>=-eq-ok}
use k3c.Cri
use k3c.Cri.{PodSandbox}
use k3c.Daemon.Runtime.{Runtime, Deps, done}
use k3c.Daemon.Status.{ContainerData, PodData}
use k3c.Daemon.Pods.{pods_from, status_of, attach_one, attach_containers, load_pods}

abbrev pub fresh : PodSandbox → PodData
fresh p = record { id = p.id; sandbox = p; containers = [] }

-- The last of the listed sandboxes that has an id.
abbrev pub last_of : Text → List PodSandbox → Option PodSandbox
last_of j [] = none
last_of j (p ∷ ps) = elim (last_of j ps) [
  | some q ↦ some q
  | none ↦ if p.id == j then some p else none
]

-- The entry of an id is that of the last sandbox with it; there is none of any other id.
pods_from_listed :
    (j : Text) (ps : List PodSandbox) (m : Map PodData)
    → ((p : PodSandbox) × (last_of j ps ≡ some p)
        × (p.id ≡ j)
        × (lookup j (pods_from ps m) ≡ some (fresh p)))
      ⊎ ((last_of j ps ≡ none) × (lookup j (pods_from ps m) ≡ lookup j m))
unfolding pods_from
pods_from_listed j [] m = inr (refl, refl)
pods_from_listed j (p ∷ ps) m = elim (pods_from_listed j ps (insert p.id (fresh p) m)) [
  | inl (q, last, same, entry) ↦ inl (q, rw last refl, same, entry)
  | inr (absent, entry) ↦ elim (Bool-cases (p.id == j)) [
    | inl here ↦ inl (
      p,
      rw (absent, here) refl,
      (eq_iff p.id j).0 here,
      entry ∙ rw (lookup-insert j p.id (fresh p) m, here) refl,
    )
    | inr other ↦
        inr (rw (absent, other) refl, entry ∙ rw (lookup-insert j p.id (fresh p) m, other) refl)
  ]
]

module _ (r : Runtime) (deps : Deps) (w : r.World) where
  abbrev pub own : Text → List Cri.Container → List Cri.Container
  own j xs = keep (λ x. x.pod_sandbox_id == j) xs

  abbrev extended : PodData → List ContainerData → PodData
  extended d ys = record d { containers = d.containers ++ ys }

  -- What the loop over the containers does to one entry.
  abbrev Attached : Text → List Cri.Container → Map PodData → PodData → Type 0
  Attached j xs m' d =
      (ys : List ContainerData) × (traverse (status_of r deps w) (own j xs) ≡ ok ys)
      × (lookup j m' ≡ some (extended d ys))

  abbrev Claim : Text → List Cri.Container → Map PodData → Map PodData → Type 0
  Claim j xs m m' =
      ((d : PodData) → lookup j m ≡ some d → Attached j xs m' d)
      × (lookup j m ≡ none → lookup j m' ≡ none)

  step_absent :
      (j : Text) (x : Cri.Container) (xs : List Cri.Container) (m m' : Map PodData)
      → lookup x.pod_sandbox_id m ≡ none
      → Claim j xs m m'
      → Claim j (x ∷ xs) m m'
  step_absent j x xs m m' absent h = elim (Bool-cases (x.pod_sandbox_id == j)) [
    | inr e ↦ (λ d there. rw e (h.0 d there), h.1)
    | inl e ↦
        let same : x.pod_sandbox_id ≡ j = (eq_iff x.pod_sandbox_id j).0 e in
        (λ d there. cc (ap (λ (k : Text). lookup k m) same, absent, there), h.1)
  ]

  step_there :
      (j : Text) (x : Cri.Container) (xs : List Cri.Container) (m m' : Map PodData) (d : PodData)
      (y : ContainerData)
      → lookup x.pod_sandbox_id m ≡ some d
      → status_of r deps w x ≡ ok y
      → Claim j xs (insert x.pod_sandbox_id (extended d (y ∷ [])) m) m'
      → Claim j (x ∷ xs) m m'
  step_there j x xs m m' d y there status h = elim (Bool-cases (x.pod_sandbox_id == j)) [
    | inr e ↦
        let other : lookup j (insert x.pod_sandbox_id (extended d (y ∷ [])) m) ≡ lookup j m =
          lookup-insert j x.pod_sandbox_id _ m ∙ rw e refl in
        (λ d' t. rw e (h.0 d' (other ∙ t)), λ t. h.1 (other ∙ t))
    | inl e ↦
        let same : x.pod_sandbox_id ≡ j = (eq_iff x.pod_sandbox_id j).0 e in
        let (ys, rest, found) =
          h.0 (extended d (y ∷ [])) (lookup-insert j x.pod_sandbox_id _ m ∙ rw e refl) in
        let mine : lookup j m ≡ some d = ap (λ (k : Text). lookup k m) (sym same) ∙ there in
        (
          λ d' t. subst (Attached j (x ∷ xs) m') (some-injective d d' (sym mine ∙ t)) (
            y ∷ ys,
            rw e (rw (status, rest) refl),
            found
                ∙ ap (λ (zs : List ContainerData). some (record d { containers = zs }))
                    (append_assoc d.containers (y ∷ []) ys),
          ),
          λ t. cc (mine, t),
        )
  ]

  attach_lem :
      (j : Text) (xs : List Cri.Container) (m m' : Map PodData)
      → attach_containers r deps w xs m ≡ ok m'
      → Claim j xs m m'
  unfolding attach_containers
  attach_lem j [] m m' e =
      let same : m ≡ m' = ground arith in
      (
        λ d t. (
          [],
          refl,
          ap (lookup j) (sym same)
              ∙ t
              ∙ ap (λ (zs : List ContainerData). some (record d { containers = zs }))
                  (sym (append-nil d.containers)),
        ),
        λ t. ap (lookup j) (sym same) ∙ t,
      )
  attach_lem j (x ∷ xs) m m' e = elim (Option-cases (lookup x.pod_sandbox_id m)) [
    | inl absent ↦
        step_absent j x xs m m' absent (attach_lem j xs m m' (rw (absent, attach_containers) at e))
    | inr (d, there) ↦
        let (m2, one, rest) =
          >>=-eq-ok (attach_one r deps w x m (lookup x.pod_sandbox_id m))
            (λ n. attach_containers r deps w xs n) e in
        let (y, status, put) =
          >>=-eq-ok (status_of r deps w x)
            (λ z. ok (insert x.pod_sandbox_id (extended d (z ∷ [])) m)) (rw there at one) in
        let this : insert x.pod_sandbox_id (extended d (y ∷ [])) m ≡ m2 = ground arith in
        step_there j x xs m m' d y there status
          (attach_lem j xs _ m' (ap (attach_containers r deps w xs) this ∙ rest))
  ]

  -- The pods that are loaded, where that succeeds, against the two lists of the runtime. Each
  -- sandbox id that is listed has an entry, with the very sandbox that is listed under it, the last
  -- one if there are several, and with the statuses of exactly the listed containers of this
  -- sandbox id, in order; no other id has one.
  pub load_pods_lem :
      {ps : List PodSandbox} {xs : List Cri.Container} {m : Map PodData} (j : Text)
      → r.list_pod_sandbox [] w ≡ done ps
      → r.list_containers [] w ≡ done xs
      → load_pods r deps w ≡ ok m
      → ((p : PodSandbox) × (ys : List ContainerData) × (last_of j ps ≡ some p)
          × (p.id ≡ j)
          × (traverse (status_of r deps w) (own j xs) ≡ ok ys)
          × (lookup j m ≡ some (record { id = j; sandbox = p; containers = ys })))
        ⊎ ((last_of j ps ≡ none) × (lookup j m ≡ none))
  unfolding load_pods
  load_pods_lem {ps} {xs} {m} j pods containers e =
      let attached = attach_lem j xs (pods_from ps []) m (rw (pods, containers, load_pods) at e) in
      elim (pods_from_listed j ps []) [
        | inl (p, last, same, entry) ↦
            let (ys, statuses, found) = attached.0 (fresh p) entry in
            inl (
              p,
              ys,
              last,
              same,
              statuses,
              found
                  ∙ ap (λ (i : Text). some (record { id = i; sandbox = p; containers = ys })) same,
            )
        | inr (absent, entry) ↦ inr (absent, attached.1 (entry ∙ lookup-nil j))
      ]
