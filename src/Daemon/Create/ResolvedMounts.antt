-- ===== src/Daemon/Create/ResolvedMounts.antt =====
-- The host paths that CreateContainer gives the mounts of a container.
use k3c.Prelude.{
  ℕ, ◌+◌, ◌≡◌, refl, sym, ap, subst, ◌∙◌, true, ◌||◌, List, [], ◌∷◌, arith, if◌then◌else◌,
  Bool-cases, inl, inr,
}
use k3c.Prelude.Text.{Text, codes, has_prefix}
use k3c.Prelude.Results.{Result, ok, err, panic, and_then-ok}
use k3c.Paths.{join}
use k3c.Cri.{Mount}
use k3c.Volume.{
  Disk, hex_encode, matches_name, resolve, with_path, named_result, create_volume, setup_created,
  setup,
}
use k3c.Daemon.Runtime.{Runtime, Codec}
use k3c.Daemon.Create.{resolve_mounts}

-- The path that a mount's own path stands for: a volume that is made for it where it is empty, a
-- named volume where it is not absolute.
abbrev pub HasPath : Text → List ℕ → Text → Text → Type 0
HasPath dir uuid [] p = (p ≡ join dir (hex_encode uuid)) × (matches_name (hex_encode uuid) ≡ true)
HasPath dir uuid (a ∷ path) p =
    (p ≡ (if has_prefix (a ∷ path) (codes "/") then a ∷ path else join dir (a ∷ path)))
    × ((has_prefix (a ∷ path) (codes "/") || matches_name (a ∷ path)) ≡ true)

pub record IsResolved (dir : Text) (uuid : List ℕ) (m m' : Mount) : Type 0 where
  pub path : HasPath dir uuid m.host_path m'.host_path
  pub container_path : m'.container_path ≡ m.container_path
  pub readonly : m'.readonly ≡ m.readonly
  pub propagation : m'.propagation ≡ m.propagation

abbrev pub AllResolved : Text → (ℕ → List ℕ) → ℕ → List Mount → List Mount → Type 0
AllResolved dir uuid i [] [] = Unit
AllResolved dir uuid i (m ∷ ms) (m' ∷ ms') =
    IsResolved dir (uuid i) m m' × AllResolved dir uuid (i + 1) ms ms'
AllResolved dir uuid i _ _ = ⊥

module _ (d : Disk) (dir : Text) where
  resolve-ok :
      (id : Text) {p : Text} → resolve dir id ≡ ok p → (p ≡ join dir id) × (matches_name id ≡ true)
  unfolding resolve
  resolve-ok id e = ground arith

  with_path-ok :
      (m : Mount) (x : Result Text) {m' : Mount}
      → with_path d dir m x ≡ ok m'
      → (p : Text) × (x ≡ ok p) × (record m { host_path = p } ≡ m')
  with_path-ok m (ok p) e = (p, refl, cc)
  with_path-ok m (err x) e = cc
  with_path-ok m panic e = cc

  named_result-ok :
      (name : Text) (x : Result (Unit {0}) × d.State) {id : Text} {s : d.State}
      → named_result d dir name x ≡ (ok id, s)
      → name ≡ id
  named_result-ok name (ok _, t) e = cc
  named_result-ok name (err x, t) e = cc
  named_result-ok name (panic, t) e = cc

  create_volume-unnamed :
      (uuid : List ℕ) (s : d.State) {id : Text} {t : d.State}
      → create_volume d dir uuid [] s ≡ (ok id, t)
      → hex_encode uuid ≡ id
  unfolding create_volume
  create_volume-unnamed uuid s e = elim (Bool-cases (matches_name (hex_encode uuid))) [
    | inl good ↦
        named_result-ok (hex_encode uuid) (d.mkdir (join dir (hex_encode uuid)) s)
          (rw (good, create_volume) at e)
    | inr bad ↦ cc (bad, e)
  ]

  setup_created-ok :
      (m : Mount) (x : Result Text × d.State) {m' : Mount} {t : d.State}
      → setup_created d dir m x ≡ (ok m', t)
      → (id : Text) × (x ≡ (ok id, t)) × (with_path d dir m (resolve dir id) ≡ ok m')
  setup_created-ok m (ok id, s) e = (id, cc, cc)
  setup_created-ok m (err x, s) e = cc
  setup_created-ok m (panic, s) e = cc

  at_path :
      (uuid : List ℕ) (m m' : Mount) (p : Text)
      → record m { host_path = p } ≡ m'
      → HasPath dir uuid m.host_path p
      → IsResolved dir uuid m m'
  at_path uuid m m' p same h = record {
    path = subst (λ (x : Mount). HasPath dir uuid m.host_path x.host_path) same h;
    container_path = ap (λ (x : Mount). x.container_path) (sym same);
    readonly = ap (λ (x : Mount). x.readonly) (sym same);
    propagation = ap (λ (x : Mount). x.propagation) (sym same);
  }

  setup_by_path :
      (uuid : List ℕ) (m m' : Mount) (s t : d.State) (path : Text)
      → m.host_path ≡ path
      → setup d dir uuid m s ≡ (ok m', t)
      → (p : Text) × (record m { host_path = p } ≡ m') × HasPath dir uuid path p
  unfolding setup
  setup_by_path uuid m m' s t [] here e =
      let (id, made, put) =
        setup_created-ok m (create_volume d dir uuid [] s) (rw (here, setup) at e) in
      let (p, resolved, same) = with_path-ok m (resolve dir id) put in
      let (at, good) = resolve-ok id resolved in
      let which : hex_encode uuid ≡ id = create_volume-unnamed uuid s made in
      (p, same, (at ∙ ap (join dir) (sym which), ap matches_name which ∙ good))
  setup_by_path uuid m m' s t (a ∷ path) here e =
      elim (Bool-cases (has_prefix (a ∷ path) (codes "/"))) [
        | inl absolute ↦
            let same : m ≡ m' = cc (ap (λ x. x.0) (rw (here, absolute, setup) at e)) in
            (a ∷ path, cc (same, here), (rw absolute refl, rw absolute refl))
        | inr relative ↦
            let (p, resolved, same) =
              with_path-ok m (resolve dir (a ∷ path))
                (ap (λ x. x.0) (rw (here, relative, setup) at e)) in
            let found = resolve-ok (a ∷ path) resolved in
            (p, same, (rw relative found.0, rw relative found.1))
      ]

  setup-IsResolved :
      (uuid : List ℕ) (m m' : Mount) (s t : d.State)
      → setup d dir uuid m s ≡ (ok m', t)
      → IsResolved dir uuid m m'
  setup-IsResolved uuid m m' s t e =
      let (p, same, h) = setup_by_path uuid m m' s t m.host_path refl e in
      at_path uuid m m' p same h

-- The mounts that resolveMounts gives are those that it was given, in order, with nothing but the
-- host path changed. An absolute host path is kept. Any other is the name of a volume, which is
-- valid, and stands for that name under the volumes' directory. An empty one stands for a
-- volume of its own, named by the UUID that is drawn for this mount.
pub resolve_mounts_lem :
    (r : Runtime) (c : Codec) (d : Disk) (dir : Text) (uuid : ℕ → List ℕ) (i : ℕ)
    (ms ms' : List Mount) (s t : d.State)
    → resolve_mounts r c d dir uuid i ms s ≡ (ok ms', t)
    → AllResolved dir uuid i ms ms'
unfolding resolve_mounts
resolve_mounts_lem r c d dir uuid i [] [] s t e = tt
resolve_mounts_lem r c d dir uuid i [] (x ∷ ms') s t e = cc
resolve_mounts_lem r c d dir uuid i (m ∷ ms) ms' s t e =
    let (m', u, first, e1) = and_then-ok (setup d dir (uuid i) m s) _ e in
    let (rest, v, later, put) = and_then-ok (resolve_mounts r c d dir uuid (i + 1) ms u) _ e1 in
    let same : m' ∷ rest ≡ ms' = cc in
    subst (AllResolved dir uuid i (m ∷ ms)) same (
      setup-IsResolved d dir (uuid i) m m' s u first,
      resolve_mounts_lem r c d dir uuid (i + 1) ms rest u v later,
    )
