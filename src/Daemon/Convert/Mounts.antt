-- ===== src/Daemon/Convert/Mounts.antt =====
-- The volumes of a pod against the mounts of its containers.
use k3c.Prelude.{
  ℕ, ◌≡◌, refl, sym, subst, ◌∙◌, Bool, true, false, List, [], ◌∷◌, ◌++◌, map, any, all, any-append,
  arith, Bool-cases, inl, inr, ◌||◌,
}
use mathlib.Core.List.{append_assoc, append-nil}
use k3c.Prelude.Text.{Text, ◌==◌, eq_iff, eq_refl}
use k3c.Cri.{Mount}
use k3c.Volume.{Kind, host_path, named, ephemeral, path_to_type}
use k3c.Core.{Volume, VolumeMount}
use k3c.Daemon.Convert.{new_volume, volume_mount, add_mount, add_mounts}

abbrev pub has_volume : List Volume → Text → Bool
has_volume volumes name = any (λ v. v.name == name) volumes

-- No two volumes share a name.
abbrev pub AreDistinct : List Volume → Type 0
AreDistinct [] = Unit
AreDistinct (v ∷ vs) = (has_volume vs v.name ≡ false) × AreDistinct vs

abbrev pub mount_of : (Text → List ℕ) → Mount → VolumeMount
mount_of md5 m = volume_mount (path_to_type md5 m.host_path).0 m

has_volume-append :
    (vs : List Volume) (v : Volume) (name : Text)
    → has_volume (vs ++ v ∷ []) name ≡ (has_volume vs name || v.name == name)
has_volume-append vs v name = any-append (λ (w : Volume). w.name == name) vs (v ∷ []) ∙ ground arith

AreDistinct-append :
    (vs : List Volume) (v : Volume)
    → AreDistinct vs
    → has_volume vs v.name ≡ false
    → AreDistinct (vs ++ v ∷ [])
AreDistinct-append [] v h fresh = (refl, tt)
AreDistinct-append (w ∷ vs) v h fresh = (
  ground (arith, has_volume-append vs v w.name, eq_iff v.name w.name, eq_iff w.name v.name),
  AreDistinct-append vs v h.1 (ground arith),
)

name-new_volume : (name : Text) (k : Kind) (m : Mount) → (new_volume name k m).name ≡ name
name-new_volume name host_path m = refl
name-new_volume name named m = refl
name-new_volume name ephemeral m = refl

module _ (md5 : Text → List ℕ) where
  abbrev name_of : Mount → Text
  name_of m = (path_to_type md5 m.host_path).0

  add_mount-AreDistinct :
      (vs : List Volume) (ms : List VolumeMount) (m : Mount)
      → AreDistinct vs
      → AreDistinct (add_mount md5 vs ms m).0
  unfolding add_mount
  add_mount-AreDistinct vs ms m h = elim (Bool-cases (has_volume vs (name_of m))) [
    | inl e ↦ rw e h
    | inr e ↦ rw e (AreDistinct-append vs _ h (rw name-new_volume e))
  ]

  -- A mount keeps the volumes there are, and has one of its own name afterwards.
  has_volume-add_mount :
      (vs : List Volume) (ms : List VolumeMount) (m : Mount) (name : Text)
      → has_volume (add_mount md5 vs ms m).0 name ≡ (has_volume vs name || name_of m == name)
  unfolding add_mount
  has_volume-add_mount vs ms m name = elim (Bool-cases (has_volume vs (name_of m))) [
    | inr e ↦ rw e (has_volume-append vs _ name ∙ rw name-new_volume refl)
    | inl e ↦ rw e (elim (Bool-cases (name_of m == name)) [
      | inr f ↦ rw f (ground arith)
      | inl f ↦
          let same : name_of m ≡ name = (eq_iff (name_of m) name).0 f in
          rw f (ground (arith, subst (λ n. has_volume vs n ≡ true) same e))
    ])
  ]

  abbrev Resolves : List Volume → List VolumeMount → Type 0
  Resolves vs ms = all (λ (x : VolumeMount). has_volume vs x.name) ms ≡ true

  Resolves-grow :
      (vs ws : List Volume) (ms : List VolumeMount)
      → ((name : Text) → has_volume vs name ≡ true → has_volume ws name ≡ true)
      → Resolves vs ms
      → Resolves ws ms
  Resolves-grow vs ws [] more h = refl
  Resolves-grow vs ws (x ∷ ms) more h = ground (arith, more x.name, Resolves-grow vs ws ms more)

  Resolves-append :
      (vs : List Volume) (ms : List VolumeMount) (x : VolumeMount)
      → Resolves vs ms
      → has_volume vs x.name ≡ true
      → Resolves vs (ms ++ x ∷ [])
  Resolves-append vs [] x h k = ground arith
  Resolves-append vs (y ∷ ms) x h k = ground (arith, Resolves-append vs ms x)

  mounts-add_mount :
      (vs : List Volume) (ms : List VolumeMount) (m : Mount)
      → (add_mount md5 vs ms m).1 ≡ ms ++ mount_of md5 m ∷ []
  unfolding add_mount
  mounts-add_mount vs ms m = refl

  add_mount-Resolves :
      (vs : List Volume) (ms : List VolumeMount) (m : Mount)
      → Resolves vs ms
      → Resolves (add_mount md5 vs ms m).0 (add_mount md5 vs ms m).1
  add_mount-Resolves vs ms m h = rw mounts-add_mount (
      Resolves-append _ ms (mount_of md5 m)
        (Resolves-grow vs _ ms (λ name e. rw has_volume-add_mount (ground arith)) h)
        (rw has_volume-add_mount (ground (arith, eq_refl (name_of m)))))

  -- The mounts of a container, put behind those that a pod has: each gives one volume mount, in
  -- order; the volumes' names stay distinct; and if every mount there was names a volume of the
  -- pod, then so does every mount afterwards.
  pub add_mounts_lem :
      (vs : List Volume) (ms : List VolumeMount) (new : List Mount)
      → AreDistinct vs
      → all (λ (x : VolumeMount). has_volume vs x.name) ms ≡ true
      → let r = add_mounts md5 vs ms new in
        (r.1 ≡ ms ++ map (mount_of md5) new)
        × AreDistinct r.0
        × (all (λ (x : VolumeMount). has_volume r.0 x.name) r.1 ≡ true)
  unfolding add_mounts
  add_mounts_lem vs ms [] d h = (sym (append-nil ms), d, h)
  add_mounts_lem vs ms (m ∷ new) d h =
      let (e, d', h') =
        add_mounts_lem (add_mount md5 vs ms m).0 (add_mount md5 vs ms m).1 new
          (add_mount-AreDistinct vs ms m d) (add_mount-Resolves vs ms m h) in
      (e ∙ rw (mounts-add_mount vs ms m, append_assoc) refl, d', h')
