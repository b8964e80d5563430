-- ===== src/Daemon/Images/Tagging.antt =====
-- The names that TagImage gives an image.
use k3c.Prelude.{◌≡◌, refl, sym, ap, subst, ◌∙◌, List, [], ◌∷◌, any, arith, if◌then◌else◌}
use k3c.Prelude.Text.{Text, ◌==◌, eq_iff}
use k3c.Prelude.Results.{ok, and_then-ok, traverse}
use k3c.Daemon.Runtime.{Reply, done, failed, of_reply, of_reply-eq-ok}
use k3c.Daemon.Images.{ImageServices, StoredImage, create_named, tag_all, tag_image, resolve_image}

-- What is assumed of the image store: an image that was created is found under its name, and the
-- other names keep what they had.
pub record IsStore (v : ImageServices) : Type 0 where
  pub get-create :
      (i : StoredImage) (w w' : v.World) (k : Text)
      → v.create i w ≡ (done tt, w')
      → v.get k w' ≡ (if i.name == k then done i else v.get k w)

module _ (v : ImageServices) (l : IsStore v) where
  create_named-ok :
      (i : StoredImage) (name : Reply Text) (w w' : v.World)
      → create_named v i name w ≡ (ok tt, w')
      → (n : Text) × (name ≡ done n) × (v.create (record i { name = n }) w ≡ (done tt, w'))
  create_named-ok i (failed e) w w' h = cc
  create_named-ok i (done n) w w' h =
      let made : (v.create (record i { name = n }) w).0 ≡ done tt =
        of_reply-eq-ok _ (ap (λ x. x.0) h) in
      (n, refl, cc (made, ap (λ x. x.1) h))

  abbrev Tagged : StoredImage → List Text → v.World → v.World → Type 0
  Tagged i tags w w' =
      (names : List Text) × (traverse (λ tag. of_reply (v.parse_ref tag)) tags ≡ ok names)
      × ((k : Text)
          → v.get k w'
            ≡ (if any (λ n. n == k) names then done (record i { name = k }) else v.get k w))

  tag_all-Tagged :
      (i : StoredImage) (tags : List Text) (w w' : v.World)
      → tag_all v i tags w ≡ (ok tt, w')
      → Tagged i tags w w'
  unfolding tag_all
  tag_all-Tagged i [] w w' h = ([], refl, λ k. ap (v.get k) (sym (ap (λ x. x.1) h)))
  tag_all-Tagged i (tag ∷ tags) w w' h =
      let (_, u, first, rest) = and_then-ok (create_named v i (v.parse_ref tag) w) _ h in
      let (n, parsed, made) = create_named-ok i (v.parse_ref tag) w u first in
      let (names, others, found) = tag_all-Tagged i tags u w' rest in
      (
        n ∷ names,
        rw parsed (rw others refl),
        λ k. found k ∙ ground (arith, l.get-create (record i { name = n }) w u k made, eq_iff n k),
      )

  -- Over an image store that keeps what is created: when TagImage succeeds, the image was resolved
  -- and every tag was parsed; each name that a tag stands for now names that image, and every
  -- other name what it named before.
  pub tag_image_lem :
      (image : Text) (tags : List Text) (w w' : v.World)
      → tag_image v image tags w ≡ (ok tt, w')
      → (i : StoredImage) × (names : List Text) × (resolve_image v image w ≡ ok i)
        × (traverse (λ tag. of_reply (v.parse_ref tag)) tags ≡ ok names)
        × ((k : Text)
            → v.get k w'
              ≡ (if any (λ n. n == k) names then done (record i { name = k }) else v.get k w))
  unfolding tag_image
  tag_image_lem image tags w w' h =
      let (i, u, first, rest) = and_then-ok (resolve_image v image w, w) _ h in
      let same : w ≡ u = ap (λ x. x.1) first in
      let (names, parsed, found) =
        subst (λ x. Tagged i tags x w') (sym same) (tag_all-Tagged i tags u w' rest) in
      (i, names, ap (λ x. x.0) first, parsed, found)
