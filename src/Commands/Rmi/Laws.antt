-- ===== src/Commands/Rmi/Laws.antt =====
-- Which images `rmi` removes for a digest.
use k3c.Prelude.{
  ◌≡◌, refl, sym, ap, ◌∙◌, true, List, [], ◌∷◌, ◌++◌, keep, map, Bool-cases, inl, inr,
}
use k3c.Prelude.Text.{Text, codes, has_prefix, has_suffix}
use k3c.Prelude.Results.{ok, Exec, and_then, and_then-cong, and_then_assoc}
use k3c.Daemon.Images.{Image}
use k3c.Remote.Interface.{Client}
use k3c.Commands.Rmi.{remove_matching, remove_listed, remove_image}

-- The id of an image, once for each of its digests that is the one asked for.
abbrev pub ids_of : Text → Image → List Text
ids_of name i = map (λ d. i.id) (keep (λ d. has_suffix d (b'@' ∷ name)) i.digests)

abbrev pub matching : Text → List Image → List Text
matching name [] = []
matching name (i ∷ images) = ids_of name i ++ matching name images

module _ {W : Type 0} (cl : Client W) where
  -- Removal of one id after the other, until one fails.
  abbrev pub remove_each : List Text → Exec W (Unit {0})
  remove_each [] w = (ok tt, w)
  remove_each (id ∷ ids) w = and_then (cl.remove_image id w) (λ _ w'. remove_each ids w')

  remove_each-append :
      (ids others : List Text) (w : W)
      → remove_each (ids ++ others) w ≡ and_then (remove_each ids w) (λ _ w'. remove_each others w')
  remove_each-append [] others w = refl
  remove_each-append (id ∷ ids) others w =
      and_then-cong (cl.remove_image id w) _ _ (λ _ v. remove_each-append ids others v)
      ∙ sym (
          and_then_assoc (cl.remove_image id w) (λ _ v. remove_each ids v)
            (λ _ v. remove_each others v))

  remove_matching-eq :
      (name id : Text) (digests : List Text) (w : W)
      → remove_matching cl name id digests w
        ≡ remove_each (map (λ d. id) (keep (λ d. has_suffix d (b'@' ∷ name)) digests)) w
  unfolding remove_matching
  remove_matching-eq name id [] w = refl
  remove_matching-eq name id (d ∷ digests) w = elim (Bool-cases (has_suffix d (b'@' ∷ name))) [
    | inr h ↦ rw (h, remove_matching) (remove_matching-eq name id digests w)
    | inl h ↦
        rw (h, remove_matching)
          (and_then-cong (cl.remove_image id w) _ _ (λ _ v. remove_matching-eq name id digests v))
  ]

  remove_listed-eq :
      (name : Text) (images : List Image) (w : W)
      → remove_listed cl name images w ≡ remove_each (matching name images) w
  unfolding remove_listed
  remove_listed-eq name [] w = refl
  remove_listed-eq name (i ∷ images) w =
      ap (λ x. and_then x (λ _ v. remove_listed cl name images v))
        (remove_matching-eq name i.id i.digests w)
      ∙ and_then-cong (remove_each (ids_of name i) w) _ _ (λ _ v. remove_listed-eq name images v)
      ∙ sym (remove_each-append (ids_of name i) (matching name images) w)

  -- For a digest, `rmi` removes the images that the daemon lists with it, by their ids and in order,
  -- until a removal fails: each one as often as it has that digest, under different names. Where
  -- there is none, it reports success and has removed nothing.
  pub remove_image_lem :
      (name : Text) (w : W) {w1 : W} {images : List Image}
      → has_prefix name (codes "sha256:") ≡ true
      → cl.list_images w ≡ (ok images, w1)
      → remove_image cl name w ≡ remove_each (matching name images) w1
  unfolding remove_image
  remove_image_lem name w {w1} {images} h listed =
      rw (h, remove_image) (rw listed (remove_listed-eq name images w1))
