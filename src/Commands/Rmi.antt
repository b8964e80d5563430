-- ===== src/Commands/Rmi.antt =====
-- cmd/rmi/rmi.go: images are removed by name, or by the digest of their contents.
pub mod Laws
use k3c.Prelude.{Bool, true, false, ◌&&◌, List, [], ◌∷◌, ◌++◌, if◌then◌else◌}
use k3c.Prelude.Text.{Text, codes, has_prefix, has_suffix}
use k3c.Prelude.Results.{Error, Result, ok, err, panic, Exec, and_then}
use k3c.Daemon.Images.{Image}
use k3c.Remote.Interface.{Client}

module _ {W : Type 0} (cl : Client W) where
  -- The loop over the digests of one image.
  unfoldable pub remove_matching : Text → Text → List Text → Exec W (Unit {0})
  remove_matching name id [] w = (ok tt, w)
  remove_matching name id (digest ∷ digests) w =
      if has_suffix digest (b'@' ∷ name)
      then and_then (cl.remove_image id w) (λ _ w'. remove_matching name id digests w')
      else remove_matching name id digests w

  unfoldable pub remove_listed : Text → List Image → Exec W (Unit {0})
  remove_listed name [] w = (ok tt, w)
  remove_listed name (i ∷ images) w =
      and_then (remove_matching name i.id i.digests w) (λ _ w'. remove_listed name images w')

  unfoldable pub remove_image : Text → Exec W (Unit {0})
  remove_image name w =
      if has_prefix name (codes "sha256:")
      then and_then (cl.list_images w) (λ images w'. remove_listed name images w')
      else cl.remove_image name w

  abbrev pub succeeded : Result (Unit {0}) → Bool
  succeeded (ok _) = true
  succeeded _ = false

  -- The loop of Run: whether all the images were removed. An error does not end it.
  unfoldable pub remove_images : List Text → W → Bool × W
  unfolding remove_image
  remove_images [] w = (true, w)
  remove_images (name ∷ names) w =
      let (r, w1) = remove_image name w in
      let (rest, w2) = remove_images names w1 in (succeeded r && rest, w2)
