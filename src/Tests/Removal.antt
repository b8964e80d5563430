-- ===== src/Tests/Removal.antt =====
-- `rmi` on a concrete list of images.
use k3c.Prelude.{◌≡◌, refl, List, [], ◌∷◌}
use k3c.Prelude.Text.{Text, codes, has_prefix, strip_prefix}
use k3c.Prelude.Results.{ok}
use k3c.Daemon.Images.{Image}
use k3c.Remote.Interface.{Client}
use k3c.Tests.Clients.{idle}
use k3c.Commands.Rmi
use k3c.Commands.Rmi.Laws.{matching, remove_each, remove_image_lem}

abbrev two_names : List Image
two_names =
    record {
      id = codes "sha256:1";
      tags = [];
      digests = codes "a@sha256:2" ∷ codes "b@sha256:2" ∷ [];
      size = 1;
    }
    ∷ []

-- A client that notes the ids of the images that it removes.
abbrev noting : Client (List Text)
noting = record (idle (List Text)) {
  list_images = λ w. (ok two_names, w);
  remove_image = λ id w. (ok tt, id ∷ w);
}

remove_image_lem_example :
    Rmi.remove_image noting (codes "sha256:2") []
    ≡ remove_each noting (matching (codes "sha256:2") two_names) []
unfolding has_prefix strip_prefix
remove_image_lem_example = remove_image_lem noting (codes "sha256:2") [] refl refl
