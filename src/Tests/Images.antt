-- ===== src/Tests/Images.antt =====
-- Images and pushes on concrete inputs.
use k3c.Prelude.{
  ◌≡◌, refl, ap, sym, Option, none, some, List, [], ◌∷◌, ◌++◌, map, any, if◌then◌else◌,
}
use k3c.Prelude.Text.{Text, codes, ◌==◌}
use k3c.Prelude.Maps.{lookup}
use k3c.Prelude.Int.{pos}
use k3c.Prelude.Results.{ok, other, traverse}
use k3c.PushStatus.{new_push_jobs, job_info, status}
use k3c.PushStatus.Laws.{add_all, first_occurrences, status-add_all}
use k3c.Daemon.Runtime.{Reply, done, failed, of_reply}
use k3c.Daemon.Images.{
  ImageServices, StoredImage, CriImage, ContentStatus, content_info, image_pulled, resolve_image,
  get_image, tag_all, tag_image, pull_progress,
}
use k3c.Daemon.Images.Tagging.{IsStore, tag_image_lem}
use k3c.Daemon.Images.Progress.{pull_progress_lem}
use k3c.Daemon.Pushes.{
  Pushes, Action, begins, adds, ends, run, push_image, push_progress, tracker_status,
}
use k3c.Daemon.Pushes.Laws.{push_progress_lem, push_progress-shared, push_image_lem, added_by}

abbrev two_refs : List Text
two_refs = codes "layer" ∷ codes "config" ∷ codes "layer" ∷ []

status-add_all_example :
    status (λ ref. none) (add_all new_push_jobs two_refs)
    ≡ map (λ ref. job_info ref none) (first_occurrences two_refs)
status-add_all_example = status-add_all (λ ref. none) two_refs

abbrev find_stored : Text → List StoredImage → Reply StoredImage
find_stored k [] = failed (other (codes "not found"))
find_stored k (i ∷ w) = let rest = find_stored k w in if i.name == k then done i else rest

abbrev pub cri_image : Text → CriImage
cri_image k = record { id = b'i' ∷ k; repo_tags = []; repo_digests = k ∷ []; size = 7 }

abbrev cri_status : Text → List StoredImage → Option CriImage
cri_status k w = if any (λ i. i.name == k) w then some (cri_image k) else none

abbrev layer_half : List ContentStatus
layer_half =
    record { ref = codes "layer"; offset = 1; total = 2; started_at = pos 0; updated_at = pos 1 }
    ∷ []

-- A store that is a list of images; a digest is a name in it.
abbrev pub test_images : ImageServices
test_images = record {
  World = List StoredImage;
  remove = λ id w. (done tt, w);
  list = λ w. done [];
  status = λ k w. done (cri_status k w);
  pull = λ image auth w. (done image, record { name = image; target = image } ∷ w);
  statuses = λ w. done layer_half;
  get = find_stored;
  create = λ i w. (done tt, i ∷ w);
  parse_ref = λ t. done t;
  push = λ i auth w. ((done tt, two_refs), w);
}

test_images-IsStore : IsStore test_images
test_images-IsStore = record { get-create = created }
  where
    created :
        (i : StoredImage) (w w' : List StoredImage) (k : Text)
        → test_images.create i w ≡ (done tt, w')
        → find_stored k w' ≡ (if i.name == k then done i else find_stored k w)
    created i w w' k h = ap (find_stored k) (sym (ap (λ x. x.1) h))

abbrev base_image : StoredImage
base_image = record { name = codes "base"; target = codes "sha256:1" }

abbrev named_image : Text → StoredImage
named_image name = record base_image { name = name }

tags_created :
    tag_image test_images (codes "base") (codes "a" ∷ codes "b" ∷ []) (base_image ∷ [])
    ≡ (ok tt, named_image (codes "b") ∷ named_image (codes "a") ∷ base_image ∷ [])
unfolding tag_image tag_all resolve_image get_image ◌==◌
tags_created = refl

tag_image_lem_example :
    (i : StoredImage) × (names : List Text) × (resolve_image test_images
        (codes "base")
        (base_image ∷ [])
      ≡ ok i)
    × (traverse (λ tag. of_reply (test_images.parse_ref tag)) (codes "a" ∷ codes "b" ∷ [])
        ≡ ok names)
    × ((k : Text)
        → find_stored k (named_image (codes "b") ∷ named_image (codes "a") ∷ base_image ∷ []) ≡ (
            if any (λ n. n == k) names
            then done (record i { name = k })
            else find_stored k (base_image ∷ [])))
tag_image_lem_example =
    tag_image_lem test_images test_images-IsStore (codes "base") (codes "a" ∷ codes "b" ∷ [])
      (base_image ∷ []) (named_image (codes "b") ∷ named_image (codes "a") ∷ base_image ∷ [])
      tags_created

pull_progress_lem_example :
    pull_progress test_images (codes "base") [] ([] ∷ (base_image ∷ []) ∷ [])
    ≡ ok (some (map (map content_info) (layer_half ∷ []) ++ [] ∷ []))
unfolding image_pulled ◌==◌
pull_progress_lem_example =
    pull_progress_lem test_images (codes "base") [] ([] ∷ []) (base_image ∷ []) [] (layer_half ∷ [])
      refl (refl, refl, tt) refl

abbrev no_pushes : Pushes
no_pushes = record { jobs = []; trackers = λ n. new_push_jobs }

abbrev two_pushes : List Action
two_pushes =
    adds 1 (codes "layer")
    ∷ begins 2 (codes "other")
    ∷ adds 2 (codes "x")
    ∷ adds 1 (codes "config")
    ∷ ends 2 (codes "other")
    ∷ []

push_progress_lem_example :
    let now = run (begins 1 (codes "base") ∷ two_pushes) no_pushes in
    (push_progress (codes "base") (now ∷ []) ≡ some 1)
    × (tracker_status (λ ref. none) 1 now
        ≡ map (λ ref. job_info ref none) (first_occurrences (added_by 1 two_pushes)))
unfolding ◌==◌
push_progress_lem_example =
    push_progress_lem (λ ref. none) 1 (codes "base") two_pushes no_pushes [] refl

-- The second of two pushes of one image ends first, and the first goes on.
push_progress-shared_example :
    push_progress (codes "base") (
      map
        (λ acts.
          run
            ((begins 1 (codes "base") ∷ begins 2 (codes "base") ∷ [])
              ++ ends 2 (codes "base") ∷ acts)
            no_pushes)
        ([] ∷ (adds 1 (codes "layer") ∷ []) ∷ []))
    ≡ none
push_progress-shared_example =
    push_progress-shared (codes "base") 2 (begins 1 (codes "base") ∷ begins 2 (codes "base") ∷ [])
      ([] ∷ (adds 1 (codes "layer") ∷ []) ∷ []) no_pushes refl

push_image_lem_example :
    lookup
      (codes "base")
      (push_image test_images 1 (codes "base") none (no_pushes, base_image ∷ [])).1.0.jobs
    ≡ (if codes "base" == codes "base" then none else lookup (codes "base") no_pushes.jobs)
push_image_lem_example =
    push_image_lem test_images 1 (codes "base") (codes "base") none no_pushes (base_image ∷ [])
