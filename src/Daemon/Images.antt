-- ===== src/Daemon/Images.antt =====
-- pkg/daemon/image.go: images, and the progress of pulls. The CRI image service, containerd's
-- image and content stores and the parser of image references are parameters.
pub mod Tagging
pub mod Progress
use k3c.Prelude.{
  ℕ, Bool, true, false, Option, none, some, List, [], ◌∷◌, ◌++◌, map, eqb, ltb, if◌then◌else◌,
}
use k3c.Prelude.Text.{Text, codes}
use k3c.Prelude.Results.{
  Error, Result, ok, err, panic, image_not_found, wrapped, Exec, and_then, ◌>>=◌,
}
use k3c.Prelude.Int.{ℤ}
use k3c.PushStatus.{Info}
use k3c.Daemon.Runtime.{Reply, done, failed, of_reply, replied, Call}

-- client.Image
pub record Image : Type 0 where
  pub id : Text
  pub tags : List Text
  pub digests : List Text
  pub size : ℕ

-- Image of the CRI, as far as it is read
pub record CriImage : Type 0 where
  pub id : Text
  pub repo_tags : List Text
  pub repo_digests : List Text
  pub size : ℕ

-- client.AuthConfig
pub record AuthConfig : Type 0 where
  pub username : Text
  pub password : Text
  pub auth : Text
  pub email : Text
  pub server_address : Text
  pub identity_token : Text
  pub registry_token : Text

-- AuthConfig of the CRI
pub record CriAuth : Type 0 where
  pub username : Text
  pub password : Text
  pub auth : Text
  pub server_address : Text
  pub identity_token : Text
  pub registry_token : Text

-- images.Image of containerd; the target is a digest.
pub record StoredImage : Type 0 where
  pub name : Text
  pub target : Text

-- content.Status
pub record ContentStatus : Type 0 where
  pub ref : Text
  pub offset : ℕ
  pub total : ℕ
  pub started_at : ℤ
  pub updated_at : ℤ

pub record ImageServices : Type 1 where
  pub World : Type 0
  pub remove : Text → Call World (Unit {0})
  pub list : World → Reply (List CriImage)
  pub status : Text → World → Reply (Option CriImage)
  pub pull : Text → Option CriAuth → Call World Text
  pub statuses : World → Reply (List ContentStatus)
  pub get : Text → World → Reply StoredImage
  pub create : StoredImage → Call World (Unit {0})
  pub parse_ref : Text → Reply Text
  -- A push, with the refs that its handler is called with, in order.
  pub push : StoredImage → Option CriAuth → World → (Reply (Unit {0}) × List Text) × World

unfoldable pub to_auth : Option AuthConfig → Option CriAuth
to_auth none = none
to_auth (some a) = some (record {
  username = a.username;
  password = a.password;
  auth = a.auth;
  server_address = a.server_address;
  identity_token = a.identity_token;
  registry_token = a.registry_token;
})

unfoldable pub image_to_image : CriImage → Image
image_to_image i = record { id = i.id; tags = i.repo_tags; digests = i.repo_digests; size = i.size }

-- What a pull shows of one piece of content.
unfoldable pub content_message : ℕ → ℕ → Text
content_message offset total =
    if eqb offset total
    then codes "unpacking"
    else if ltb 0 offset
    then codes "downloading"
    else codes "waiting"

unfoldable pub content_info : ContentStatus → Info
unfolding content_message
content_info s = record {
  ref = s.ref;
  status = content_message s.offset s.total;
  offset = s.offset;
  total = s.total;
  started_at = s.started_at;
  updated_at = s.updated_at;
}

abbrev no_digest : Image → Error
no_digest i =
    wrapped (codes "image " ++ i.id ++ codes " does not have a valid digest") image_not_found

module _ (v : ImageServices) where
  unfoldable pub remove_image : Text → Exec v.World (Unit {0})
  remove_image id w = replied (v.remove id w)

  unfoldable pub list_images : v.World → Result (List Image)
  unfolding image_to_image
  list_images w = do images ← of_reply (v.list w); ok (map image_to_image images)

  abbrev pub found_image : Option CriImage → Result Image
  found_image none = err image_not_found
  found_image (some i) = ok (image_to_image i)

  unfoldable pub get_image : Text → v.World → Result Image
  unfolding image_to_image
  get_image image w = of_reply (v.status image w) >>= found_image

  abbrev by_digest : v.World → Image → List Text → Result StoredImage
  by_digest w i [] = err (no_digest i)
  by_digest w i (d ∷ ds) = of_reply (v.get d w)

  unfoldable pub resolve_image : Text → v.World → Result StoredImage
  resolve_image image w = get_image image w >>= λ i. by_digest w i i.digests

  abbrev pub create_named : StoredImage → Reply Text → Exec v.World (Unit {0})
  create_named i (done name) w = replied (v.create (record i { name = name }) w)
  create_named i (failed e) w = (err e, w)

  -- The loop over the tags. Those before an error stay.
  unfoldable pub tag_all : StoredImage → List Text → Exec v.World (Unit {0})
  tag_all i [] w = (ok tt, w)
  tag_all i (tag ∷ tags) w =
      and_then (create_named i (v.parse_ref tag) w) (λ _ w'. tag_all i tags w')

  unfoldable pub tag_image : Text → List Text → Exec v.World (Unit {0})
  tag_image image tags w = and_then (resolve_image image w, w) (λ i w'. tag_all i tags w')

  unfoldable pub pull_image : Text → Option AuthConfig → Exec v.World Text
  pull_image image auth w = replied (v.pull image (to_auth auth) w)

  abbrev is_there : Option CriImage → Bool
  is_there none = false
  is_there (some _) = true

  unfoldable pub image_pulled : Text → v.World → Result Bool
  image_pulled image w = of_reply (v.status image w) >>= λ i. ok (is_there i)

  abbrev progress_of : v.World → Bool → Result (List Info × Bool)
  progress_of w true = ok ([], true)
  progress_of w false = do statuses ← of_reply (v.statuses w); ok (map content_info statuses, false)

  unfoldable pub image_progress : Text → v.World → Result (List Info × Bool)
  unfolding content_info
  image_progress image w = image_pulled image w >>= progress_of w

  -- What the goroutine of PullProgress sends after one tick, given what it sends after the later
  -- ones: it stops at an error, and when the image is there.
  abbrev sent : Result (List Info × Bool) → List (List Info) → List (List Info)
  sent (ok (status, true)) later = status ∷ []
  sent (ok (status, false)) later = status ∷ later
  sent (err e) later = [] ∷ []
  sent panic later = []

  -- The worlds that the ticks of the clock find.
  unfoldable pub pull_stream : Text → List v.World → List (List Info)
  pull_stream image [] = []
  pull_stream image (w ∷ ws) =
      let later = pull_stream image ws in sent (image_progress image w) later

  abbrev stream_unless : Text → List v.World → Bool → Option (List (List Info))
  stream_unless image ticks true = none
  stream_unless image ticks false = some (pull_stream image ticks)

  -- The nil channel is `none`.
  unfoldable pub pull_progress : Text → v.World → List v.World → Result (Option (List (List Info)))
  pull_progress image w ticks = do
    pulled ← image_pulled image w
    ok (stream_unless image ticks pulled)
