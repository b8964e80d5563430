-- ===== src/Commands/Lists.antt =====
-- The commands that list: images, ps, inspect, volume ls and events (cmd), with the columns of pkg/tables.
-- kv.Split and kv.SplitLast, JSON, sort.Slice and the durations of go-units are parameters.
use k3c.Prelude.{
  ℕ, ◌+◌, Bool, true, false, not, ◌&&◌, ◌||◌, Option, none, some, List, [], ◌∷◌, ◌++◌,
  if◌then◌else◌,
}
use k3c.Prelude.Text.{Text, codes, is_empty, ◌==◌, strip_prefix, cut}
use k3c.Prelude.Int.{ℤ, pos, negsuc, is_positive}
use k3c.Prelude.Decimal.{itoa}
use k3c.Prelude.Results.{Result, ok, err, panic, message, Exec, and_then}
use k3c.Core.{Pod, Container, ContainerPort, ContainerStatus}
use k3c.Daemon.Images.{Image}
use k3c.Remote.Interface.{Client, Event, Located}

-- tables.ImageData
pub record ImageData : Type 0 where
  pub id : Text
  pub tag : Text
  pub digest : Text
  pub repo : Text
  pub size : ℕ

abbrev none_text : Text
none_text = codes "<none>"

unfoldable pub or_none : Text → Text
or_none val = if is_empty val then none_text else val

unfoldable pub def_value : List Text → Text → List Text
def_value [] default = default ∷ []
def_value (x ∷ xs) default = x ∷ xs

-- strings.TrimPrefix
abbrev trim_prefix : Text → Text → Text
trim_prefix s prefix = elim (strip_prefix prefix s) [ none ↦ s | some rest ↦ rest ]

abbrev first_of : List Text → Text
first_of [] = []
first_of (x ∷ xs) = x

-- kv.Split and kv.SplitLast
pub record Splits : Type 0 where
  pub split : Text → Text → Text × Text
  pub split_last : Text → Text → Text × Text

module _ (kv : Splits) where
  abbrev repo_of : Text → Text → Text → Text
  repo_of digest_repo tag_repo tag =
      trim_prefix
        (trim_prefix (if is_empty digest_repo || not (is_empty tag) then tag_repo else digest_repo)
          (codes "docker.io/library/"))
        (codes "docker.io/")

  abbrev id_of : Text → Text → Text
  id_of image_id id = if is_empty id then image_id else id

  -- The row of an image for one of its tags.
  unfoldable pub id_repo_tag_digest : Text → Text → List Text → ℕ → ImageData
  unfolding or_none def_value
  id_repo_tag_digest image_id image_tag digests size =
      let (digest_repo, digest) = kv.split (first_of (def_value digests [])) (codes "@") in
      let (tag_repo, tag) = kv.split_last image_tag (codes ":") in
      record {
        id = id_of image_id (kv.split image_id (codes ":")).1;
        repo = or_none (repo_of digest_repo tag_repo tag);
        tag = or_none tag;
        digest = or_none digest;
        size = size;
      }

  -- Whether a row is left out: an image without a name, and one that the argument does not name.
  unfoldable pub is_hidden : Bool → Text × Text → ImageData → Bool
  is_hidden all (filter_repo, filter_tag) row =
      (row.repo == none_text && not all)
      || ((not (is_empty filter_repo) && not (filter_repo == row.repo))
          || (not (is_empty filter_tag) && not (filter_tag == row.tag)))

  -- The inner loop over the tags, and the outer one over the images.
  unfoldable pub tag_rows : Bool → Text × Text → Image → List Text → List ImageData
  unfolding id_repo_tag_digest is_hidden
  tag_rows all filter i [] = []
  tag_rows all filter i (tag ∷ tags) =
      let row = id_repo_tag_digest i.id tag i.digests i.size in
      let rest = tag_rows all filter i tags in if is_hidden all filter row then rest else row ∷ rest

  unfoldable pub image_rows : Bool → Text × Text → List Image → List ImageData
  unfolding tag_rows def_value
  image_rows all filter [] = []
  image_rows all filter (i ∷ images) =
      tag_rows all filter i (def_value i.tags []) ++ image_rows all filter images

  unfoldable pub images : {W : Type 0} → Client W → Bool → Text → Exec W (List ImageData)
  unfolding image_rows
  images cl all argument w =
      and_then (cl.list_images w)
        (λ found w'. (ok (image_rows all (kv.split_last argument (codes ":")) found), w'))

-- strconv.Itoa of an int32
abbrev itoa_of : ℤ → Text
itoa_of (pos n) = itoa n
itoa_of (negsuc n) = b'-' ∷ itoa (n + 1)

abbrev host_part : ContainerPort → Text
host_part p =
    if is_positive p.host_port
    then (if is_empty p.host_ip then [] else p.host_ip ++ codes ":")
      ++ itoa_of p.host_port
      ++ codes "->"
    else []

abbrev port_text : ContainerPort → Text
port_text p =
    host_part p ++ itoa_of p.container_port ++ (if p.is_udp then codes "/udp" else codes "/tcp")

-- The loop over the ports, after the text of those before.
unfoldable pub ports_from : Text → List ContainerPort → Text
ports_from result [] = result
ports_from result (p ∷ ports) =
    ports_from ((if is_empty result then [] else result ++ codes ", ") ++ port_text p) ports

unfoldable pub format_ports : List ContainerPort → Text
unfolding ports_from
format_ports ports = ports_from [] ports

-- The part of the image before a digest, without the registry.
unfoldable pub format_image : Text → Text
format_image image =
    let short = trim_prefix (cut b'@' image).0 (codes "docker.io/library/") in
    trim_prefix (cut b'@' short).0 (codes "docker.io/")

-- `ago` is the text of a time before now.
unfoldable pub container_status : (ℤ → Text) → ContainerStatus → Text
container_status ago s = elim s.state.waiting [
  | some _ ↦ codes "Created"
  | none ↦ elim s.state.running [
    | some r ↦ ago r.started_at
    | none ↦ elim s.state.terminated [
      | some t ↦ codes "Exited (" ++ itoa_of t.exit_code ++ codes ") " ++ ago t.finished_at
      | none ↦ codes "Unknown"
    ]
  ]
]

-- tables.ContainerData, but the info
pub record ContainerData : Type 0 where
  pub pod : Pod
  pub container : Container
  pub status : Option ContainerStatus

-- statuses[status.Name] = status: the last status of a name counts.
unfoldable pub status_named : Text → List ContainerStatus → Option ContainerStatus
status_named name [] = none
status_named name (s ∷ ss) =
    let later = status_named name ss in
    elim later [ some t ↦ some t | none ↦ if s.name == name then some s else none ]

abbrev is_running : Option ContainerStatus → Bool
is_running none = false
is_running (some s) = elim s.state.running [ some _ ↦ true | none ↦ false ]

unfoldable pub container_rows : Bool → Pod → List Container → List ContainerData
unfolding status_named
container_rows all p [] = []
container_rows all p (c ∷ cs) =
    let status = status_named c.name p.status.container_statuses in
    let rest = container_rows all p cs in
    if not all && not (is_running status)
    then rest
    else record { pod = p; container = c; status = status } ∷ rest

unfoldable pub pod_rows : Bool → List Pod → List ContainerData
unfolding container_rows
pod_rows all [] = []
pod_rows all (p ∷ ps) = container_rows all p p.spec.containers ++ pod_rows all ps

-- `sorted` is the sort by the time of creation, the latest first.
unfoldable pub ps :
    {W : Type 0} → Client W → (List Pod → List Pod) → Bool → Exec W (List ContainerData)
unfolding pod_rows
ps cl sorted all w = and_then (cl.list_pods w) (λ pods w'. (ok (pod_rows all (sorted pods)), w'))

-- What `inspect` shows of an argument: a pod, an image or nothing.
pub data Shown : Type 0 where
  shown_pod : Option Pod → Shown
  shown_image : Image → Shown

module _ {W : Type 0} (cl : Client W) where
  abbrev or_image : Text → Exec W (List Shown)
  or_image arg w = image_shown (cl.get_image arg w)
    where
      image_shown : Result Image × W → Result (List Shown) × W
      image_shown (ok i, w) = (ok (shown_image i ∷ []), w)
      image_shown (err e, w) = (ok [], w)
      image_shown (panic, w) = (panic, w)

  abbrev shown : Text → Exec W (List Shown)
  shown arg w = pod_shown (cl.get_container arg w)
    where
      pod_shown : Result Located × W → Result (List Shown) × W
      pod_shown (ok l, w) = (ok (shown_pod l.pod ∷ []), w)
      pod_shown (err e, w) = or_image arg w
      pod_shown (panic, w) = (panic, w)

  unfoldable pub inspect : List Text → Exec W (List Shown)
  inspect [] w = (ok [], w)
  inspect (arg ∷ args) w =
      and_then (shown arg w)
        (λ first w1. and_then (inspect args w1) (λ rest w2. (ok (first ++ rest), w2)))

-- What the select of `events` finds: an event or the closing of the channel, or the end of the context.
pub data Choice : Type 0 where
  receives : Option Event → Choice
  cancelled : Choice

abbrev zero_event : Event
zero_event = record { id = []; name = [] }

-- The loop of `events`: what it has printed, and its error where it ends. The second value of a
-- receive is named `done`, and is true for an event and false for a closed channel.
unfoldable pub event_loop : List Choice → List Event × Option (Result (Unit {0}))
event_loop [] = ([], none)
event_loop (cancelled ∷ cs) = ([], some (err (message (codes "context canceled"))))
event_loop (receives (some e) ∷ cs) = ([], some (ok tt))
event_loop (receives none ∷ cs) = let (printed, r) = event_loop cs in (zero_event ∷ printed, r)
