-- ===== src/Commands/Create/Laws.antt =====
-- What `create` asks the daemon for, and what the daemon shows of it.
use k3c.Prelude.{
  ◌≡◌, refl, sym, ap, subst, ◌∙◌, ◌&&◌, Bool, true, false, none, some, List, [], ◌∷◌, Bool-cases,
  inl, inr,
}
use k3c.Prelude.Text.{Text, codes, ◌==◌}
use k3c.Prelude.Maps.{lookup}
use k3c.Prelude.Results.{Error, Result, ok, err, panic, ◌>>=◌, >>=-eq-ok, and_then, and_then-cong}
use k3c.Cri.{PodConfig, node}
use k3c.Api.{get_security, PodOptions, ContainerOptions}
use k3c.Core.{Pod}
use k3c.Ports
use k3c.Daemon.Runtime.{Deps, IsFaithful}
use k3c.Daemon.Config.{store_pod_config}
use k3c.Daemon.Ids.{to_pod_user, to_group_ids}
use k3c.Daemon.Status.{PodData}
use k3c.Daemon.Pods.{is_mode, restart_policy, servers, to_pod}
use k3c.Daemon.Create.{or_default, pod_config}
use k3c.Daemon.Create.PodRoundTrip.{Shows, to_pod-Shows}
use k3c.Remote.Interface.{Client}
use k3c.Commands.Create.{
  Flags, Libraries, host_mode, to_shared_options, to_pod_options, to_container_options, pull_image,
  created_in, create, options_of,
}

-- A pod as the flags describe it. The user of the flags is the container's alone.
pub record ShowsFlags (c : Flags) (name : Text) (p : Pod) : Type 0 where
  pub hostname : p.spec.hostname ≡ or_default c.hostname name
  pub host_network : p.spec.host_network ≡ (c.net == codes "host")
  pub host_pid : p.spec.host_pid ≡ (c.pid == codes "host")
  pub host_ipc : p.spec.host_ipc ≡ (c.ipc == codes "host")
  pub user : p.spec.security.run_as_user ≡ none
  pub groups : p.spec.security.supplemental_groups ≡ []
  pub nameservers : p.spec.dns.nameservers ≡ c.dns
  pub restart : p.spec.restart_policy ≡ codes "Never"

is_mode-host_mode : (flag : Text) → is_mode (host_mode flag) node ≡ (flag == codes "host")
is_mode-host_mode flag = elim (Bool-cases (flag == codes "host")) [
  | inl h ↦ rw h refl
  | inr h ↦ rw h refl
]

abbrev pub IsPodOptions : Libraries → Flags → PodOptions → Type 0
IsPodOptions libs c o =
    (o.hostname ≡ c.hostname)
    × (o.annotations ≡ [])
    × (o.security_context ≡ some (to_shared_options libs c true))
    × (o.dns_config
        ≡ some (record { servers = c.dns; searches = c.dns_search; options = c.dns_option }))

ok-injective : {A : Type 0} {a b : A} → ok a ≡ ok b → a ≡ b
ok-injective e = cc

pub to_pod_options-ok :
    (libs : Libraries) (c : Flags) (o : PodOptions)
    → to_pod_options libs c ≡ ok o
    → IsPodOptions libs c o
unfolding to_pod_options
to_pod_options-ok libs c o e =
    let (ports, parsed, made) = >>=-eq-ok (Ports.parse c.publish) _ e in
    subst (IsPodOptions libs c) (ok-injective made) (refl, refl, refl, refl)

shows_flags :
    (libs : Libraries) (c : Flags) (name : Text) (o : PodOptions) (p : Pod)
    → IsPodOptions libs c o
    → Shows o name p
    → ShowsFlags c name p
unfolding to_shared_options to_pod_user to_group_ids restart_policy lookup
shows_flags libs c name o p (hostname, annotations, security, dns) s = record {
  hostname = s.hostname ∙ ap (λ h. or_default h name) hostname;
  host_network =
      s.host_network
      ∙ ap (λ x. is_mode (get_security x).net_mode node) security
      ∙ is_mode-host_mode c.net;
  host_pid =
      s.host_pid
      ∙ ap (λ x. is_mode (get_security x).pid_mode node) security
      ∙ is_mode-host_mode c.pid;
  host_ipc =
      s.host_ipc
      ∙ ap (λ x. is_mode (get_security x).ipc_mode node) security
      ∙ is_mode-host_mode c.ipc;
  user = s.user ∙ ap (λ x. to_pod_user (get_security x).user) security;
  groups = ok-injective (sym s.groups ∙ ap (λ x. to_group_ids (get_security x).groups) security);
  nameservers = s.nameservers ∙ ap servers dns;
  restart = s.restart ∙ ap restart_policy annotations;
}

-- Over a codec that reads back what it writes: where the image is there or can be pulled and the
-- flags are valid, `create` asks for a pod of the container's name and then for the container in
-- it. The pod that the daemon shows for a sandbox that has the annotations of this request shows
-- what the flags say: the host name, or the container's name where there is none; the host's
-- network, PID and IPC namespaces exactly where the flag reads host; the name servers; and neither
-- a user nor groups, which are the container's, nor any restart policy but Never.
pub create_lem :
    {W : Type 0} (cl : Client W) (deps : Deps) (libs : Libraries) (c : Flags) (image : Text)
    (args : List Text) (stdin_once : Bool) (w : W) {w1 : W} {pulled : Text} {po : PodOptions}
    {co : ContainerOptions} (log_path id : Text) (config : PodConfig) (d : PodData)
    → IsFaithful deps.codec
    → pull_image cl libs image true false w ≡ (ok pulled, w1)
    → to_pod_options libs c ≡ ok po
    → to_container_options libs c args ≡ ok co
    → (pod_config log_path id co.name po >>= store_pod_config deps.codec) ≡ ok config
    → d.sandbox.annotations ≡ config.annotations
    → (create cl libs c (image ∷ args) stdin_once w
        ≡ created_in cl libs image
            (record co { stdin_once = stdin_once })
            (cl.create_pod co.name (some po) w1))
      × ((p : Pod) × (to_pod deps d ≡ ok p) × ShowsFlags c co.name p)
unfolding create
create_lem cl deps libs c image args stdin_once w {w1} {pulled} {po} {co} log_path id config d
      faithful pull pod_ok container_ok stored same =
    let (p, shown, s) = to_pod-Shows deps log_path id co.name po config d faithful stored same in
    (
      rw (pull, create) (rw (pod_ok, container_ok) refl),
      (p, shown, shows_flags libs c co.name po p (to_pod_options-ok libs c po pod_ok) s),
    )

-- A client whose CreatePod fails, always or with other errors.
abbrev pub without_pods : {W : Type 0} → Error → Client W → Client W
without_pods e cl = record cl { create_pod = λ name opts w. (err e, w) }

abbrev pub other_error : {A W : Type 0} → (Error → Error) → Result A × W → Result A × W
other_error f (ok a, w) = (ok a, w)
other_error f (err e, w) = (err (f e), w)
other_error f (panic, w) = (panic, w)

abbrev pub with_pod_errors : {W : Type 0} → (Error → Error) → Client W → Client W
with_pod_errors f cl = record cl {
  create_pod = λ name opts w. other_error f (cl.create_pod name opts w);
}

abbrev pub is_ok : {A : Type 0} → Result A → Bool
is_ok (ok a) = true
is_ok (err e) = false
is_ok panic = false

module _ {W : Type 0} (cl : Client W) (libs : Libraries) where
  created_in-other_error :
      (f : Error → Error) (image : Text) (opts : ContainerOptions) (t : Result Text × W)
      → created_in (with_pod_errors f cl) libs image opts (other_error f t)
        ≡ created_in cl libs image opts t
  created_in-other_error f image opts (ok pod_id, w) = refl
  created_in-other_error f image opts (err e, w) = refl
  created_in-other_error f image opts (panic, w) = refl

  abbrev both :
      Result PodOptions → Result ContainerOptions → Bool → Result (PodOptions × ContainerOptions)
  both pod_options container_options stdin_once = do
    po ← pod_options
    co ← container_options
    ok (po, record co { stdin_once = stdin_once })

  -- What `create` ends with where there is no pod.
  abbrev no_pod : {A : Type 0} → A → W → Result Text × W
  no_pod a w = (ok [], w)

  options_given :
      (po : Result PodOptions) (co : Result ContainerOptions) (stdin_once : Bool) (w : W)
      → is_ok (and_then (both po co stdin_once, w) no_pod).0 ≡ (is_ok po && is_ok co)
  options_given (ok p) (ok o) stdin_once w = refl
  options_given (ok p) (err e) stdin_once w = refl
  options_given (ok p) panic stdin_once w = refl
  options_given (err e) co stdin_once w = refl
  options_given panic co stdin_once w = refl

  image_given :
      (t : Result Text × W) (po : Result PodOptions) (co : Result ContainerOptions)
      (stdin_once : Bool)
      → is_ok (and_then t (λ _ v. and_then (both po co stdin_once, v) no_pod)).0
        ≡ (is_ok t.0 && (is_ok po && is_ok co))
  image_given (ok pulled, w) po co stdin_once = options_given po co stdin_once w
  image_given (err e, w) po co stdin_once = refl
  image_given (panic, w) po co stdin_once = refl

  -- The errors of CreatePod are lost: whatever errors they are replaced by, `create` ends the same,
  -- and over a daemon that never creates a pod it succeeds exactly where the image is there or can
  -- be pulled and the flags are valid.
  pub create-lost_error :
      (f : Error → Error) (e : Error) (c : Flags) (image : Text) (args : List Text)
      (stdin_once : Bool) (w : W)
      → (create (with_pod_errors f cl) libs c (image ∷ args) stdin_once w
          ≡ create cl libs c (image ∷ args) stdin_once w)
        × (is_ok (create (without_pods e cl) libs c (image ∷ args) stdin_once w).0 ≡ (
            is_ok (pull_image cl libs image true false w).0
            && (is_ok (to_pod_options libs c) && is_ok (to_container_options libs c args))))
  unfolding create pull_image
  create-lost_error f e c image args stdin_once w = (
    and_then-cong (pull_image cl libs image true false w) _ _ (λ _ w1.
        and_then-cong (options_of libs c args stdin_once, w1) _ _
          (λ opts w2.
            created_in-other_error f image opts.1 (cl.create_pod opts.1.name (some opts.0) w2))),
    image_given (pull_image cl libs image true false w) (to_pod_options libs c)
        (to_container_options libs c args) stdin_once,
  )
