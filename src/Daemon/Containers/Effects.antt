-- ===== src/Daemon/Containers/Effects.antt =====
-- What the operations on a container do when there is none, and where the log of one is read.
use k3c.Prelude.{
  ◌≡◌, refl, true, false, any, ◌⊎◌, inl, inr, Option, List, [], ◌∷◌, ◌||◌, if◌then◌else◌,
}
use k3c.Prelude.Text.{Text, is_empty}
use k3c.Prelude.Int.{ℤ}
use k3c.Prelude.Results.{ok, err, container_not_found}
use k3c.Paths.{join}
use k3c.Cri
use k3c.Cri.{PodConfig, PodSandbox, ContainerConfig}
use k3c.Api.{ExecOptions, AttachOptions, ContainerOptions}
use k3c.Kicker.{Kicker, kick}
use k3c.Daemon.Runtime.{Runtime, Deps, IsFaithful, done, of_reply, replied, StreamRequest}
use k3c.Core.{Pod}
use k3c.Daemon.Pods.{list_pods}
use k3c.Daemon.Containers.Lookup.{OfPods, pod_matches, get_container_lem}
use k3c.Daemon.Config.{store_pod_config, store_container_config}
use k3c.Daemon.Containers.{
  Found, closed, file, get_container, start_container, stop_container, remove_container, exec,
  attach, log_container, stream_response, exec_request, exec_options, attach_request,
}
use k3c.Daemon.Create.PodRoundTrip.{get-store_pod_config}
use k3c.Daemon.Create.ContainerRoundTrip.{get-store_container_config}

module _ (r : Runtime) (deps : Deps) (name : Text) (w : r.World) (timeout : ℤ) (k : Kicker)
    (cmd : List Text) (exec_opts : Option ExecOptions) (attach_opts : Option AttachOptions) where
  -- Each operation is one call of the runtime, on the container with this id.
  abbrev pub CallsOn : Text → Type 0
  CallsOn id =
      (start_container r deps name w ≡ replied (r.start_container id w))
      × (stop_container r deps name timeout w ≡ replied (r.stop_container id timeout w))
      × (remove_container r deps name k w
          ≡ (of_reply (r.remove_container id w).0, kick k, (r.remove_container id w).1))
      × ((q : StreamRequest) × (q.container_id ≡ id)
          × (q.cmd ≡ cmd)
          × (exec r deps name cmd exec_opts w ≡ stream_response r deps q (r.exec q w)))
      × ((q : StreamRequest) × (q.container_id ≡ id)
          × (attach r deps name attach_opts w ≡ stream_response r deps q (r.attach q w)))

  -- Each operation fails without a call that could change anything.
  abbrev pub Refused : Type 0
  Refused =
      (start_container r deps name w ≡ (err container_not_found, w))
      × (stop_container r deps name timeout w ≡ (err container_not_found, w))
      × (remove_container r deps name k w ≡ (err container_not_found, kick k, w))
      × (exec r deps name cmd exec_opts w ≡ (err container_not_found, w))
      × (attach r deps name attach_opts w ≡ (err container_not_found, w))
      × (log_container r deps name w ≡ err container_not_found)

  calls_on : (f : Found) → get_container r deps name w ≡ ok f → CallsOn f.id
  unfolding start_container stop_container remove_container exec attach
  calls_on f h =
      let to_exec = exec_request r deps f.id cmd (exec_options r deps exec_opts) in
      let to_attach = attach_request r deps f attach_opts in
      (
        rw h refl,
        rw h refl,
        rw h refl,
        (to_exec, refl, refl, rw h refl),
        (to_attach, refl, rw h refl),
      )

  refused : get_container r deps name w ≡ err container_not_found → Refused
  unfolding start_container stop_container remove_container exec attach log_container
  refused h = (rw h refl, rw h refl, rw h refl, rw h refl, rw h refl, rw h refl)

  -- What a name does, over the pods that listPods gives. If a status matches it and its pod has a
  -- container of that status's name, then start, stop, remove, exec and attach are each one call of
  -- the runtime, all on the id of one such status. Otherwise they and log report that there is no
  -- container, and the runtime is not called to change anything. Removal kicks the collector either
  -- way.
  pub name_effects :
      {ps : List Pod}
      → list_pods r deps true w ≡ ok ps
      → ((f : Found) × OfPods name ps f × CallsOn f.id)
        ⊎ ((any (pod_matches name) ps ≡ false) × Refused)
  name_effects {ps} listed = elim (get_container_lem r deps name w listed) [
    | inl (f, found, of_pods) ↦ inl (f, of_pods, calls_on f found)
    | inr (missing, no_match) ↦ inr (no_match, refused missing)
  ]

-- The log of a container is read from the file that its configuration names under the log
-- directory of its pod's configuration, where the runtime lists that one container and that one
-- pod, and each has the annotations that the daemon stored, over a codec that reads back what it
-- writes. Where one of the two names is empty, the log is closed at once.
pub log_container_lem :
    (r : Runtime) (deps : Deps) (name : Text) (w : r.World) (pod : PodConfig)
    (config : ContainerConfig) (opts : ContainerOptions) {f : Found} {x : Cri.Container}
    {p : PodSandbox} {pod' : PodConfig} {config' : ContainerConfig}
    → IsFaithful deps.codec
    → get_container r deps name w ≡ ok f
    → r.list_containers f.id w ≡ done (x ∷ [])
    → r.list_pod_sandbox x.pod_sandbox_id w ≡ done (p ∷ [])
    → store_pod_config deps.codec pod ≡ ok pod'
    → p.annotations ≡ pod'.annotations
    → store_container_config deps.codec config opts ≡ ok config'
    → x.annotations ≡ config'.annotations
    → log_container r deps name w
      ≡ ok (
          if is_empty pod.log_directory || is_empty config.log_path
          then closed
          else file (join pod.log_directory config.log_path))
unfolding log_container
log_container_lem r deps name w pod config opts {f} {x} {p} {pod'} {config'} faithful found xs ps
      stored same stored' same' =
    let read = (get-store_pod_config deps.codec pod pod' p faithful stored same).0 in
    let read' =
      get-store_container_config deps.codec config config' opts x faithful stored' same' in
    rw (found, xs, read', ps, read) refl
