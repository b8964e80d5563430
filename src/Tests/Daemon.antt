-- ===== src/Tests/Daemon.antt =====
-- The daemon on concrete inputs.
use k3c.Prelude.{
  ◌≡◌, ◌⊎◌, refl, true, false, none, some, List, [], ◌∷◌, any, arith, ◌||◌, if◌then◌else◌,
}
use k3c.Prelude.Text.{codes, ◌==◌, is_empty}
use k3c.Prelude.Maps.{lookup, insert}
use k3c.Prelude.Int.{pos, parse_int}
use k3c.Prelude.Results.{ok, err, panic, container_not_found, traverse}
use k3c.Paths.{join}
use k3c.Cri
use k3c.Cri.{PodSandbox, ready, exited}
use k3c.Core
use k3c.Core.{Pod, Volume}
use k3c.Kicker.{new}
use k3c.Volume.{default_volume_dir}
use k3c.Daemon.Runtime.{done, replied}
use k3c.Daemon.Config.{get_container_config}
use k3c.Daemon.Gc.{IsOrder, run_gc, scan, zero_counts, collect_all, collect}
use k3c.Daemon.Gc.Removal.{run_gc_spares, run_gc_removes}
use k3c.Daemon.Status.{ContainerData, to_phase, to_pod_start_time}
use k3c.Daemon.Status.Laws.{
  is_final, to_phase_never_final, to_phase-all_exited, start_time_of_unstarted,
}
use k3c.Daemon.Ids.{to_group_ids}
use k3c.Daemon.Ids.Laws.{to_group_ids_lem}
use k3c.Daemon.Convert.{to_container}
use k3c.Daemon.Pods.{to_pod, load_pods, list_pods, status_of, attach_containers, pods_from, to_pods}
use k3c.Daemon.Pods.Listing.{own, last_of, load_pods_lem}
use k3c.Daemon.Containers.{
  Found, closed, file, get_container, stop_container, log_container, find_pod,
}
use k3c.Daemon.Containers.Lookup.{OfPods, pod_matches, get_container_lem, get_container_empty, one}
use k3c.Daemon.Containers.Effects.{CallsOn, Refused, name_effects, log_container_lem}
use k3c.Daemon.Create.{container_config, beside, create_pod, create_container}
use k3c.Daemon.Create.PodRoundTrip.{Shows, create_pod_lem}
use k3c.Daemon.Create.ContainerRoundTrip.{
  ShowsContainer, create_container_lem, get-store_container_config,
}
use k3c.Tests.Codecs.{test_codec, test_codec-IsFaithful}
use k3c.Tests.World.{test_runtime, test_runtime-KeepsPods, test_deps, test_disk}
use k3c.Tests.Values.{
  web_options, web_config, web_sandbox, web_data, empty_world, one_pod, running_world, sh_options,
  sh_prepared, sh_mounts, sh_config, sh_container, sh_data, uuids, shown_pod, shown_listed,
  sh_found_there, sh_found_listed, web_written, web_written_stored, sh_status, shown_status,
  shown_named, web_config_made, sh_options_prepared, sh_mounts_resolved, sh_config_stored,
}

pub plain-IsOrder : IsOrder (λ m. m)
plain-IsOrder = record { all-order = λ p m. refl }

empty_pod_success : (run_gc test_runtime test_codec (λ m. m) (λ w. w) one_pod).0 ≡ ok tt
unfolding run_gc scan zero_counts insert collect_all collect
empty_pod_success = refl

run_gc_removes_example :
    test_runtime-KeepsPods.has_pod
      (run_gc test_runtime test_codec (λ m. m) (λ w. w) one_pod).1
      (codes "p1")
    ≡ false
unfolding ◌==◌
run_gc_removes_example =
    run_gc_removes test_runtime test_codec test_runtime-KeepsPods (λ m. m) plain-IsOrder (λ w. w)
      one_pod refl refl (codes "p1") refl refl empty_pod_success

pub sh_readable :
    get_container_config test_codec sh_container
    ≡ ok (container_config (codes "busybox") sh_options sh_prepared sh_mounts, sh_options)
sh_readable =
    get-store_container_config test_codec
      (container_config (codes "busybox") sh_options sh_prepared sh_mounts) sh_config sh_options
      sh_container test_codec-IsFaithful sh_config_stored refl

one_run_spares :
    test_runtime-KeepsPods.has_pod
      (run_gc test_runtime test_codec (λ m. m) (λ w. w) running_world).1
      (codes "p1")
    ≡ true
unfolding ◌==◌
one_run_spares =
    run_gc_spares test_runtime test_codec test_runtime-KeepsPods (λ m. m) plain-IsOrder (λ w. w)
      running_world refl refl (codes "p1") (rw sh_readable (omega arith)) refl (λ v. refl)

create_pod_lem_example :
    (create_pod test_runtime test_codec [] (codes "p1") (codes "web") (some web_options) empty_world
      ≡ replied (test_runtime.run_pod_sandbox web_config [] empty_world))
    × ((p : Pod) × (to_pod test_deps web_data ≡ ok p) × Shows web_options (codes "web") p)
create_pod_lem_example =
    create_pod_lem test_runtime test_deps [] (codes "p1") (codes "web") (some web_options)
      empty_world web_config web_data test_codec-IsFaithful web_config_made refl

create_container_lem_example :
    (create_container test_runtime test_codec test_disk default_volume_dir uuids
        (codes "p1")
        (codes "busybox")
        (some sh_options)
        (one_pod, [])
      ≡ beside test_runtime test_codec test_disk default_volume_dir uuids
          (codes "/var/lib/rancher/k3c/volumes/0211ff" ∷ [])
          (test_runtime.create_container (codes "p1") sh_config sh_prepared.pod one_pod))
    × ((vs : List Volume) × (k : Core.Container) × (to_container test_deps [] [] sh_data
          ≡ ok (vs, k))
        × ShowsContainer test_deps sh_options sh_mounts [] k)
create_container_lem_example =
    create_container_lem test_runtime test_deps test_disk default_volume_dir uuids (codes "p1")
      (codes "busybox") (some sh_options) one_pod [] _ sh_prepared sh_mounts sh_config sh_data [] []
      test_codec-IsFaithful sh_options_prepared sh_mounts_resolved sh_config_stored refl

shown_loaded : load_pods test_runtime test_deps running_world ≡ ok ((codes "p1", web_data) ∷ [])
unfolding load_pods attach_containers status_of pods_from insert lookup ◌==◌
shown_loaded = refl

load_pods_lem_example :
    ((p : PodSandbox) × (ys : List ContainerData) × (last_of (codes "p1") (web_sandbox ∷ [])
        ≡ some p)
      × (p.id ≡ codes "p1")
      × (traverse
            (status_of test_runtime test_deps running_world)
            (own test_runtime test_deps running_world (codes "p1") (sh_container ∷ []))
          ≡ ok ys)
      × (lookup (codes "p1") ((codes "p1", web_data) ∷ [])
          ≡ some (record { id = codes "p1"; sandbox = p; containers = ys })))
    ⊎ ((last_of (codes "p1") (web_sandbox ∷ []) ≡ none)
        × (lookup (codes "p1") ((codes "p1", web_data) ∷ []) ≡ none))
load_pods_lem_example =
    load_pods_lem test_runtime test_deps running_world (codes "p1") refl refl shown_loaded

get_container_lem_example :
    ((f : Found) × (get_container test_runtime test_deps (codes "web") running_world ≡ ok f)
      × OfPods (codes "web") (shown_pod ∷ []) f)
    ⊎ ((get_container test_runtime test_deps (codes "web") running_world ≡ err container_not_found)
        × (any (pod_matches (codes "web")) (shown_pod ∷ []) ≡ false))
get_container_lem_example =
    get_container_lem test_runtime test_deps (codes "web") running_world shown_listed

name_effects_example :
    ((f : Found) × OfPods (codes "web") (shown_pod ∷ []) f
      × CallsOn test_runtime test_deps
          (codes "web")
          running_world
          (pos 5)
          (new false)
          []
          none
          none
          f.id)
    ⊎ ((any (pod_matches (codes "web")) (shown_pod ∷ []) ≡ false)
        × Refused test_runtime test_deps
            (codes "web")
            running_world
            (pos 5)
            (new false)
            []
            none
            none)
name_effects_example =
    name_effects test_runtime test_deps (codes "web") running_world (pos 5) (new false) [] none none
      shown_listed

-- No container is there to be found.
none_there :
    stop_container test_runtime test_deps (codes "x") (pos 5) empty_world
    ≡ (err container_not_found, empty_world)
unfolding stop_container get_container list_pods load_pods find_pod attach_containers pods_from
    to_pods
none_there = refl

to_group_ids_lem_example :
    (to_group_ids (codes "10" ∷ []) ≡ ok (pos 10 ∷ []))
    × (to_group_ids (codes "10" ∷ codes "root" ∷ []) ≡ panic)
unfolding parse_int ◌==◌
to_group_ids_lem_example =
    to_group_ids_lem (codes "10" ∷ []) (pos 10 ∷ []) (codes "root") [] (refl, tt) refl

abbrev unstarted : ContainerData
unstarted = record sh_data { status = record sh_data.status { started_at = pos 0 } }

start_time_of_unstarted_example :
    (to_pod_start_time (sh_data ∷ unstarted ∷ []) ≡ none)
    × (to_pod_start_time (unstarted ∷ sh_data ∷ []) ≡ to_pod_start_time (sh_data ∷ []))
start_time_of_unstarted_example = start_time_of_unstarted (sh_data ∷ []) unstarted refl refl

abbrev crashed : ContainerData
crashed = record sh_data {
  container = record sh_container { state = exited };
  status = record sh_data.status { exit_code = pos 1; finished_at = pos 9 };
}

crashed_pod_runs : to_phase (record web_data { containers = crashed ∷ [] }) ≡ Core.running
crashed_pod_runs =
    to_phase-all_exited (record web_data { containers = crashed ∷ [] }) refl (λ e. cc) refl

to_phase_never_final_example : is_final (to_phase web_data) ≡ false
to_phase_never_final_example = to_phase_never_final web_data

web_listed : test_runtime.list_pod_sandbox (codes "p1") running_world ≡ done (web_sandbox ∷ [])
unfolding ◌==◌
web_listed = refl

abbrev sh_written : Cri.ContainerConfig
sh_written = container_config (codes "busybox") sh_options sh_prepared sh_mounts

log_container_lem_example :
    log_container test_runtime test_deps (codes "web") running_world
    ≡ ok (
        if is_empty web_written.log_directory || is_empty sh_written.log_path
        then closed
        else file (join web_written.log_directory sh_written.log_path))
log_container_lem_example =
    log_container_lem test_runtime test_deps (codes "web") running_world web_written sh_written
      sh_options test_codec-IsFaithful sh_found_there sh_found_listed web_listed web_written_stored
      refl sh_config_stored refl

the_empty_name :
    (c : Core.Container) × (get_container test_runtime test_deps [] running_world
      ≡ ok (one shown_pod c sh_status))
the_empty_name =
    get_container_empty test_runtime test_deps running_world shown_pod [] sh_status [] shown_listed
      shown_status shown_named
