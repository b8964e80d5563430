-- ===== src/Daemon/Status.antt =====
-- The status half of toPod in pkg/daemon/pod.go: phase, start time and container statuses.
pub mod Laws
use k3c.Prelude.{
  ℕ, Bool, true, false, not, Option, none, some, List, [], ◌∷◌, map, ◌||◌, if◌then◌else◌,
}
use k3c.Prelude.Text.{Text}
use k3c.Prelude.Maps.{Map}
use k3c.Prelude.Int.{ℤ, pos, lt, is_zero, is_positive, to_int32}
use k3c.Cri
use k3c.Cri.{PodSandbox, ready, notready, created, exited}
use k3c.Core.{Phase, ContainerState, ContainerStatus, pending, succeeded, failed}
use k3c.Core

-- containerData and podData
pub record ContainerData : Type 0 where
  pub container : Cri.Container
  pub info : Map Text
  pub status : Cri.ContainerStatus

pub record PodData : Type 0 where
  pub id : Text
  pub sandbox : PodSandbox
  pub containers : List ContainerData

-- One round of the loop over `started`.
abbrev earlier : ℤ → ContainerData → ℤ
earlier started x =
    if is_zero started || lt x.status.started_at started then x.status.started_at else started

started_from : ℤ → List ContainerData → ℤ
started_from started [] = started
started_from started (x ∷ xs) = started_from (earlier started x) xs

unfoldable pub to_pod_start_time : List ContainerData → Option ℤ
unfolding started_from
to_pod_start_time xs =
    let started = started_from (pos 0) xs in if is_zero started then none else some started

abbrev waiting_state : Cri.ContainerStatus → ContainerState
waiting_state s = record {
  waiting = some (record { reason = s.reason; message = s.message });
  running = none;
  terminated = none;
}

unfoldable pub container_state : Cri.ContainerStatus → ContainerState
container_state s =
    if is_positive s.finished_at
    then record (waiting_state s) {
      waiting = none;
      terminated = some (record {
        exit_code = s.exit_code;
        reason = s.reason;
        message = s.message;
        started_at = s.started_at;
        finished_at = s.finished_at;
        container_id = s.id;
      });
    }
    else if is_positive s.started_at
    then record (waiting_state s) {
      waiting = none;
      running = some (record { started_at = s.started_at });
    }
    else waiting_state s

abbrev one_status : ContainerData → ContainerStatus
one_status x = record {
  name = x.container.metadata.name;
  state = container_state x.status;
  restart_count = to_int32 (pos x.status.metadata.attempt);
  image = x.status.image;
  image_id = x.status.image_ref;
  container_id = x.status.id;
}

unfoldable pub to_container_status : List ContainerData → List ContainerStatus
unfolding container_state
to_container_status = map one_status

-- The loop of toPhase over `allZero` and `allRunning`, which it never clears.
unfoldable pub phase_from : Bool → Bool → List ContainerData → Phase
phase_from all_zero all_running [] =
    if all_running then Core.running else if all_zero then succeeded else failed
phase_from all_zero all_running (x ∷ xs) = elim x.container.state [
  | created ↦ pending
  | Cri.running ↦ phase_from all_zero all_running xs
  | exited ↦ phase_from (if is_zero x.status.exit_code then all_zero else false) all_running xs
  | Cri.unknown ↦ Core.unknown
]

unfoldable pub to_phase : PodData → Phase
to_phase d = elim d.sandbox.state [
  | notready ↦ pending
  | ready ↦ elim d.containers [ [] ↦ pending | x ∷ xs ↦ phase_from true true (x ∷ xs) ]
]
