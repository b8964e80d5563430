-- ===== src/Daemon/Status/Laws.antt =====
-- What phase, start time and state say of a pod's containers.
use k3c.Prelude.{
  ◌≡◌, ◌≢◌, refl, Bool, true, false, not, none, List, [], ◌∷◌, ◌++◌, all, if◌then◌else◌, arith,
}
use k3c.Prelude.Int.{ℤ, pos, negsuc, lt, is_zero}
use k3c.Cri
use k3c.Cri.{ready, notready, created, exited}
use k3c.Core
use k3c.Core.{Phase, ContainerState, pending, succeeded, failed}
use k3c.Daemon.Status.{
  ContainerData, PodData, earlier, started_from, to_pod_start_time, phase_from, to_phase,
}

abbrev pub is_final : Phase → Bool
is_final succeeded = true
is_final failed = true
is_final _ = false

phase_from-not_final :
    (z : Bool) (xs : List ContainerData) → is_final (phase_from z true xs) ≡ false
unfolding phase_from
phase_from-not_final z [] = refl
phase_from-not_final z (x ∷ xs) = ground (
  arith,
  phase_from-not_final (if is_zero x.status.exit_code then z else false) xs,
  phase_from-not_final z xs,
)

abbrev pub is_exited : Cri.ContainerState → Bool
is_exited exited = true
is_exited _ = false

phase_from_exited :
    (z : Bool) (xs : List ContainerData)
    → all (λ x. is_exited x.container.state) xs ≡ true
    → phase_from z true xs ≡ Core.running
unfolding phase_from
phase_from_exited z [] h = refl
phase_from_exited z (x ∷ xs) h =
    ground (arith, phase_from_exited (if is_zero x.status.exit_code then z else false) xs)

-- A pod is never reported as Succeeded or Failed.
pub to_phase_never_final : (d : PodData) → is_final (to_phase d) ≡ false
unfolding to_phase
to_phase_never_final d = ground (arith, phase_from-not_final true d.containers)

-- A ready sandbox all of whose containers have exited, of which there is at least one, is reported
-- as Running, whatever the exit codes are.
pub to_phase-all_exited :
    (d : PodData)
    → d.sandbox.state ≡ ready
    → d.containers ≢ []
    → all (λ x. is_exited x.container.state) d.containers ≡ true
    → to_phase d ≡ Core.running
unfolding to_phase
to_phase-all_exited d up some_left exits = ground (arith, phase_from_exited true d.containers exits)

abbrev pub is_natural : ℤ → Bool
is_natural t = not (lt t (pos 0))

started_from-natural :
    (t : ℤ) (xs : List ContainerData)
    → is_natural t ≡ true
    → all (λ x. is_natural x.status.started_at) xs ≡ true
    → is_natural (started_from t xs) ≡ true
unfolding started_from
started_from-natural t [] h k = h
started_from-natural t (x ∷ xs) h k =
    started_from-natural (earlier t x) xs (ground arith) (ground arith)

earlier_unstarted :
    (t : ℤ) (x : ContainerData)
    → is_natural t ≡ true
    → x.status.started_at ≡ pos 0
    → earlier t x ≡ pos 0
earlier_unstarted (pos n) x h e = ground arith
earlier_unstarted (negsuc n) x h e = cc

started_from-append :
    (t : ℤ) (xs : List ContainerData) (x : ContainerData)
    → started_from t (xs ++ x ∷ []) ≡ earlier (started_from t xs) x
unfolding started_from
started_from-append t [] x = refl
started_from-append t (y ∷ xs) x = started_from-append (earlier t y) xs x

-- Where no container starts before time 0, only the order of the containers decides whether one that
-- has not started hides the start of the others: behind them it leaves the pod with no start time,
-- and in front of them it changes nothing.
pub start_time_of_unstarted :
    (xs : List ContainerData) (x : ContainerData)
    → x.status.started_at ≡ pos 0
    → all (λ y. is_natural y.status.started_at) xs ≡ true
    → (to_pod_start_time (xs ++ x ∷ []) ≡ none)
      × (to_pod_start_time (x ∷ xs) ≡ to_pod_start_time xs)
unfolding to_pod_start_time
start_time_of_unstarted xs x h k = (
  rw
      (
        started_from-append (pos 0) xs x,
        earlier_unstarted (started_from (pos 0) xs) x (started_from-natural (pos 0) xs refl k) h,
      )
      refl,
  rw h refl,
)
