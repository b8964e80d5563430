-- ===== src/Daemon/Gc.antt =====
-- gc and runGC of pkg/daemon/pod.go: pods without a container are removed.
pub mod Counts
pub mod Kept
pub mod Removal
pub mod Loop
use k3c.Prelude.{
  ℕ, suc, ◌+◌, ◌≡◌, Bool, true, false, Option, none, some, List, [], ◌∷◌, all, eqb, if◌then◌else◌,
}
use k3c.Prelude.Text.{Text}
use k3c.Prelude.Maps.{Map, insert, get_or}
use k3c.Prelude.Int.{pos}
use k3c.Prelude.Results.{Error, Result, ok, err}
use k3c.Cri.{PodSandbox, Container}
use k3c.Daemon.Runtime.{Runtime, Codec, Reply, done, failed, of_reply}
use k3c.Daemon.Config.{get_container_config}

-- `for podID, count := range pods`: the order is Go's, so it is a parameter. The loop meets the
-- entries of the map and no others.
pub record IsOrder (order : Map ℕ → Map ℕ) : Type 0 where
  pub all-order : (p : Text × ℕ → Bool) (m : Map ℕ) → all p (order m) ≡ all p m

-- pods[pod.Id] = 0, for each pod.
unfoldable pub zero_counts : List PodSandbox → Map ℕ → Map ℕ
zero_counts [] m = m
zero_counts (p ∷ ps) m = zero_counts ps (insert p.id 0 m)

abbrev is_done {ℓ} : {A : Type ℓ} → Result A → Bool
is_done (ok _) = true
is_done _ = false

module _ (r : Runtime) (c : Codec) where
  -- Whether both annotations of a container decode.
  abbrev pub readable : Container → Bool
  readable x = is_done (get_container_config c x)

  -- The loop over the containers: those that cannot be read are stopped and removed, and the
  -- errors of that are dropped; the others are counted.
  unfoldable pub scan : List Container → Map ℕ → r.World → Map ℕ × r.World
  scan [] m w = (m, w)
  scan (x ∷ xs) m w =
      if readable x
      then scan xs (insert x.pod_sandbox_id (get_or 0 x.pod_sandbox_id m + 1) m) w
      else scan xs m (r.remove_container x.id (r.stop_container x.id (pos 0) w).1).1

  abbrev remove_stopped : Text → Option Error → Reply (Unit {0}) × r.World → Option Error × r.World
  remove_stopped id last (done _, w) = (last, w)
  remove_stopped id last (failed e, w) = (some e, w)

  abbrev stop_and_remove : Text → Option Error → Reply (Unit {0}) × r.World → Option Error × r.World
  stop_and_remove id last (failed e, w) = (some e, w)
  stop_and_remove id last (done _, w) = remove_stopped id last (r.remove_pod_sandbox id w)

  -- One round of the removal loop, over `lastErr` and the world.
  unfoldable pub collect : Text × ℕ → Option Error → r.World → Option Error × r.World
  collect (id, n) last w =
      if eqb n 0 then stop_and_remove id last (r.stop_pod_sandbox id w) else (last, w)

  unfoldable pub collect_all : Map ℕ → Option Error → r.World → Option Error × r.World
  collect_all [] last w = (last, w)
  collect_all (p ∷ ps) last w = let (last', w') = collect p last w in collect_all ps last' w'

  abbrev last_result : Option Error × r.World → Result (Unit {0}) × r.World
  last_result (none, w) = (ok tt, w)
  last_result (some e, w) = (err e, w)

  -- `sleep` is what other goroutines and processes do in the five seconds before the removals.
  abbrev collect_empty :
      (Map ℕ → Map ℕ) → (r.World → r.World) → Map ℕ × r.World → Result (Unit {0}) × r.World
  collect_empty order sleep (m, w) = last_result (collect_all (order m) none (sleep w))

  abbrev scan_listed :
      (Map ℕ → Map ℕ)
      → (r.World → r.World)
      → List PodSandbox
      → Reply (List Container)
      → r.World
      → Result (Unit {0}) × r.World
  scan_listed order sleep ps (done xs) w = collect_empty order sleep (scan xs (zero_counts ps []) w)
  scan_listed order sleep ps (failed e) w = (err e, w)

  abbrev run_listed :
      (Map ℕ → Map ℕ)
      → (r.World → r.World)
      → Reply (List PodSandbox)
      → r.World
      → Result (Unit {0}) × r.World
  run_listed order sleep (done ps) w = scan_listed order sleep ps (r.list_containers [] w) w
  run_listed order sleep (failed e) w = (err e, w)

  unfoldable pub run_gc :
      (Map ℕ → Map ℕ) → (r.World → r.World) → r.World → Result (Unit {0}) × r.World
  run_gc order sleep w = run_listed order sleep (r.list_pod_sandbox [] w) w
