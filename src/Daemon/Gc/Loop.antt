-- ===== src/Daemon/Gc/Loop.antt =====
-- gc of pkg/daemon/pod.go: the goroutine that runs the collector after each kick.
pub mod Survival
use k3c.Prelude.{ℕ, none, some, List, [], ◌∷◌, if◌then◌else◌}
use k3c.Prelude.Maps.{Map}
use k3c.Prelude.Results.{Result, ok, err, panic}
use k3c.Kicker.{Kicker, poll_kicked}
use k3c.Daemon.Runtime.{Runtime, Codec}
use k3c.Daemon.Gc.{run_gc}

-- What one round of the loop meets: the kicker when it is polled, the order of the map, and what others
-- do while the collector sleeps and while the loop sleeps after an error.
pub record Round (W : Type 0) : Type 0 where
  pub kicker : Kicker
  pub order : Map ℕ → Map ℕ
  pub sleep : W → W
  pub rest : W → W

-- Whether the loop still goes on after some rounds, waits for a kick, or has ended.
pub data Progress : Type 0 where
  goes_on waits ends : Progress

module _ (r : Runtime) (c : Codec) where
  abbrev after_run : (r.World → r.World) → Result (Unit {0}) × r.World → r.World
  after_run rest (ok _, w) = w
  after_run rest (err e, w) = rest w
  after_run rest (panic, w) = w

  unfoldable pub gc : List (Round r.World) → r.World → Progress × r.World
  gc [] w = (goes_on, w)
  gc (x ∷ rounds) w =
      let later = gc rounds (after_run x.rest (run_gc r c x.order x.sleep w)) in
      elim (poll_kicked x.kicker) [
        | none ↦ (waits, w)
        | some more ↦ if more then later else (ends, w)
      ]
