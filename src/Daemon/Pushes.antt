-- ===== src/Daemon/Pushes.antt =====
-- PushImage and PushProgress of pkg/daemon/image.go: the table of running pushes, which goroutines
-- share. A tracker is an object that the handler of a push keeps adding to, so it lies in a store
-- under a number, and the table holds the number.
pub mod Laws
use k3c.Prelude.{ℕ, Bool, true, false, Option, none, some, List, [], ◌∷◌, eqb, if◌then◌else◌}
use k3c.Prelude.Text.{Text}
use k3c.Prelude.Maps.{Map, lookup, insert, delete}
use k3c.Prelude.Results.{Result, ok, err, panic}
use k3c.PushStatus.{Info, Tracker, PushJobs, new_push_jobs, add, status}
use k3c.Daemon.Runtime.{Reply, of_reply}
use k3c.Daemon.Images.{ImageServices, StoredImage, AuthConfig, to_auth, resolve_image}

pub record Pushes : Type 0 where
  pub jobs : Map ℕ
  pub trackers : ℕ → PushJobs

abbrev pub updated : ℕ → PushJobs → (ℕ → PushJobs) → ℕ → PushJobs
updated n t trackers k = if eqb n k then t else trackers k

-- The parts of a push that other goroutines see: its start, with a new tracker; a call of its
-- handler; and its end, on every path.
pub data Action : Type 0 where
  begins : ℕ → Text → Action
  adds : ℕ → Text → Action
  ends : ℕ → Text → Action

unfoldable pub apply : Action → Pushes → Pushes
apply (begins n image) s = record {
  jobs = insert image n s.jobs;
  trackers = updated n new_push_jobs s.trackers;
}
apply (adds n ref) s = record s { trackers = updated n (add ref (s.trackers n)) s.trackers }
apply (ends n image) s = record s { jobs = delete image s.jobs }

unfoldable pub run : List Action → Pushes → Pushes
unfolding apply
run [] s = s
run (a ∷ acts) s = run acts (apply a s)

abbrev pub adds_of : ℕ → List Text → List Action
adds_of n [] = []
adds_of n (ref ∷ refs) = adds n ref ∷ adds_of n refs

module _ (v : ImageServices) where
  abbrev pub pushed :
      ℕ
      → Text
      → Pushes
      → (Reply (Unit {0}) × List Text) × v.World
      → Result (Unit {0}) × (Pushes × v.World)
  pushed n image s ((reply, refs), w) =
      (of_reply reply, (apply (ends n image) (run (adds_of n refs) s), w))

  abbrev pub push_resolved :
      ℕ
      → Text
      → Option AuthConfig
      → Result StoredImage
      → Pushes × v.World
      → Result (Unit {0}) × (Pushes × v.World)
  push_resolved n image auth (ok i) (s, w) = pushed n image s (v.push i (to_auth auth) w)
  push_resolved n image auth (err e) (s, w) = (err e, (apply (ends n image) s, w))
  push_resolved n image auth panic (s, w) = (panic, (apply (ends n image) s, w))

  -- A push that nothing else runs beside, under the number `n` of its tracker.
  unfoldable pub push_image :
      ℕ → Text → Option AuthConfig → Pushes × v.World → Result (Unit {0}) × (Pushes × v.World)
  unfolding apply run
  push_image n image auth (s, w) =
      push_resolved n image auth (resolve_image v image w) (apply (begins n image) s, w)

-- PushProgress over what it finds each half second, until a minute is over or the context ends:
-- the tracker whose channel it returns, or none for the closed channel.
unfoldable pub push_progress : Text → List Pushes → Option ℕ
push_progress image [] = none
push_progress image (s ∷ ss) =
    let later = push_progress image ss in
    elim (lookup image s.jobs) [ none ↦ later | some n ↦ some n ]

-- What a tracker's ticker sends.
abbrev pub tracker_status : Tracker → ℕ → Pushes → List Info
tracker_status t n s = status t (s.trackers n)
