-- ===== src/Kicker.antt =====
-- pkg/kicker/kicker.go: a condition variable that the collector of empty pods waits on.
pub mod Laws
use k3c.Prelude.{◌≡◌, Bool, true, false, not, Option, none, some, if◌then◌else◌}

-- `done` is whether the context is cancelled; `watching` whether the goroutine that New starts is
-- still waiting for that.
pub record Kicker : Type 0 where
  pub kicked : Bool
  pub done : Bool
  pub watching : Bool

unfoldable pub new : Bool → Kicker
new initial_value = record { kicked = initial_value; done = false; watching = true }

unfoldable pub kick : Kicker → Kicker
kick k = record k { kicked = true }

-- Kicked(): `none` while it waits. The wait leaves the state as it is.
unfoldable pub poll_kicked : Kicker → Option Bool
poll_kicked k = if k.kicked then some (not k.done) else none

-- What other goroutines do: a kick, the end of the context, and the watcher's kick after that.
pub data Step : Kicker → Kicker → Type 0 where
  kicks : (k : Kicker) → Step k (kick k)
  cancels : (k : Kicker) → Step k (record k { done = true })
  watches :
      (k : Kicker)
      → k.done ≡ true
      → k.watching ≡ true
      → Step k (kick (record k { watching = false }))

pub data Reach (k : Kicker) : Kicker → Type 0 where
  here : Reach k k
  next : {l m : Kicker} → Reach k l → Step l m → Reach k m
