-- ===== src/Daemon/Events.antt =====
-- pkg/daemon/events.go: the events of containerd that the daemon passes on.
use k3c.Prelude.{ℕ, List, [], ◌∷◌, ◌++◌}
use k3c.Prelude.Text.{Text, codes}
use k3c.Prelude.Decimal.{itoa}
use k3c.Remote.Interface.{Event}

-- What UnmarshalAny gives of an event: one of four kinds, another one, or an error.
pub data Payload : Type 0 where
  container_create container_delete : Text → Payload
  task_start task_exit : Text → ℕ → Payload
  other_kind : Payload
  malformed : Payload

abbrev task_id : Text → ℕ → Text
task_id id pid = id ++ b'/' ∷ itoa pid

-- The loop of the goroutine, which ends at an event that it cannot read.
unfoldable pub pass_on : List Payload → List Event
pass_on [] = []
pass_on (malformed ∷ ps) = []
pass_on (other_kind ∷ ps) = pass_on ps
pass_on (container_create id ∷ ps) =
    record { id = id; name = codes "container.create" } ∷ pass_on ps
pass_on (container_delete id ∷ ps) =
    record { id = id; name = codes "container.delete" } ∷ pass_on ps
pass_on (task_start id pid ∷ ps) =
    record { id = task_id id pid; name = codes "task.start" } ∷ pass_on ps
pass_on (task_exit id pid ∷ ps) =
    record { id = task_id id pid; name = codes "task.exit" } ∷ pass_on ps
