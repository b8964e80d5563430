-- ===== src/Tests/Clients.antt =====
-- A client that does nothing, to be filled in by a test, and a link over which it is reached.
use k3c.Prelude.{refl, none, some, ltb, arith, if◌then◌else◌}
use k3c.Prelude.Text.{codes}
use k3c.Prelude.Results.{Result, err, other, wrapped}
use k3c.Remote.Interface.{Client}
use k3c.Remote.Calls.{Link}
use k3c.Remote.Spec.Agreement.{CarriesStatus}
use k3c.Remote.Spec.Streams.{StaysBroken}

abbrev nothing : {A W : Type 0} → W → Result A × W
nothing w = (err (other (codes "nothing")), w)

abbrev pub idle : (W : Type 0) → Client W
idle W = record {
  list_pods = λ w. nothing w;
  create_pod = λ _ _ w. nothing w;
  create_container = λ _ _ _ w. nothing w;
  start_container = λ _ w. nothing w;
  stop_container = λ _ _ w. nothing w;
  remove_container = λ _ w. nothing w;
  log_container = λ _ _ w. nothing w;
  get_container = λ _ w. nothing w;
  attach = λ _ _ w. nothing w;
  exec = λ _ _ _ w. nothing w;
  list_images = λ w. nothing w;
  remove_image = λ _ w. nothing w;
  pull_image = λ _ _ w. nothing w;
  pull_progress = λ _ w. nothing w;
  push_image = λ _ _ w. nothing w;
  push_progress = λ _ w. nothing w;
  get_image = λ _ w. nothing w;
  tag_image = λ _ _ w. nothing w;
  create_volume = λ _ w. nothing w;
  list_volumes = λ w. nothing w;
  remove_volume = λ _ _ w. nothing w;
  events = λ w. nothing w;
}

-- Of a stream the first two messages are sent.
abbrev pub two_messages : Link
two_messages = record {
  to_grpc = λ e. wrapped (codes "grpc") e;
  carried = λ e. wrapped (codes "rpc error") e;
  lost = other (codes "unavailable");
  sends = λ n. if ltb n 2 then none else some (other (codes "broken"));
}

pub two_messages-StaysBroken : StaysBroken two_messages.sends
two_messages-StaysBroken n h = ground arith

pub two_messages-CarriesStatus : CarriesStatus two_messages
two_messages-CarriesStatus = (λ e. refl, refl)
