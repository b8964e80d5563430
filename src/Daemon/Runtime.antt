-- ===== src/Daemon/Runtime.antt =====
-- What the daemon calls: the runtime service of the CRI plugin, and the JSON codec of protobuf
-- messages. Both are parameters of the model.
use k3c.Prelude.{ℕ, ◌≡◌, refl, Bool, false, List, [], any}
use k3c.Prelude.Text.{Text, ◌==◌}
use k3c.Prelude.Maps.{Map}
use k3c.Prelude.Int.{ℤ}
use k3c.Prelude.Results.{Error, Result, ok, err, is_panic}
use k3c.Cri.{PodConfig, PodSandbox, Container, ContainerStatus, ContainerConfig}
use k3c.Api.{ContainerOptions}

-- The reply of a service: a value or an error.
pub data Reply {ℓ} (A : Type ℓ) : Type ℓ where
  done : A → Reply A
  failed : Error → Reply A

abbrev pub of_reply {ℓ} : {A : Type ℓ} → Reply A → Result A
of_reply (done a) = ok a
of_reply (failed e) = err e

pub of_reply-eq-ok {ℓ} : {A : Type ℓ} (m : Reply A) {a : A} → of_reply m ≡ ok a → m ≡ done a
of_reply-eq-ok (done b) e = cc
of_reply-eq-ok (failed x) e = cc

pub is_panic-of_reply {ℓ} : {A : Type ℓ} (m : Reply A) → is_panic (of_reply m) ≡ false
is_panic-of_reply (done a) = refl
is_panic-of_reply (failed e) = refl

-- A call may change the world, whether it succeeds or not.
abbrev pub Call : Type 0 → Type 0 → Type 0
Call W A = W → Reply A × W

-- A call whose error is returned as it is.
abbrev pub replied : {W A : Type 0} → Reply A × W → Result A × W
replied (a, w) = (of_reply a, w)

-- ExecRequest and AttachRequest
pub record StreamRequest : Type 0 where
  pub container_id : Text
  pub cmd : List Text
  pub tty : Bool
  pub stdin : Bool
  pub stdout : Bool
  pub stderr : Bool

-- RuntimeServiceClient. The empty filter lists everything; the status comes with the info map of
-- a verbose request.
pub record Runtime : Type 1 where
  pub World : Type 0
  pub list_pod_sandbox : Text → World → Reply (List PodSandbox)
  pub list_containers : Text → World → Reply (List Container)
  pub container_status : Text → World → Reply (ContainerStatus × Map Text)
  pub run_pod_sandbox : PodConfig → Text → Call World Text
  pub stop_pod_sandbox : Text → Call World (Unit {0})
  pub remove_pod_sandbox : Text → Call World (Unit {0})
  pub create_container : Text → ContainerConfig → PodConfig → Call World Text
  pub start_container : Text → Call World (Unit {0})
  pub stop_container : Text → ℤ → Call World (Unit {0})
  pub remove_container : Text → Call World (Unit {0})
  pub exec : StreamRequest → Call World Text
  pub attach : StreamRequest → Call World Text
  -- The files of /var/lib/cni/results: each one's name, and the addresses that it holds or why it
  -- cannot be opened or decoded.
  pub cni_results : World → Reply (List (Text × Reply (List Text)))

-- jsonpb of the three messages that are kept in annotations.
pub record Codec : Type 0 where
  pub marshal_pod : PodConfig → Reply Text
  pub unmarshal_pod : Text → Reply PodConfig
  pub marshal_container : ContainerConfig → Reply Text
  pub unmarshal_container : Text → Reply ContainerConfig
  pub marshal_options : ContainerOptions → Reply Text
  pub unmarshal_options : Text → Reply ContainerOptions

-- The other libraries that the daemon's conversions call: kv.Split of wrangler, crypto/md5,
-- json.Marshal of a map, and Go's order of iteration over a map.
pub record Deps : Type 1 where
  pub codec : Codec
  pub kv_split : Text → Text → Text × Text
  pub md5 : Text → List ℕ
  pub marshal_info : Map Text → Reply Text
  pub range : (A : Type 0) → Map A → Map A

-- What is written is read back.
pub record IsFaithful (c : Codec) : Type 0 where
  pub pod_config :
      (x : PodConfig) (t : Text) → c.marshal_pod x ≡ done t → c.unmarshal_pod t ≡ done x
  pub container_config :
      (x : ContainerConfig) (t : Text)
      → c.marshal_container x ≡ done t
      → c.unmarshal_container t ≡ done x
  pub options :
      (x : ContainerOptions) (t : Text)
      → c.marshal_options x ≡ done t
      → c.unmarshal_options t ≡ done x

-- The documented behaviour of the calls on which sandboxes exist: listing shows exactly those, a
-- sandbox is gone when its removal succeeds, and no call of these removes or makes another.
pub record KeepsPods (r : Runtime) : Type 0 where
  pub has_pod : r.World → Text → Bool
  pub listed :
      (w : r.World) (ps : List PodSandbox) (j : Text)
      → r.list_pod_sandbox [] w ≡ done ps
      → has_pod w j ≡ any (λ p. p.id == j) ps
  pub stop_pod : (id j : Text) (w : r.World) → has_pod (r.stop_pod_sandbox id w).1 j ≡ has_pod w j
  pub remove_pod :
      (id j : Text) (w : r.World)
      → (id == j) ≡ false
      → has_pod (r.remove_pod_sandbox id w).1 j ≡ has_pod w j
  pub removed_pod :
      (id : Text) (w : r.World)
      → (r.remove_pod_sandbox id w).0 ≡ done tt
      → has_pod (r.remove_pod_sandbox id w).1 id ≡ false
  pub stop_container :
      (id j : Text) (t : ℤ) (w : r.World) → has_pod (r.stop_container id t w).1 j ≡ has_pod w j
  pub remove_container :
      (id j : Text) (w : r.World) → has_pod (r.remove_container id w).1 j ≡ has_pod w j
