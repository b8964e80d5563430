-- ===== src/Tests/Builds.antt =====
-- The command build over a file system with temporary directories, and the start of the daemon.
use k3c.Prelude.{
  ℕ, Option, some, map, ◌≡◌, refl, Bool, true, false, Bool-cases, inl, inr, List, [], ◌∷◌,
  if◌then◌else◌,
}
use k3c.Prelude.Text.{Text, codes, ◌==◌, eq_iff}
use k3c.Prelude.Maps.{Map, lookup}
use k3c.Prelude.Results.{Result, ok, err, other}
use k3c.Daemon.Bootstrap.{BootstrapConfig, service_names, missing, Containerd, bootstrap}
use k3c.Commands.Build.{Flags, System, run}
use k3c.Commands.Build.Cleanup.{KeepsTemps, Cleaned, disconnected, run-Cleaned}

abbrev without : Text → List Text → List Text
without dir [] = []
without dir (x ∷ xs) = if x == dir then xs else x ∷ without dir xs

abbrev made_dir : Text
made_dir = codes "/tmp/k3c-build1"

-- The directories that there are. Writing and removing succeed or not.
abbrev test_system : Bool → Bool → System (List Text)
test_system writable removable = record {
  read_stdin = λ w. (ok (codes "FROM x"), w);
  temp_dir = λ prefix w. (ok made_dir, made_dir ∷ w);
  write_file = λ path bytes w. (if writable then ok tt else err (other (codes "disk full")), w);
  remove_all =
      λ dir w. if removable then (ok tt, without dir w) else (err (other (codes "busy")), w);
  connect = λ w. (ok tt, w);
  disconnect = λ w. (ok tt, w);
  build = λ dir o w. (ok (dir), w);
}

abbrev identity : List Text → List Text
identity w = w

test_system-KeepsTemps :
    (writable removable : Bool) → KeepsTemps (test_system writable removable) identity
test_system-KeepsTemps writable removable = record {
  read_stdin = λ w. refl;
  temp_dir = λ prefix w. refl;
  write_file = λ path bytes w. refl;
  remove_all = λ dir dirs w h. elim (Bool-cases removable) [
    | inl e ↦ inl (rw (e, h, (eq_iff dir dir).1 refl) refl)
    | inr e ↦ inr (rw e h, rw e refl)
  ];
  connect = λ w. refl;
  disconnect = λ w. refl;
  build = λ dir o w. refl;
}

abbrev no_map : List Text → Result (Map Text)
no_map pairs = ok []

abbrev test_flags : Flags
test_flags = record {
  add_host = [];
  build_arg = [];
  cache_from = [];
  file = [];
  label = [];
  no_cache = false;
  output = [];
  progress = codes "auto";
  quiet = true;
  secret = [];
  tag = [];
  target = [];
  ssh = [];
  pull = false;
}

-- A context of - is the temporary directory, which is gone at the end.
built : run (test_system true true) no_map test_flags (codes "-" ∷ []) [] ≡ (ok made_dir, [])
unfolding run ◌==◌
built = refl

-- Where the Dockerfile cannot be written, the directory is left behind.
left_behind :
    run (test_system false true) no_map test_flags (codes "-" ∷ []) []
    ≡ (err (other (codes "disk full")), made_dir ∷ [])
unfolding run ◌==◌
left_behind = refl

-- An error of RemoveAll is dropped, and the directory may still be there after a success.
still_there :
    run (test_system true false) no_map test_flags (codes "-" ∷ []) []
    ≡ (ok made_dir, made_dir ∷ [])
unfolding run ◌==◌
still_there = refl

run-Cleaned_example :
    Cleaned
      (test_system true true)
      identity
      (disconnected (test_system true true) identity)
      []
      (run (test_system true true) no_map test_flags (codes "-" ∷ []) [])
run-Cleaned_example =
    run-Cleaned (test_system true true) identity (test_system-KeepsTemps true true) no_map
      test_flags (codes "-" ∷ []) []

abbrev data_image : BootstrapConfig
data_image = record { image = codes "data"; namespace = codes "k3c.io" }

-- A client that notes where it installs an image that it had to pull.
abbrev test_containerd : Containerd ℕ (List Text) Text
test_containerd = record {
  new = λ opts w. (ok tt, w);
  get_image = λ ns image w. missing;
  pull = λ ns image w. (ok image, image ∷ w);
  install = λ ns image path w. (ok tt, path ∷ w);
  k3c_root = codes "/root";
}

abbrev all_services : Map (Result (Option ℕ))
all_services = map (λ name. (name, ok (some 1))) service_names

-- Where the opt plugin is disabled, the data goes to the directory of the environment.
installed :
    bootstrap test_containerd data_image
      (λ names. names)
      (ok all_services)
      (ok (record { id = codes "opt"; disable = true; exports = [] } ∷ []))
      []
    ≡ (ok tt, codes "/root" ∷ codes "data" ∷ [])
unfolding bootstrap lookup ◌==◌
installed = refl
