-- ===== src/Tests/World.antt =====
-- A runtime that keeps its sandboxes and containers in two lists, a disk that keeps the paths of
-- its directories, and the other libraries of the daemon.
use k3c.Prelude.{
  ◌≡◌, refl, ap, subst, ◌∙◌, Bool, false, not, Bool-cases, inl, inr, List, [], ◌∷◌, ◌++◌, any, keep,
  arith, if◌then◌else◌, ◌&&◌,
}
use k3c.Prelude.Text.{Text, codes, ◌==◌, eq_iff, eq_refl, is_empty}
use k3c.Prelude.Maps.{Map}
use k3c.Prelude.Int.{pos}
use k3c.Prelude.Results.{Result, ok, err, other}
use k3c.Paths.Laws.{is_within}
use k3c.Cri.{PodConfig, PodSandbox, ready, Container, running, ContainerStatus, ContainerConfig}
use k3c.Volume.{Disk, Stat, present, not_exist}
use k3c.Volume.Lifecycle.{IsLawful}
use k3c.Daemon.Runtime.{Runtime, Deps, KeepsPods, Reply, done, failed}
use k3c.Tests.Codecs.{test_codec}

pub record TestWorld : Type 0 where
  pub pods : List PodSandbox
  pub containers : List Container

abbrev selected : {A : Type 0} → (A → Text) → Text → List A → List A
selected id filter xs = if is_empty filter then xs else keep (λ x. id x == filter) xs

abbrev new_sandbox : PodConfig → Text → PodSandbox
new_sandbox config handler = record {
  id = config.metadata.uid;
  metadata = config.metadata;
  state = ready;
  created_at = pos 1;
  labels = config.labels;
  annotations = config.annotations;
  runtime_handler = handler;
}

abbrev new_container : Text → ContainerConfig → Container
new_container pod_id config = record {
  id = codes "c-" ++ config.metadata.name;
  pod_sandbox_id = pod_id;
  metadata = config.metadata;
  image = config.image;
  state = running;
  labels = config.labels;
  annotations = config.annotations;
}

abbrev status_in : List Container → Text → Reply (ContainerStatus × Map Text)
status_in [] id = failed (other (codes "not found"))
status_in (x ∷ xs) id =
    let rest = status_in xs id in
    if x.id == id
    then done (
      record {
        id = x.id;
        metadata = x.metadata;
        started_at = pos 5;
        finished_at = pos 0;
        exit_code = pos 0;
        image = x.image;
        image_ref = x.image;
        reason = [];
        message = [];
      },
      [],
    )
    else rest

abbrev pub test_runtime : Runtime
test_runtime = record {
  World = TestWorld;
  list_pod_sandbox = λ filter w. done (selected (λ p. p.id) filter w.pods);
  list_containers = λ filter w. done (selected (λ x. x.id) filter w.containers);
  container_status = λ id w. status_in w.containers id;
  run_pod_sandbox = λ config handler w.
      (done config.metadata.uid, record w { pods = w.pods ++ new_sandbox config handler ∷ [] });
  stop_pod_sandbox = λ id w. (done tt, w);
  remove_pod_sandbox = λ id w. (done tt, record w { pods = keep (λ p. not (p.id == id)) w.pods });
  create_container = λ pod_id config pod w. (
    done (codes "c-" ++ config.metadata.name),
    record w { containers = w.containers ++ new_container pod_id config ∷ [] },
  );
  start_container = λ id w. (done tt, w);
  stop_container = λ id timeout w. (done tt, w);
  remove_container =
      λ id w. (done tt, record w { containers = keep (λ x. not (x.id == id)) w.containers });
  exec = λ q w. (done (codes "http://localhost/exec"), w);
  attach = λ q w. (done (codes "http://localhost/attach"), w);
  cni_results = λ w. done [];
}

abbrev pub has_pod_in : List PodSandbox → Text → Bool
has_pod_in ps j = any (λ p. p.id == j) ps

pub has_pod_in-keep :
    (id j : Text) (ps : List PodSandbox)
    → has_pod_in (keep (λ p. not (p.id == id)) ps) j ≡ (not (id == j) && has_pod_in ps j)
has_pod_in-keep id j [] = ground arith
has_pod_in-keep id j (p ∷ ps) =
    ground (arith, has_pod_in-keep id j ps, eq_iff p.id id, eq_iff p.id j, eq_iff id j)

abbrev pub test_runtime-KeepsPods : KeepsPods test_runtime
test_runtime-KeepsPods = record {
  has_pod = λ w j. has_pod_in w.pods j;
  listed = λ w ps j e. ap (λ (r : Reply (List PodSandbox)). has_pod_reply j r) e;
  stop_pod = λ id j w. refl;
  remove_pod = λ id j w h. has_pod_in-keep id j w.pods ∙ rw h refl;
  removed_pod = λ id w h. has_pod_in-keep id id w.pods ∙ rw (eq_refl id) refl;
  stop_container = λ id j t w. refl;
  remove_container = λ id j w. refl;
}
  where
    has_pod_reply : Text → Reply (List PodSandbox) → Bool
    has_pod_reply j (done ps) = has_pod_in ps j
    has_pod_reply j (failed e) = false

abbrev pub test_deps : Deps
test_deps = record {
  codec = test_codec;
  kv_split = λ s sep. (s, []);
  md5 = λ s. 1 ∷ 2 ∷ [];
  marshal_info = λ m. done (codes "{}");
  range = λ A m. m;
}

-- A disk is the list of its directories. A directory is made where there is none.
abbrev dirs_stat : Text → List Text → Stat
dirs_stat p s = if any (λ q. q == p) s then present else not_exist

abbrev make : Text → List Text → Result (Unit {0}) × List Text
make p s = if any (λ q. q == p) s then (err (other (codes "file exists")), s) else (ok tt, p ∷ s)

abbrev pub test_disk : Disk
test_disk = record {
  State = List Text;
  stat = dirs_stat;
  mkdir = make;
  mkdir_all = λ p s. p ∷ s;
  remove_all = λ p s. (ok tt, keep (λ q. not (is_within p q)) s);
  read_dir = λ p s. ok s;
}

any-keep_within :
    (p q : Text) (s : List Text)
    → any (λ x. x == q) (keep (λ x. not (is_within p x)) s)
      ≡ (not (is_within p q) && any (λ x. x == q) s)
any-keep_within p q [] = ground arith
any-keep_within p q (x ∷ s) = elim (Bool-cases (x == q)) [
  | inl e ↦
      let same : x ≡ q = (eq_iff x q).0 e in
      let within : is_within p x ≡ is_within p q = ap (is_within p) same in
      ground (arith, any-keep_within p q s, within)
  | inr e ↦ ground (arith, any-keep_within p q s)
]

pub test_disk-IsLawful : IsLawful test_disk
test_disk-IsLawful = record {
  mkdir_fresh = λ p s s' e. ground arith;
  stat-mkdir = λ p q s s' e. ground arith;
  stat-remove_all = stat_removed;
}
  where
    stat_removed :
        (p q : Text) (s s' : List Text)
        → test_disk.remove_all p s ≡ (ok tt, s')
        → dirs_stat q s' ≡ (if is_within p q then not_exist else dirs_stat q s)
    stat_removed p q s s' e =
        let same : keep (λ x. not (is_within p x)) s ≡ s' = cc in
        subst
          (λ (t : List Text). dirs_stat q t ≡ (if is_within p q then not_exist else dirs_stat q s))
          same (ground (arith, any-keep_within p q s))
