-- ===== src/Tests/Collector.antt =====
-- Rounds of the collector's loop over a pod with a container.
use k3c.Prelude.{
  ◌≡◌, refl, sym, ap, ◌∙◌, Bool, true, false, not, ◌&&◌, ◌||◌, List, [], ◌∷◌, any, all, keep, arith,
}
use k3c.Prelude.Text.{Text, codes, ◌==◌, eq_iff}
use k3c.Cri.{Container}
use k3c.Daemon.Runtime.{Reply, done, failed}
use k3c.Daemon.Gc.{readable}
use k3c.Daemon.Gc.Counts.{belongs}
use k3c.Daemon.Gc.Loop.{Round, gc}
use k3c.Daemon.Gc.Loop.Survival.{KeepsContainer, Alive, IsQuiet, shows, gc-Alive}
use k3c.Tests.Codecs.{test_codec}
use k3c.Tests.World.{TestWorld, test_runtime, test_runtime-KeepsPods}
use k3c.Tests.Values.{sh_container, running_world}
use k3c.Tests.Daemon.{plain-IsOrder, sh_readable}

any-keep_others :
    (f : Container → Bool) (id i : Text) (xs : List Container)
    → (i == id) ≡ false
    → any (λ x. f x && x.id == id) (keep (λ x. not (x.id == i)) xs)
      ≡ any (λ x. f x && x.id == id) xs
any-keep_others f id i [] h = refl
any-keep_others f id i (x ∷ xs) h =
    ground (arith, any-keep_others f id i xs h, eq_iff x.id id, eq_iff x.id i, eq_iff i id)

all-keep_others :
    (f : Container → Bool) (id i : Text) (xs : List Container)
    → (i == id) ≡ false
    → all (λ x. f x || not (x.id == id)) (keep (λ x. not (x.id == i)) xs)
      ≡ all (λ x. f x || not (x.id == id)) xs
all-keep_others f id i [] h = refl
all-keep_others f id i (x ∷ xs) h =
    ground (arith, all-keep_others f id i xs h, eq_iff x.id id, eq_iff x.id i, eq_iff i id)

abbrev shown_by : Text → Text → Reply (List Container) → Bool
shown_by pod id (done xs) = shows test_runtime test_codec pod id xs
shown_by pod id (failed e) = false

abbrev test_runtime-KeepsContainer : (pod id : Text) → KeepsContainer test_runtime test_codec pod id
test_runtime-KeepsContainer pod id = record {
  has = λ w. shows test_runtime test_codec pod id w.containers;
  listed = λ w xs e h. sym (ap (shown_by pod id) e) ∙ h;
  stop_container = λ i t w h. refl;
  remove_container = λ i w h.
      rw
        (
          any-keep_others (belongs test_runtime test_codec pod) id i w.containers h,
          all-keep_others (readable test_runtime test_codec) id i w.containers h,
        )
        refl;
  stop_pod = λ p w h. refl;
  remove_pod = λ p w h. refl;
}

abbrev kicked_round : Round TestWorld
kicked_round = record {
  kicker = record { kicked = true; done = false; watching = true };
  order = λ m. m;
  sleep = λ w. w;
  rest = λ w. w;
}

abbrev sh_kept : KeepsContainer test_runtime test_codec (codes "p1") sh_container.id
sh_kept = test_runtime-KeepsContainer (codes "p1") sh_container.id

nothing_else :
    IsQuiet test_runtime test_codec
      (codes "p1")
      sh_container.id
      sh_kept
      test_runtime-KeepsPods
      (λ w. w)
nothing_else = record { pod_kept = λ v. refl; container_kept = λ v. refl }

gc-Alive_example :
    Alive test_runtime test_codec
      (codes "p1")
      sh_container.id
      sh_kept
      test_runtime-KeepsPods
      (gc test_runtime test_codec (kicked_round ∷ kicked_round ∷ []) running_world).1
unfolding ◌==◌
gc-Alive_example =
    gc-Alive test_runtime test_codec (codes "p1") sh_container.id sh_kept test_runtime-KeepsPods
      (kicked_round ∷ kicked_round ∷ []) running_world
      (plain-IsOrder, nothing_else, nothing_else, (plain-IsOrder, nothing_else, nothing_else, tt))
      (refl, rw sh_readable refl)
