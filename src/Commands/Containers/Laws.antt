-- ===== src/Commands/Containers/Laws.antt =====
-- What `run` does after `create`.
use k3c.Prelude.{◌≡◌, refl, ◌∙◌, Bool, true, false, Option, none, some, List, [], ◌∷◌}
use k3c.Prelude.Text.{Text}
use k3c.Prelude.Results.{Result, ok, err, panic, and_then}
use k3c.Api.{PodOptions, ContainerOptions, AttachOptions}
use k3c.Daemon.Images.{Image, AuthConfig}
use k3c.Remote.Interface.{Client}
use k3c.Commands.Create.{
  Flags, Libraries, forced, pull, pull_unless_digest, pull_unless, pull_image, created_in,
  options_of, create,
}
use k3c.Commands.Containers.{run, run_attach, streamed, run_created}

-- What holds of the daemon's state as long as no container is started: the other operations that `run`
-- calls keep it.
pub record OnlyStarted {W : Type 0} (cl : Client W) (p : W → Bool) : Type 0 where
  pub get_image : (image : Text) (w : W) → p (cl.get_image image w).1 ≡ p w
  pub pull_image :
      (image : Text) (auth : Option AuthConfig) (w : W) → p (cl.pull_image image auth w).1 ≡ p w
  pub create_pod :
      (name : Text) (opts : Option PodOptions) (w : W) → p (cl.create_pod name opts w).1 ≡ p w
  pub create_container :
      (pod_id image : Text) (opts : Option ContainerOptions) (w : W)
      → p (cl.create_container pod_id image opts w).1 ≡ p w
  pub attach :
      (name : Text) (opts : Option AttachOptions) (w : W) → p (cl.attach name opts w).1 ≡ p w

module _ {W : Type 0} (p : W → Bool) where
  keeps-and_then :
      {A B : Type 0} (x : Result A × W) (f : A → W → Result B × W) {w : W}
      → p x.1 ≡ p w
      → ((a : A) (v : W) → p (f a v).1 ≡ p v)
      → p (and_then x f).1 ≡ p w
  keeps-and_then (ok a, v) f h k = k a v ∙ h
  keeps-and_then (err e, v) f h k = h
  keeps-and_then (panic, v) f h k = h

  module _ (cl : Client W) (libs : Libraries) (o : OnlyStarted cl p) where
    keeps-pull : (image : Text) (show : Bool) (w : W) → p (pull cl libs image show w).1 ≡ p w
    keeps-pull image show w =
        keeps-and_then _ _ (o.pull_image image (libs.lookup_auth image) w) (λ pulled v. refl)

    keeps-pull_unless_digest :
        (image : Text) (digests : List Text) (w : W)
        → p (pull_unless_digest cl libs image digests w).1 ≡ p w
    keeps-pull_unless_digest image [] w = keeps-pull image false w
    keeps-pull_unless_digest image (d ∷ ds) w = refl

    keeps-pull_unless :
        (image : Text) (show : Bool) (found : Option Image) (w : W)
        → p (pull_unless cl libs image show found w).1 ≡ p w
    keeps-pull_unless image show none w = keeps-pull image show w
    keeps-pull_unless image show (some i) w = keeps-pull_unless_digest image i.digests w

    keeps-pull_image :
        (image : Text) (show force : Bool) (w : W)
        → p (pull_image cl libs image show force w).1 ≡ p w
    unfolding pull_image
    keeps-pull_image image show force w =
        keeps-and_then _ _ (o.get_image image w)
          (λ found v. keeps-pull_unless image show (forced force found) v)

    keeps-created_in :
        (image : Text) (opts : ContainerOptions) (made : Result Text × W)
        → p (created_in cl libs image opts made).1 ≡ p made.1
    keeps-created_in image opts (ok id, w) = o.create_container id image (some opts) w
    keeps-created_in image opts (err e, w) = refl
    keeps-created_in image opts (panic, w) = refl

    keeps-create :
        (c : Flags) (args : List Text) (stdin_once : Bool) (w : W)
        → p (create cl libs c args stdin_once w).1 ≡ p w
    unfolding create
    keeps-create c [] stdin_once w = refl
    keeps-create c (image ∷ args) stdin_once w =
        keeps-and_then (pull_image cl libs image true false w) _
          (keeps-pull_image image true false w)
          (λ _ w1.
            keeps-and_then (options_of libs c args stdin_once, w1) _ refl
              (λ opts w2.
                keeps-created_in image opts.1 (cl.create_pod opts.1.name (some opts.0) w2)
                ∙ o.create_pod opts.1.name (some opts.0) w2))

    keeps-run_attach :
        (stream : Bool → Bool → Text → Result (Unit {0})) (id : Text) (opts : Option AttachOptions)
        (w : W)
        → p (run_attach cl stream id opts w).1 ≡ p w
    unfolding run_attach
    keeps-run_attach stream id opts w =
        keeps-and_then (cl.attach id opts w) (streamed cl stream) (o.attach id opts w) (λ r v. refl)

    -- Without `-d`, `run` never starts a container: whatever only a start changes is as it was. With `-d`
    -- it starts the container that `create` made.
    pub run-starts :
        (stream : Bool → Bool → Text → Result (Unit {0})) (c : Flags) (args : List Text) (w : W)
        → (p (run cl stream libs false c args w).1 ≡ p w)
          × (run cl stream libs true c args w
              ≡ and_then (create cl libs c args false w) cl.start_container)
    unfolding run
    run-starts stream c args w = (
      keeps-and_then (create cl libs c args c.interactive w) (run_created cl stream false)
          (keeps-create c args c.interactive w) (λ id v. keeps-run_attach stream id none v),
      refl,
    )
