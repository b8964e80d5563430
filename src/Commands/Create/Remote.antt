-- ===== src/Commands/Create/Remote.antt =====
-- `create` over gRPC and at the daemon.
use k3c.Prelude.{
  ◌≡◌, refl, sym, ap, ◌∙◌, subst, Bool, true, false, Option, none, some, List, [], ◌∷◌,
}
use k3c.Prelude.Text.{Text, is_empty}
use k3c.Prelude.Results.{
  Error, Result, ok, err, panic, container_not_found, image_not_found, wrapped, message, other,
  is_panic, >>=-eq-ok,
}
use k3c.Api.{PodOptions, ContainerOptions}
use k3c.Daemon.Images.{Image, AuthConfig}
use k3c.Remote.Interface.{Client}
use k3c.Remote.Calls.{Link, remote}
use k3c.Remote.Spec.{imaged, delivered, through, without_email, over}
use k3c.Remote.Spec.Streams.{StaysBroken}
use k3c.Remote.Spec.Laws.{remote-over}
use k3c.Remote.Spec.Agreement.{
  Agrees, Agrees-and_then, through-Agrees, value_of, up, is_sentinel, CarriesStatus,
}
use k3c.Commands.Create.{
  options_of, to_pod_options, to_container_options, Flags, Libraries, existing, forced, pull,
  pull_unless_digest, pull_unless, pull_image, created_in, create,
}

-- What `create` relies on at the daemon: an image that is there has an id, the email of credentials
-- makes no difference, and making a pod of the flags' options does not panic.
pub record IsSound {W : Type 0} (libs : Libraries) (c : Client W) : Type 0 where
  pub has_id :
      (image : Text) (w : W) (i : Image) → (c.get_image image w).0 ≡ ok i → is_empty i.id ≡ false
  pub ignores_email :
      (image : Text) (auth : Option AuthConfig)
      → c.pull_image image (without_email auth) ≡ c.pull_image image auth
  pub makes_pods :
      (flags : Flags) (opts : PodOptions) (name : Text) (w : W)
      → to_pod_options libs flags ≡ ok opts
      → is_panic (c.create_pod name (some opts) w).0 ≡ false

pub ok-injective : {A : Type 0} {a b : A} → ok a ≡ ok b → a ≡ b
ok-injective e = cc

options_of-pod :
    (libs : Libraries) (flags : Flags) (args : List Text) (stdin_once : Bool)
    {opts : PodOptions × ContainerOptions}
    → options_of libs flags args stdin_once ≡ ok opts
    → to_pod_options libs flags ≡ ok opts.0
options_of-pod libs flags args stdin_once e =
    let (po, made, rest) = >>=-eq-ok (to_pod_options libs flags) _ e in
    let (co, _, final) = >>=-eq-ok (to_container_options libs flags args) _ rest in
    made ∙ ap (λ (x : PodOptions × ContainerOptions). ok x.0) (ok-injective final)

existing-status : (e : Error) → is_sentinel e ≡ false → value_of (existing (err e)) ≡ none
existing-status container_not_found h = cc
existing-status image_not_found h = cc
existing-status (wrapped t e) h = refl
existing-status (message t) h = refl
existing-status (other t) h = refl

existing-imaged :
    (l : Link) (r : Result Image)
    → CarriesStatus l
    → ((i : Image) → r ≡ ok i → is_empty i.id ≡ false)
    → value_of (existing (imaged l r)) ≡ value_of (existing r)
existing-imaged l (ok i) status h = rw (h i refl) refl
existing-imaged l (err image_not_found) status h = refl
existing-imaged l (err container_not_found) status h = existing-status _ (status.0 _)
existing-imaged l (err (wrapped t e)) status h = existing-status _ (status.0 _)
existing-imaged l (err (message t)) status h = existing-status _ (status.0 _)
existing-imaged l (err (other t)) status h = existing-status _ (status.0 _)
existing-imaged l panic status h = existing-status _ status.1

module _ {W : Type 0} (l : Link) (c : Client W) (libs : Libraries) (status : CarriesStatus l)
    (sound : IsSound libs c) where
  pull-Agrees :
      (image : Text) (show : Bool) (w : W)
      → Agrees (pull (over l c) libs image show (up w)) (pull c libs image show w)
  pull-Agrees image show w =
      Agrees-and_then _ _ _ _
        (subst
          (λ f.
            Agrees (through l (c.pull_image image (without_email (libs.lookup_auth image))) (up w))
              (f w))
          (sound.ignores_email image (libs.lookup_auth image))
          (through-Agrees l (c.pull_image image (without_email (libs.lookup_auth image))) w))
        (λ pulled w' e. (refl, refl))

  pull_unless_digest-Agrees :
      (image : Text) (digests : List Text) (w : W)
      → Agrees
          (pull_unless_digest (over l c) libs image digests (up w))
          (pull_unless_digest c libs image digests w)
  pull_unless_digest-Agrees image [] w = pull-Agrees image false w
  pull_unless_digest-Agrees image (d ∷ ds) w = (refl, refl)

  pull_unless-Agrees :
      (image : Text) (show : Bool) (found : Option Image) (w : W)
      → Agrees
          (pull_unless (over l c) libs image show found (up w))
          (pull_unless c libs image show found w)
  pull_unless-Agrees image show none w = pull-Agrees image show w
  pull_unless-Agrees image show (some i) w = pull_unless_digest-Agrees image i.digests w

  pull_image-Agrees :
      (image : Text) (show force : Bool) (w : W)
      → Agrees
          (pull_image (over l c) libs image show force (up w))
          (pull_image c libs image show force w)
  unfolding pull_image
  pull_image-Agrees image show force w =
      Agrees-and_then _ _ _ _
        (existing-imaged l (c.get_image image w).0 status (λ i e. sound.has_id image w i e), refl)
        (λ found w' e. pull_unless-Agrees image show (forced force found) w')

  created_in-Agrees :
      (image : Text) (opts : ContainerOptions) (made : Result Text × W)
      → is_panic made.0 ≡ false
      → Agrees
          (created_in (over l c) libs image opts (delivered l made.0, up made.1))
          (created_in c libs image opts made)
  created_in-Agrees image opts (ok id, w) h =
      through-Agrees l (c.create_container id image (some opts)) w
  created_in-Agrees image opts (err e, w) h = (refl, refl)
  created_in-Agrees image opts (panic, w) h = cc

  create-Agrees :
      (flags : Flags) (args : List Text) (stdin_once : Bool) (w : W)
      → Agrees
          (create (over l c) libs flags args stdin_once (up w))
          (create c libs flags args stdin_once w)
  unfolding create
  create-Agrees flags [] stdin_once w = (refl, refl)
  create-Agrees flags (image ∷ args) stdin_once w =
      Agrees-and_then _ _ _ _ (pull_image-Agrees image true false w) (λ _ w1 _.
        Agrees-and_then _ _ _ _ (refl, refl)
          (λ opts w2 e. created_in-Agrees image opts.1 (c.create_pod opts.1.name (some opts.0) w2) (
            sound.makes_pods flags opts.0 opts.1.name w2
              (options_of-pod libs flags args stdin_once (ap (λ x. x.0) e)))))

  -- `create` over gRPC, on a server that is initialised, does what it does at the daemon: it leaves the
  -- daemon in the same state and ends with the same id, or with an error where that one ends with an
  -- error or a panic. This needs an image that is there to have an id, a pull to make no difference
  -- of the email of its credentials and CreatePod not to panic; and of gRPC, that the errors it gives
  -- are its own and that a stream stays broken once a Send has failed.
  pub create-remote :
      (flags : Flags) (args : List Text) (stdin_once : Bool) (w : W)
      → StaysBroken l.sends
      → Agrees
          (create (remote l c) libs flags args stdin_once (up w))
          (create c libs flags args stdin_once w)
  create-remote flags args stdin_once w broken =
      subst
        (λ cl.
          Agrees (create cl libs flags args stdin_once (up w))
            (create c libs flags args stdin_once w))
        (sym (remote-over l c broken)) (create-Agrees flags args stdin_once w)
