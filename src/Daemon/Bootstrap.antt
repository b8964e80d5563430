-- ===== src/Daemon/Bootstrap.antt =====
-- Bootstrap, getInstallPath and getServicesOpts of pkg/daemon/client.go: the image with the data of
-- the daemon is pulled where it is missing, and installed. containerd's client and its plugins are
-- parameters.
use k3c.Prelude.{Bool, Option, none, some, List, [], ◌∷◌, ◌++◌, if◌then◌else◌}
use k3c.Prelude.Text.{Text, codes, is_empty, ◌==◌}
use k3c.Prelude.Maps.{Map, lookup, get_or}
use k3c.Prelude.Results.{Error, Result, ok, err, panic, message, wrap, Exec, and_then, ◌>>=◌}

-- K3Config, as far as Bootstrap reads it
pub record BootstrapConfig : Type 0 where
  pub image : Text
  pub namespace : Text

-- An internal plugin: its registration, and what it exports.
pub record InternalPlugin : Type 0 where
  pub id : Text
  pub disable : Bool
  pub exports : Map Text

abbrev opt_path : List InternalPlugin → Result Text
opt_path [] = err (message (codes "opt plugin unavailable"))
opt_path (p ∷ ps) =
    let rest = opt_path ps in
    if p.id == codes "opt"
    then if p.disable
      then err (message (codes "opt plugin disabled"))
      else ok (get_or [] (codes "path") p.exports)
    else rest

unfoldable pub get_install_path : Result (List InternalPlugin) → Result Text
get_install_path plugins = wrap (codes "failed to get plugins") plugins >>= opt_path

-- What containerd.New is given; `I` are the instances of plugins.
pub data ServicesOpt (I : Type 0) : Type 0 where
  with_event_service : ServicesOpt I
  with_service : Text → I → ServicesOpt I

-- The services that are asked for, by the names of containerd's constants.
abbrev pub service_names : List Text
service_names =
    codes "content-service"
    ∷ codes "images-service"
    ∷ codes "snapshots-service"
    ∷ codes "containers-service"
    ∷ codes "tasks-service"
    ∷ codes "diff-service"
    ∷ codes "namespaces-service"
    ∷ codes "leases-service"
    ∷ []

abbrev not_found : Text → Text → Error
not_found prefix name = message (prefix ++ codes "service \"" ++ name ++ codes "\" not found")

module _ {I : Type 0} where
  abbrev instance_of : Text → Result (Option I) → Result I
  instance_of name (ok (some i)) = ok i
  instance_of name (ok none) = err (not_found (codes "instance of ") name)
  instance_of name (err e) =
      wrap (codes "failed to get instance of service \"" ++ name ++ codes "\"") (err e)
  instance_of name panic = panic

  -- The instance of a plugin may be nil.
  abbrev service_of : Text → Option (Result (Option I)) → Result I
  service_of name none = err (not_found [] name)
  service_of name (some p) = instance_of name p

  abbrev with_services : Map (Result (Option I)) → List Text → Result (List (ServicesOpt I))
  with_services plugins [] = ok []
  with_services plugins (name ∷ names) = do
    i ← service_of name (lookup name plugins)
    rest ← with_services plugins names
    ok (with_service name i ∷ rest)

  -- Go ranges over the services in any order.
  unfoldable pub get_services_opts :
      (List Text → List Text) → Result (Map (Result (Option I))) → Result (List (ServicesOpt I))
  get_services_opts order plugins = do
    found ← wrap (codes "failed to get plugins") plugins
    opts ← with_services found (order service_names)
    ok (with_event_service ∷ opts)

-- GetImage: an error that IsNotFound is told apart.
pub data Found (A : Type 0) : Type 0 where
  found : A → Found A
  missing : Found A
  unknown : Error → Found A

-- containerd's client in a namespace, and the environment.
pub record Containerd (I W Image : Type 0) : Type 0 where
  pub new : List (ServicesOpt I) → Exec W (Unit {0})
  pub get_image : Text → Text → W → Found Image
  pub pull : Text → Text → Exec W Image
  pub install : Text → Image → Text → Exec W (Unit {0})
  pub k3c_root : Text

module _ {I W Image : Type 0} (c : Containerd I W Image) (cfg : BootstrapConfig) where
  abbrev pulled : Found Image → Exec W Image
  pulled (found image) w = (ok image, w)
  pulled missing w = c.pull cfg.namespace cfg.image w
  pulled (unknown e) w = (err e, w)

  -- K3C_ROOT stands in for a path that is not known.
  abbrev or_root : Result Text → Result Text
  or_root (ok path) = ok path
  or_root (err e) = if is_empty c.k3c_root then err e else ok c.k3c_root
  or_root panic = panic

  unfoldable pub bootstrap :
      (List Text → List Text)
      → Result (Map (Result (Option I)))
      → Result (List InternalPlugin)
      → Exec W (Unit {0})
  unfolding get_install_path get_services_opts
  bootstrap order services internal w =
      if is_empty cfg.image
      then (ok tt, w)
      else and_then (get_services_opts order services, w)
          (λ opts w1. and_then (c.new opts w1) (λ _ w2.
            and_then (pulled (c.get_image cfg.namespace cfg.image w2) w2) (λ image w3.
              and_then (or_root (get_install_path internal), w3)
                (λ path w4. c.install cfg.namespace image path w4))))
