-- ===== src/Volume.antt =====
-- pkg/daemon/volume/volume.go: named volumes are directories under one base directory.
-- The operating system's directories, MD5 and the random bytes of a UUID are parameters.
pub mod Resolve
pub mod Lifecycle
use k3c.Prelude.{
  ℕ, ◌+◌, ◌/◌, ◌%◌, Bool, true, false, Option, none, some, List, [], ◌∷◌, ◌++◌, map, ◌&&◌, ◌||◌,
  not, all, length, leb, ltb, eqb, if◌then◌else◌,
}
use k3c.Prelude.Text.{Text, codes, is_empty, has_prefix, ◌==◌}
use k3c.Prelude.Results.{Error, Result, ok, err, panic, message, other, Exec, ◌>>=◌}
use k3c.Paths.{join, base}
use k3c.Cri.{Mount}

-- type Volume
pub data Kind : Type 0 where
  host_path named ephemeral : Kind

abbrev pub default_volume_dir : Text
default_volume_dir = codes "/var/lib/rancher/k3c/volumes"

abbrev between : ℕ → ℕ → ℕ → Bool
between lo hi c = leb lo c && leb c hi

abbrev is_name_byte : ℕ → Bool
is_name_byte c = eqb c b'-' || (between b'a' b'z' c || (between b'A' b'Z' c || between b'0' b'9' c))

abbrev is_hex_byte : ℕ → Bool
is_hex_byte c = between b'a' b'f' c || between b'0' b'9' c

-- ^[-a-zA-Z0-9]+$
unfoldable pub matches_name : Text → Bool
matches_name s = not (is_empty s) && all is_name_byte s

-- ^[a-f0-9]{32}$
unfoldable pub matches_hex : Text → Bool
matches_hex s = eqb (length s) 32 && all is_hex_byte s

abbrev hex_digit : ℕ → ℕ
hex_digit n = if ltb n 10 then b'0' + n else 87 + n

-- hex.EncodeToString
unfoldable pub hex_encode : List ℕ → Text
hex_encode [] = []
hex_encode (b ∷ bs) = hex_digit (b / 16) ∷ hex_digit (b % 16) ∷ hex_encode bs

abbrev named_kind : Text → Text × Kind
named_kind name = (name, if matches_hex name then ephemeral else named)

unfoldable pub path_to_type : (Text → List ℕ) → Text → Text × Kind
unfolding hex_encode
path_to_type md5 name =
    if has_prefix name default_volume_dir
    then named_kind (base name)
    else (hex_encode (md5 name), host_path)

pub data Stat : Type 0 where
  present : Stat
  not_exist : Stat
  failed : Error → Stat

-- The file system, as far as the daemon uses it; the error of mkdir_all is never looked at.
pub record Disk : Type 1 where
  pub State : Type 0
  pub stat : Text → State → Stat
  pub mkdir : Text → Exec State (Unit {0})
  pub mkdir_all : Text → State → State
  pub remove_all : Text → Exec State (Unit {0})
  pub read_dir : Text → State → Result (List Text)

abbrev invalid_name : Error
invalid_name = message (codes "invalid volume name")

-- A Manager is its base directory.
unfoldable pub resolve : Text → Text → Result Text
resolve dir id = if matches_name id then ok (join dir id) else err invalid_name

module _ (d : Disk) (dir : Text) where
  abbrev stat_volume : Text → Stat → Result Text
  stat_volume name present = ok name
  stat_volume name not_exist = err (other (codes "file does not exist"))
  stat_volume name (failed e) = err e

  -- The volume found is its name.
  unfoldable pub get_volume : Text → d.State → Result Text
  get_volume name s =
      if matches_name name then stat_volume name (d.stat (join dir name) s) else err invalid_name

  abbrev pub named_result : Text → Result (Unit {0}) × d.State → Result Text × d.State
  named_result name (ok _, s) = (ok name, s)
  named_result name (err e, s) = (err e, s)
  named_result name (panic, s) = (panic, s)

  -- `uuid` is the sixteen random bytes of uuid.New.
  unfoldable pub create_volume : List ℕ → Text → Exec d.State Text
  create_volume uuid name s =
      let id = if is_empty name then hex_encode uuid else name in
      if matches_name id then named_result id (d.mkdir (join dir id) s) else (err invalid_name, s)

  abbrev is_missing : Stat → Bool
  is_missing not_exist = true
  is_missing _ = false

  abbrev remove_resolved : Result Text → Exec d.State (Unit {0})
  remove_resolved (ok p) s = d.remove_all p s
  remove_resolved (err e) s = (err e, s)
  remove_resolved panic s = (panic, s)

  -- `force` is not read. Any error of GetVolume but "does not exist" is dropped.
  unfoldable pub remove_volume : Text → Bool → Exec d.State (Unit {0})
  remove_volume name force s =
      if matches_name name && is_missing (d.stat (join dir name) s)
      then (ok tt, s)
      else remove_resolved (resolve dir name) s

  unfoldable pub list_volumes : d.State → Result (List Text)
  list_volumes s = d.read_dir dir s

  -- Both results are returned: the mount counts where there is no error.
  abbrev pub with_path : Mount → Result Text → Result Mount
  with_path m (ok p) = ok (record m { host_path = p })
  with_path m (err e) = err e
  with_path m panic = panic

  abbrev pub setup_created : Mount → Result Text × d.State → Result Mount × d.State
  setup_created m (ok id, s) = (with_path m (resolve dir id), s)
  setup_created m (err e, s) = (err e, s)
  setup_created m (panic, s) = (panic, s)

  unfoldable pub setup : List ℕ → Mount → Exec d.State Mount
  setup uuid m s =
      if is_empty m.host_path
      then setup_created m (create_volume uuid [] s)
      else if not (has_prefix m.host_path (codes "/"))
      then (with_path m (resolve dir m.host_path), s)
      else (ok m, s)
