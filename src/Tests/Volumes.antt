-- ===== src/Tests/Volumes.antt =====
-- Volumes and push status on concrete inputs.
use k3c.Prelude.{ℕ, ◌≡◌, ◌≢◌, refl, true, false, List, [], ◌∷◌, ◌++◌, map, if◌then◌else◌, all}
use k3c.Prelude.Text.{Text, codes, contains, is_empty, has_prefix, strip_prefix, ◌==◌}
use k3c.Prelude.Results.{ok}
use k3c.Paths.{join, clean, components, split, push_component, is_rooted, render, base}
use k3c.Paths.Laws.{parts, is_within}
use k3c.Core.{Volume, VolumeMount}
use k3c.Core
use k3c.Volume.{
  ephemeral, named, default_volume_dir, matches_name, matches_hex, hex_encode, resolve,
  path_to_type, get_volume, create_volume, remove_volume,
}
use k3c.Volume.Resolve.{resolve_in_base, path_to_type-resolve}
use k3c.Volume.Lifecycle.{create_volume_lem, remove_volume_lem, missing}
use k3c.Daemon.Convert.{add_mounts}
use k3c.Daemon.Convert.Mounts.{has_volume, AreDistinct, mount_of, add_mounts_lem}
use k3c.Daemon.Create.ResolvedMounts.{AllResolved, resolve_mounts_lem}
use k3c.Tests.World.{test_runtime, test_disk, test_disk-IsLawful}
use k3c.Tests.Codecs.{test_codec}
use k3c.Tests.Values.{web_mounts, uuids, sh_mounts, sh_mounts_resolved}

abbrev name : Text
name = codes "data"

abbrev data_path : Text
data_path = codes "/var/lib/rancher/k3c/volumes/data"

data_resolves : resolve default_volume_dir name ≡ ok data_path
unfolding resolve matches_name join clean components split push_component ◌==◌
data_resolves = refl

resolve_in_base_example :
    (contains name b'/' ≡ false)
    × (data_path ≡ render (is_rooted default_volume_dir) (parts default_volume_dir ++ name ∷ []))
    × (base data_path ≡ name)
resolve_in_base_example = resolve_in_base default_volume_dir name data_resolves

path_to_type-resolve_example :
    path_to_type (λ s. []) data_path ≡ (name, if matches_hex name then ephemeral else named)
path_to_type-resolve_example = path_to_type-resolve (λ s. []) name data_resolves

abbrev made : List Text
made = data_path ∷ []

data_made : create_volume test_disk default_volume_dir [] name [] ≡ (ok name, made)
unfolding create_volume matches_name join clean components split push_component ◌==◌
data_made = refl

create_volume_lem_example :
    (name ≡ (if is_empty name then hex_encode [] else name))
    × ((k : Text)
        → get_volume test_disk default_volume_dir k made
          ≡ (if name == k then ok k else get_volume test_disk default_volume_dir k []))
    × ((other_uuid : List ℕ) (j : Text) (s'' : List Text)
        → create_volume test_disk default_volume_dir other_uuid name made ≢ (ok j, s''))
create_volume_lem_example =
    create_volume_lem test_disk test_disk-IsLawful default_volume_dir [] name name [] made data_made

data_removed : remove_volume test_disk default_volume_dir name false made ≡ (ok tt, [])
unfolding remove_volume resolve matches_name join clean components split push_component ◌==◌
    has_prefix strip_prefix is_within
data_removed = refl

remove_volume_lem_example :
    (matches_name name ≡ true)
    × ((k : Text)
        → get_volume test_disk default_volume_dir k []
          ≡ (if name == k then missing else get_volume test_disk default_volume_dir k made))
remove_volume_lem_example =
    remove_volume_lem test_disk test_disk-IsLawful default_volume_dir name false made []
      data_removed

abbrev etc_volume : Volume
etc_volume = record { name = codes "etc"; source = Core.empty_dir }

add_mounts_lem_example :
    let r = add_mounts (λ s. s) (etc_volume ∷ []) [] web_mounts in
    (r.1 ≡ map (mount_of (λ s. s)) web_mounts)
    × AreDistinct r.0
    × (all (λ (x : VolumeMount). has_volume r.0 x.name) r.1 ≡ true)
add_mounts_lem_example = add_mounts_lem (λ s. s) (etc_volume ∷ []) [] web_mounts (refl, tt) refl

resolve_mounts_lem_example : AllResolved default_volume_dir uuids 0 web_mounts sh_mounts
resolve_mounts_lem_example =
    resolve_mounts_lem test_runtime test_codec test_disk default_volume_dir uuids 0 web_mounts
      sh_mounts _ _ sh_mounts_resolved
