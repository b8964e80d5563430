-- ===== src/Build/Session.antt =====
-- pkg/client/build/session.go: secrets and SSH agents of a build.
use k3c.Prelude.{not, ◌&&◌, List, [], ◌∷◌, ◌++◌, map, eqb, if◌then◌else◌}
use k3c.Prelude.Text.{Text, codes, is_empty, ◌==◌}
use k3c.Prelude.Maps.{Map, get_or}
use k3c.Prelude.Results.{Result, ok, err, message, traverse, ◌>>=◌}

pub record FileSource : Type 0 where
  pub id : Text
  pub file_path : Text

pub record AgentConfig : Type 0 where
  pub id : Text
  pub paths : List Text

-- What a build is given beside its directories.
pub data Attachable : Type 0 where
  secrets_of : List FileSource → Attachable
  agents_of : List AgentConfig → Attachable

-- kvfile.ParseTypeAndKVMap, kv.Split, strings.TrimSpace, and whether the providers can be made.
pub record SessionLibraries : Type 0 where
  pub parse_type_and_kv_map : Text → Result (Text × Map Text)
  pub kv_split : Text → Text → Text × Text
  pub trim_space : Text → Text
  pub new_file_store : List FileSource → Result (Unit {0})
  pub new_ssh_agent_provider : List AgentConfig → Result (Unit {0})

abbrev in_front : Text → List Text → List Text
in_front c [] = c ∷ []
in_front c (p ∷ ps) = (c ++ p) ∷ ps

-- strings.Split(s, ",")
unfoldable pub split_commas : Text → List Text
split_commas [] = [] ∷ []
split_commas (c ∷ s) =
    let rest = split_commas s in if eqb c b',' then [] ∷ rest else in_front (c ∷ []) rest

unfoldable pub first_non_empty : Map Text → List Text → Text
first_non_empty m [] = []
first_non_empty m (key ∷ keys) =
    let rest = first_non_empty m keys in
    if is_empty (get_or [] key m) then rest else get_or [] key m

module _ (libs : SessionLibraries) where
  unfoldable pub split_check_empty : Text → List Text
  unfolding split_commas
  split_check_empty val =
      let trimmed = libs.trim_space val in if is_empty trimmed then [] else split_commas trimmed

  unfoldable pub parse_ssh : Text → AgentConfig
  unfolding split_check_empty
  parse_ssh value =
      let (id, paths) = libs.kv_split value (codes "=") in
      record { id = id; paths = split_check_empty paths }

  abbrev file_source : Text → Map Text → Result FileSource
  file_source kind attrs =
      if not (is_empty kind) && not (kind == codes "file")
      then err (message (codes "unsupported secret type " ++ kind))
      else ok (record {
        id = get_or [] (codes "id") attrs;
        file_path = first_non_empty attrs (codes "source" ∷ codes "src" ∷ []);
      })

  unfoldable pub parse_secret : Text → Result FileSource
  unfolding first_non_empty
  parse_secret value = libs.parse_type_and_kv_map value >>= λ x. file_source x.0 x.1

  unfoldable pub parse_secrets : List Text → Result Attachable
  unfolding parse_secret
  parse_secrets secrets = do
    sources ← traverse parse_secret secrets
    _ ← libs.new_file_store sources
    ok (secrets_of sources)

  unfoldable pub parse_sshs : List Text → Result Attachable
  unfolding parse_ssh
  parse_sshs sshs =
      libs.new_ssh_agent_provider (map parse_ssh sshs) >>= λ _. ok (agents_of (map parse_ssh sshs))

  abbrev attached : (List Text → Result Attachable) → List Text → Result (List Attachable)
  attached parse [] = ok []
  attached parse (x ∷ xs) = do s ← parse (x ∷ xs); ok (s ∷ [])

  unfoldable pub session : List Text → List Text → Result (List Attachable)
  unfolding parse_secrets parse_sshs
  session secrets ssh = do
    first ← attached parse_secrets secrets
    second ← attached parse_sshs ssh
    ok (first ++ second)
