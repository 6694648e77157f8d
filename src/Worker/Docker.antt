-- ===== src/Worker/Docker.antt =====
-- worker/docker_engine.py: the containers of the test runs.
pub mod Mounts
mod Examples
use test_orch.Base.{
  [], ◌∷◌, map, ◌==◌, ℕ, List, ◌++◌, Option, none, some, keep, length, if◌then◌else◌,
}
use test_orch.Base.Text.{text_eq, rstrip, Text, text, is_empty, starts_with}
use test_orch.Base.Result.{Result, ok, err, Exception, value_error, not_found, guard}
use test_orch.Base.Result as Result
use test_orch.Shared.Value.{str}
use test_orch.Shared.Validation.{require_non_empty_str}
use test_orch.Backend.Effects.{
  Volume, Action, pure, lift, try_except, call, docker_get, docker_remove, docker_run, ◌>>=◌, ◌>>◌,
}
use test_orch.Worker.Machine.{Machine}

abbrev pub container_prefix : Text
container_prefix = text "test_"

unfoldable pub container_name : Text → Result Text
container_name test_id =
    Result.◌>>=◌ (require_non_empty_str (str test_id)) λ id. ok (container_prefix ++ id)

-- A dictionary's entry: a directory that is there already is bound anew.
unfoldable pub with_volume : Volume → List Volume → List Volume
with_volume v [] = v ∷ []
with_volume v (u ∷ us) =
    let rest = with_volume v us in if u.path == v.path then v ∷ us else u ∷ rest

abbrev pub read_only : Text → Volume
read_only dir = record { path = dir; bind = text "/config"; mode = text "ro" }

abbrev pub writable : Text → Volume
writable dir = record { path = dir; bind = text "/artifacts"; mode = text "rw" }

unfoldable pub volumes_of : Text → Option Text → List Volume
unfolding with_volume
volumes_of config_dir none = read_only config_dir ∷ []
volumes_of config_dir (some dir) =
    if is_empty dir
    then read_only config_dir ∷ []
    else with_volume (writable dir) (read_only config_dir ∷ [])

abbrev pub labels_of : Text → List (Text × Text)
labels_of test_id = (text "managed-by", text "test_orch") ∷ (text "test-id", test_id) ∷ []

-- `if not os.path.isdir(path): raise ValueError(…)`
abbrev pub check_dir : Machine → Text → Action (Unit {0})
check_dir m path w = (guard (m.is_dir w.calls path) value_error, w)

unfoldable pub check_output : Machine → Option Text → Action (Unit {0})
check_output m none = pure tt
check_output m (some dir) = if is_empty dir then pure tt else check_dir m dir

unfoldable pub start_test_container : Machine → Text → Text → Text → Option Text → Action (Unit {0})
unfolding container_name check_output volumes_of
start_test_container m image config_dir test_id output_dir = do
  image' ← lift (require_non_empty_str (str image))
  dir ← lift (require_non_empty_str (str config_dir))
  check_dir m config_dir
  check_output m output_dir
  name ← lift (container_name test_id)
  call m.env (
      docker_run image name m.docker_network_mode (volumes_of config_dir output_dir)
        (labels_of test_id))

-- The lines of the container as the worker reads them.
abbrev pub stream_logs : Machine → List Text
stream_logs m = map (λ line. rstrip b'\n' line) m.lines

-- `names` are those of the running containers, all owners' alike.
unfoldable pub active_test_container_count : List Text → ℕ
active_test_container_count names = length (keep (λ name. starts_with name container_prefix) names)

-- `except NotFound: return`
unfoldable pub ignore_missing : Exception → Action (Unit {0})
ignore_missing not_found = pure tt
ignore_missing e = lift (err e)

unfoldable pub cleanup : Machine → Text → Action (Unit {0})
unfolding container_name ignore_missing
cleanup m test_id = do
  name ← lift (container_name test_id)
  try_except (call m.env (docker_get name) >> call m.env (docker_remove name)) ignore_missing
