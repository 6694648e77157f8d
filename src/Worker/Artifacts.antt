-- ===== src/Worker/Artifacts.antt =====
-- worker/artifact_uploader.py: one result file into the artifact store.
use test_orch.Base.{Bool, List, [], ◌∷◌, ◌++◌, Option, none, some, if◌then◌else◌, ◌||◌}
use test_orch.Base.Text.{Text, text, split, ends_with}
use test_orch.Base.Result.{file_not_found, guard}
use test_orch.Shared.Value.{str}
use test_orch.Shared.Validation.{require_non_empty_str}
use test_orch.Backend.Effects.{Action, pure, lift, try_except, call, upload, ◌>>=◌, ◌>>◌}
use test_orch.Worker.Machine.{Machine, path_join}

abbrev last_of : Text → List Text → Text
last_of t [] = t
last_of t (u ∷ us) = last_of u us

-- `os.path.basename`: what stands behind the last slash.
unfoldable pub basename : Text → Text
basename path = last_of [] (split b'/' path)

abbrev pub artifact_url : Machine → Text → Text → Text
artifact_url m test_id filename =
    m.artifactory_url
    ++ (text "/" ++ (m.artifactory_repo ++ (text "/" ++ (test_id ++ (text "/" ++ filename)))))

-- `if not os.path.isfile(path): raise FileNotFoundError(…)`
abbrev pub check_file : Machine → Text → Action (Unit {0})
check_file m path w = (guard (m.is_file w.calls path) file_not_found, w)

-- The call stands for the request and the check of its status.
unfoldable pub upload_artifact : Machine → Text → Text → Action Text
unfolding basename
upload_artifact m test_id file_path = do
  id ← lift (require_non_empty_str (str test_id))
  path ← lift (require_non_empty_str (str file_path))
  check_file m file_path
  let url = artifact_url m test_id (basename file_path)
  call m.env (upload url file_path)
  pure url

-- `fname.endswith((".log", ".dmp", ".core", ".tar.gz"))`
abbrev pub is_artifact : Text → Bool
is_artifact name =
    ends_with name (text ".log")
    || ends_with name (text ".dmp")
    || ends_with name (text ".core")
    || ends_with name (text ".tar.gz")

abbrev onto : Option Text → List Text → List Text
onto none urls = urls
onto (some url) urls = url ∷ urls

-- The upload of one file of the directory; a failure is logged.
unfoldable pub try_upload : Machine → Text → Text → Text → Action (Option Text)
try_upload m test_id dir name =
    if is_artifact name
    then try_except (upload_artifact m test_id (path_join dir name) >>= λ url. pure (some url))
        (λ e. pure none)
    else pure none

-- The URLs of what could be uploaded, in the order of the files.
unfoldable pub upload_all : Machine → Text → Text → List Text → Action (List Text)
unfolding try_upload
upload_all m test_id dir [] = pure []
upload_all m test_id dir (name ∷ names) = do
  url ← try_upload m test_id dir name
  urls ← upload_all m test_id dir names
  pure (onto url urls)
