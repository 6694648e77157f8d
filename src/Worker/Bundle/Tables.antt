-- ===== src/Worker/Bundle/Tables.antt =====
-- What a run leaves alone before its last write: the tables of hosts and of runs.
use test_orch.Base.{
  ℕ, suc, if◌then◌else◌, ◌≡◌, refl, ◌∙◌, Bool, true, false, List, [], ◌∷◌, Option, none, some,
  arith,
}
use test_orch.Base.Text.{Text, is_empty}
use test_orch.Base.Result.{Result, ok, err, Exception}
use test_orch.Shared.Value.{Value}
use test_orch.Shared.Schemas.{TestBundleRequest}
use test_orch.Backend.Models.{Database}
use test_orch.Backend.Effects.{
  World, Action, Environment, Event, lift, try_except, try_finally, call, next_line, and_then,
  rescue, ◌>>=◌,
}
use test_orch.Backend.Influx.{write_line}
use test_orch.Backend.Maintenance.{release, release_if_any}
use test_orch.Worker.Machine.{Machine}
use test_orch.Worker.Broker.{publish_fanout, publish_log_line}
use test_orch.Worker.Docker.{start_test_container, check_dir, check_output, ignore_missing, cleanup}
use test_orch.Worker.Runners.{
  Runner, Framework, pytest, robot, config_dir, write_file, write_with, write_pytest, write_robot,
  write_config,
}
use test_orch.Worker.Artifacts.{check_file, upload_artifact, try_upload, upload_all, is_artifact}
use test_orch.Worker.Bundle.{checkpoint, handle_line, stream, execute}

-- The runs and the hosts are as they were.
abbrev pub SameTables : {A : Type 0} → Database → Result A × World → Type 0
SameTables db (r, w) = (w.db.executions ≡ db.executions) × (w.db.hosts ≡ db.hosts)

-- The action does not write these tables, whether it returns or raises.
pub record Keeps {A : Type 0} (m : Action A) : Type 0 where
  pub same : (w : World) → SameTables w.db (m w)

module _ {A B : Type 0} where
  and_then-same :
      (db : Database) (r : Result A) (f : A → Action B) (w : World)
      → SameTables db (r, w)
      → ((a : A) → Keeps (f a))
      → SameTables db (and_then r f w)
  and_then-same db (ok a) f w h k = let after = (k a).same w in (after.0 ∙ h.0, after.1 ∙ h.1)
  and_then-same db (err e) f w h k = h

  pub Keeps->>= :
      (m : Action A) (f : A → Action B) → Keeps m → ((a : A) → Keeps (f a)) → Keeps (m >>= f)
  Keeps->>= m f h k = record { same = λ w. and_then-same w.db (m w).0 f (m w).1 (h.same w) k }

pub Keeps-call : (env : Environment) (event : Event) → Keeps (call env event)
Keeps-call env event = record { same = λ w. ground arith }

module _ {A : Type 0} where
  pub Keeps-lift : (r : Result A) → Keeps (lift r)
  Keeps-lift r = record { same = λ w. (refl, refl) }

  rescue-same :
      (db : Database) (r : Result A) (handler : Exception → Action A) (w : World)
      → SameTables db (r, w)
      → ((e : Exception) → Keeps (handler e))
      → SameTables db (rescue r handler w)
  rescue-same db (ok a) handler w h k = h
  rescue-same db (err e) handler w h k = let after = (k e).same w in (after.0 ∙ h.0, after.1 ∙ h.1)

  pub Keeps-try_except :
      (body : Action A) (handler : Exception → Action A)
      → Keeps body
      → ((e : Exception) → Keeps (handler e))
      → Keeps (try_except body handler)
  Keeps-try_except body handler h k = record {
    same = λ w. rescue-same w.db (body w).0 handler (body w).1 (h.same w) k;
  }

Keeps-try_finally :
    (body last : Action (Unit {0})) → Keeps body → Keeps last → Keeps (try_finally body last)
Keeps-try_finally body last h k = record {
  same = λ w.
      let before = h.same w in
      let after = k.same (body w).1 in (after.0 ∙ before.0, after.1 ∙ before.1);
}

Keeps-if : {A : Type 0} {m n : Action A} (b : Bool) → Keeps m → Keeps n → Keeps (if b then m else n)
Keeps-if true h k = h
Keeps-if false h k = k

Keeps-ignore_missing : (e : Exception) → Keeps (ignore_missing e)
unfolding ignore_missing
Keeps-ignore_missing e = record { same = λ w. ground arith }

pub ruleset keeps = (Keeps->>=, Keeps-lift, Keeps-try_except, Keeps-call)

module _ (env : Environment) where
  Keeps-write_line :
      (test_id line_no content : Value) → Keeps (write_line env test_id line_no content)
  unfolding write_line
  Keeps-write_line test_id line_no content = search keeps

  Keeps-publish_log_line : (test_id line : Text) → Keeps (publish_log_line env test_id line)
  unfolding publish_log_line publish_fanout
  Keeps-publish_log_line test_id line = search (keeps, Keeps-try_finally)

  Keeps-release : (reservation : Text) → Keeps (release env reservation)
  unfolding release
  Keeps-release reservation = search keeps

  pub Keeps-release_if_any : (reservation : Option Text) → Keeps (release_if_any env reservation)
  unfolding release_if_any
  Keeps-release_if_any none = search keeps
  Keeps-release_if_any (some r) =
      Keeps-if (is_empty r) (search keeps) (search (keeps, Keeps-release))

module _ (m : Machine) where
  Keeps-check_dir : (path : Text) → Keeps (check_dir m path)
  Keeps-check_dir path = record { same = λ w. (refl, refl) }

  Keeps-check_output : (dir : Option Text) → Keeps (check_output m dir)
  unfolding check_output
  Keeps-check_output none = search keeps
  Keeps-check_output (some dir) = Keeps-if (is_empty dir) (search keeps) (Keeps-check_dir dir)

  Keeps-start_test_container :
      (image dir test_id : Text) (output_dir : Option Text)
      → Keeps (start_test_container m image dir test_id output_dir)
  unfolding start_test_container
  Keeps-start_test_container image dir test_id output_dir =
      search (keeps, Keeps-check_dir, Keeps-check_output) depth 12

  Keeps-check_file : (path : Text) → Keeps (check_file m path)
  Keeps-check_file path = record { same = λ w. (refl, refl) }

  Keeps-upload_artifact : (test_id path : Text) → Keeps (upload_artifact m test_id path)
  unfolding upload_artifact
  Keeps-upload_artifact test_id path = search (keeps, Keeps-check_file)

  Keeps-try_upload : (test_id dir name : Text) → Keeps (try_upload m test_id dir name)
  unfolding try_upload
  Keeps-try_upload test_id dir name =
      Keeps-if (is_artifact name) (search (keeps, Keeps-upload_artifact)) (search keeps)

  Keeps-upload_all :
      (test_id dir : Text) (names : List Text) → Keeps (upload_all m test_id dir names)
  unfolding upload_all
  Keeps-upload_all test_id dir [] = search keeps
  Keeps-upload_all test_id dir (name ∷ names) =
      Keeps->>= (try_upload m test_id dir name) _ (Keeps-try_upload test_id dir name) λ url.
        Keeps->>= (upload_all m test_id dir names) _ (Keeps-upload_all test_id dir names)
          λ urls. Keeps-lift _

  pub Keeps-cleanup : (test_id : Text) → Keeps (cleanup m test_id)
  unfolding cleanup
  Keeps-cleanup test_id = search (keeps, Keeps-ignore_missing)

module _ (show : Value → Text) (m : Machine) where
  Keeps-config_dir : (r : Runner) → Keeps (config_dir show m r)
  unfolding config_dir
  Keeps-config_dir r = search keeps

  Keeps-write_file : (event : Event) → Keeps (write_file show m event)
  unfolding write_file
  Keeps-write_file event = search keeps

  Keeps-write_with : (f : Framework) (r : Runner) → Keeps (write_with show m f r)
  unfolding write_with write_pytest write_robot
  Keeps-write_with pytest r = search (keeps, Keeps-config_dir, Keeps-write_file)
  Keeps-write_with robot r = search (keeps, Keeps-config_dir, Keeps-write_file)

  Keeps-write_config : (r : Runner) → Keeps (write_config show m r)
  unfolding write_config
  Keeps-write_config r = Keeps-write_with r.framework r

  Keeps-checkpoint :
      (test_id : Text) (line_no : ℕ) (line : Text) → Keeps (checkpoint show m test_id line_no line)
  unfolding checkpoint
  Keeps-checkpoint test_id line_no line = record { same = λ w. ground arith }

  Keeps-handle_line :
      (test_id : Text) (line_no : ℕ) (line : Text) → Keeps (handle_line show m test_id line_no line)
  unfolding handle_line
  Keeps-handle_line test_id line_no line =
      search (keeps, Keeps-write_line m.env, Keeps-publish_log_line m.env, Keeps-checkpoint)

  Keeps-stream :
      (test_id : Text) (line_no : ℕ) (lines : List Text)
      → Keeps (stream show m test_id line_no lines)
  unfolding stream
  Keeps-stream test_id line_no [] = search keeps
  Keeps-stream test_id line_no (line ∷ lines) =
      Keeps->>= (call m.env next_line) _ (Keeps-call m.env next_line) λ _.
        Keeps->>= (handle_line show m test_id line_no line) _
          (Keeps-handle_line test_id line_no line) λ _. Keeps-stream test_id (suc line_no) lines

  -- All of the body of the `try` before its last write.
  pub Keeps-execute : (req : TestBundleRequest) → Keeps (execute show m req)
  unfolding execute
  Keeps-execute req =
      search
        (keeps, Keeps-write_config, Keeps-start_test_container m, Keeps-stream, Keeps-upload_all m)
        depth 16
