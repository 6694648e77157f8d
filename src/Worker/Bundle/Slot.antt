-- ===== src/Worker/Bundle/Slot.antt =====
-- The slot that a run holds on the host: it is given back on every branch.
use test_orch.Base.{◌≢◌, ◌≡◌, refl, ap, ◌∙◌, ◌⊎◌, List, ◌∷◌, ◌++◌, none, some, arith, nat_eq}
use test_orch.Base.Text.{Text, text_eq}
use test_orch.Base.Keys.{NodupKeys}
use test_orch.Base.Result.{ok, Exception, not_found}
use test_orch.Shared.Value.{Value, str, dict}
use test_orch.Shared.Validation.{require_non_empty_str}
use test_orch.Shared.Validation.Laws.{IsNonBlank, require_non_empty_str-ok}
use test_orch.Shared.Schemas.{TestBundleRequest, to_dict, from_dict}
use test_orch.Shared.Schemas.RoundTrip.{IsValid, from_dict-IsValid, from_dict-to_dict}
use test_orch.Backend.Models.{WorkerHost, TestExecution, execution_by_id}
use test_orch.Backend.Models.Hosts.{NodupIds}
use test_orch.Backend.Effects.{
  World, Environment, Event, CommitsWork, docker_get, docker_remove, try_except,
}
use test_orch.Backend.Scheduler.{FloatOps, dispatch}
use test_orch.Worker.Machine.{Machine}
use test_orch.Worker.Docker.{container_name, container_prefix, cleanup, ignore_missing}
use test_orch.Worker.Tasks.{decrement_active_containers}
use test_orch.Worker.Tasks.Capacity.{decrement-dispatch}
use test_orch.Worker.Bundle.{attempt, on_crash, wind_up, run_started, run_test_bundle}
use test_orch.Worker.Bundle.Tables.{Keeps-cleanup}
use test_orch.Worker.Bundle.Rows.{first_status}
use test_orch.Worker.Bundle.Status.{
  Connects, connected, started, run_started-hosts, run_test_bundle_lem,
}

-- Docker answers a removal, or says that there is no such container.
pub record Removes (env : Environment) : Type 0 where
  pub get :
      (calls : List Event) (name : Text)
      → (env calls (docker_get name) ≡ none) ⊎ (env calls (docker_get name) ≡ some not_found)
  pub remove :
      (calls : List Event) (name : Text)
      → (env calls (docker_remove name) ≡ none) ⊎ (env calls (docker_remove name) ≡ some not_found)

-- Docker fails in every removal, at either of its two calls, with anything but a missing container.
pub record RefusesRemoval (env : Environment) : Type 0 where
  pub refuses :
      (calls : List Event) (name : Text)
      → (e : Exception) × (e ≢ not_found)
        × ((env calls (docker_get name) ≡ some e)
            ⊎ ((env calls (docker_get name) ≡ none)
                × (env (docker_get name ∷ calls) (docker_remove name) ≡ some e)))

-- The count after the decrement depends on the hosts alone.
pub decrement-hosts :
    (env env' : Environment) (name : Text) (w w' : World)
    → CommitsWork env
    → CommitsWork env'
    → w.db.hosts ≡ w'.db.hosts
    → (decrement_active_containers env name w).1.db.hosts
      ≡ (decrement_active_containers env' name w').1.db.hosts
unfolding decrement_active_containers
decrement-hosts env env' name w w' works works' same =
    ground (arith, works w.calls, works' w'.calls)

module _ (show : Value → Text) (m : Machine) where
  -- A container that is gone, or goes in between, is no error.
  pub cleanup-quiet :
      (test_id : Text) (w : World)
      → IsNonBlank test_id
      → Removes m.env
      → (cleanup m test_id w).0 ≡ ok tt
  unfolding cleanup ignore_missing container_name
  cleanup-quiet test_id w solid r =
      let named = (require_non_empty_str-ok (str test_id) test_id).1 (refl, solid) in
      let name = container_prefix ++ test_id in
      ground (arith, named, r.get w.calls name, r.remove (docker_get name ∷ w.calls) name)

  wind_up-hosts :
      (req : TestBundleRequest) (w : World)
      → IsNonBlank req.test_id
      → Removes m.env
      → CommitsWork m.env
      → (wind_up show m req w).1.db.hosts
        ≡ (decrement_active_containers m.env m.worker_host_id w).1.db.hosts
  unfolding wind_up
  wind_up-hosts req w solid r works =
      let cleaned = (cleanup m req.test_id w).1 in
      let same = (Keeps-cleanup m req.test_id).same w in
      ground (
        arith,
        cleanup-quiet req.test_id w solid r,
        decrement-hosts m.env m.env m.worker_host_id cleaned w works works same.1,
      )

  -- Once the worker has its connections, while commits work and a container is removed or gone, a
  -- bundle whose run is in the database leaves the table of hosts as the one decrement of the
  -- worker's host leaves it, whatever else fails, and whether the task returns or raises.
  pub run_test_bundle-frees :
      (bundle : Value) (req : TestBundleRequest) (w : World) (row : TestExecution)
      → CommitsWork m.env
      → Connects m.env
      → Removes m.env
      → from_dict bundle ≡ ok req
      → execution_by_id req.test_id w.db.executions ≡ some row
      → (run_test_bundle show m bundle w).1.db.hosts
        ≡ (decrement_active_containers m.env m.worker_host_id w).1.db.hosts
  unfolding run_started
  run_test_bundle-frees bundle req w row works c r parsed found =
      let solid = (from_dict-IsValid bundle req parsed).test_id in
      let (done, (run, hosts)) = first_status show m works req solid (connected w) row found in
      let w1 = started show m req w in
      let ran = (try_except (attempt show m req) (on_crash show m req) w1).1 in
      ap (λ p. p.1.db.hosts) (run_test_bundle_lem show m bundle req w c parsed done)
      ∙ wind_up-hosts req ran solid r works
      ∙ decrement-hosts m.env m.env m.worker_host_id ran w works works
          (run_started-hosts show m works req solid w1 run ∙ hosts)

  -- A dispatch that chose the worker's host, followed by the run of the bundle that it sent, leaves
  -- the table of hosts as it was: under the conditions of `run_test_bundle-frees` the slot is taken
  -- once and given back once. Keys and names of hosts are distinct.
  pub run_test_bundle-dispatch :
      (ops : FloatOps) (env : Environment) (bundle : TestBundleRequest) (w : World)
      (row : TestExecution)
      → IsValid bundle
      → CommitsWork env
      → CommitsWork m.env
      → Connects m.env
      → Removes m.env
      → NodupIds w.db.hosts
      → NodupKeys (λ (h : WorkerHost). h.host_id) w.db.hosts
      → (dispatch ops env bundle w).0 ≡ ok (some m.worker_host_id)
      → execution_by_id bundle.test_id (dispatch ops env bundle w).1.db.executions ≡ some row
      → (run_test_bundle show m (dict (to_dict bundle)) (dispatch ops env bundle w).1).1.db.hosts
        ≡ w.db.hosts
  run_test_bundle-dispatch ops env bundle w row valid works works' c r u v chosen found =
      let sent = (dispatch ops env bundle w).1 in
      run_test_bundle-frees (dict (to_dict bundle)) bundle sent row works' c r
        (from_dict-to_dict bundle valid) found
      ∙ decrement-hosts m.env env m.worker_host_id sent sent works' works refl
      ∙ ap (λ d. d.hosts) (decrement-dispatch env ops bundle w m.worker_host_id works u v chosen).1

  wind_up_stuck :
      (req : TestBundleRequest) (w : World)
      → RefusesRemoval m.env
      → (wind_up show m req w).1.db ≡ w.db
  unfolding wind_up cleanup ignore_missing container_name require_non_empty_str
  wind_up_stuck req w broken =
      let (e, other, at_one) = broken.refuses w.calls (container_prefix ++ req.test_id) in
      ground (arith, other, at_one)

  -- When Docker fails in the removal of a container, in its lookup or in the removal itself, with
  -- anything but a missing container, the run gives no slot back: the table of hosts is as it was
  -- before the task.
  pub run_test_bundle-leaks :
      (bundle : Value) (req : TestBundleRequest) (w : World) (row : TestExecution)
      → CommitsWork m.env
      → Connects m.env
      → RefusesRemoval m.env
      → from_dict bundle ≡ ok req
      → execution_by_id req.test_id w.db.executions ≡ some row
      → (run_test_bundle show m bundle w).1.db.hosts ≡ w.db.hosts
  unfolding run_started
  run_test_bundle-leaks bundle req w row works c broken parsed found =
      let solid = (from_dict-IsValid bundle req parsed).test_id in
      let (done, (run, hosts)) = first_status show m works req solid (connected w) row found in
      let w1 = started show m req w in
      let ran = (try_except (attempt show m req) (on_crash show m req) w1).1 in
      ap (λ p. p.1.db.hosts) (run_test_bundle_lem show m bundle req w c parsed done)
      ∙ ap (λ d. d.hosts) (wind_up_stuck req ran broken)
      ∙ run_started-hosts show m works req solid w1 run
      ∙ hosts
