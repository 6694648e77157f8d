-- ===== src/Lib.antt =====
-- A verification library for the test orchestrator: a backend that places test bundles on worker
-- hosts, and the workers that run them.
--
-- The backend (backend/main.py) takes a form, checks it as a `TestBundleRequest` (shared/schemas.py,
-- with the guards of shared/validation.py), records a run, and asks the scheduler
-- (backend/services/scheduler.py) for a host. The scheduler filters and ranks the rows of the
-- inventory (backend/models.py), reserves a slot, commits, and sends the task to the host's queue.
-- The worker (worker/tasks.py) gives the slot back, reports its load in heartbeats, and fails runs
-- that are stuck. A sweep of the backend (backend/services/maintenance.py) marks silent hosts offline
-- and fails their runs. Users log in against a directory (backend/auth/ldap_auth.py).
--
-- Base: numbers, texts, lists, results and keyed tables, the helpers that the parts share.
--   Base.Int is Python's int; Base.Float its float, exact in comparisons, with arithmetic a parameter;
--   Base.Text its str, a list of code points; Base.Result exceptions as values.
-- Shared.Value: the dynamic values at the boundaries. Shared.Validation: shared/validation.py.
-- Shared.Schemas: shared/schemas.py; `post_init` is `__post_init__`.
-- Backend.Models: backend/models.py, rows as records and tables as lists. Where the code relies on a
--   unique column the theorems say so (`NodupIds`, `NodupKeys`).
-- Backend.Effects: the committed database and the calls of other services, newest first. An
--   `Environment` says for every call whether it raises, and it may look at all earlier calls. A
--   write becomes visible with its commit; if the commit raises nothing is written.
-- Backend.Clock: comparisons of datetimes, naive and aware.
-- Backend.Config: backend/config.py, with the addresses that backend/main.py (`_amqp_url`) and
--   backend/services/quali_client.py make of the settings. Backend.Database: backend/database.py;
--   `with_db` is `get_db` around a request.
-- Backend.Scheduler: backend/services/scheduler.py; `passes_filter` is `_passes_filter`,
--   `workload_score` is `_workload_score`, `reserve_and_send` and `undo` are the try block of
--   `dispatch` and its handler. The row lock is the atomicity of a step.
-- Backend.Maintenance: backend/services/maintenance.py; `release` is the call of
--   backend/services/quali_client.py. Its child Loop is `lifespan` and `_maintenance_loop` of
--   backend/main.py, each turn with its own clock and failures.
-- Backend.Auth: backend/auth/ldap_auth.py, with the random token, the key of a new row and, in its
--   child Bind, the LDAP client as parameters.
-- Backend.Ledger: no code, but what the program promises of capacity: slots that are taken one by one
--   where they are free, and given back. The operations of both sides refine it.
-- Backend.Influx: backend/services/influx_client.py.
-- Backend.Routes: `submit_test`, `update_host` and `test_logs_page` of backend/main.py; in its child
--   Pages `current_user`, `dashboard`, `admin`, `login_form`, `login_submit` and
--   `ws_logs`: `admit` is the checks of the live log, `watch_browser` the loop that waits for the
--   browser to leave. The order of a query's rows is a parameter. Its child Fanout is
--   `_consume_fanout` for the live log, with the calls of the broker and of the socket; what the
--   iteration of a queue calls besides is left out.
-- Backend.Poll: `_PollState` and the grace timer of backend/main.py, as a relation whose steps are
--   what one task does between two awaits; in its child Ask the start of a poll in `ws_admin`, in
--   its child Socket all of `ws_admin`: a machine whose steps are what its own code, a consumer or a
--   timer does between two awaits. The number of a poll is its generation; `my_gen` and `state` are
--   single variables that the closures of all polls share.
-- Backend.Render: backend/services/status_render.py, with JSON and the formats of numbers as
--   parameters.
-- Shared.HostStats: shared/host_stats.py, with psutil, the file system and rounding as parameters.
-- Worker.Machine: what the tasks ask of their host, its clock and its settings, a parameter.
-- Worker.Docker: worker/docker_engine.py. Worker.Runners: worker/translation_layer.py.
-- Worker.Artifacts: worker/artifact_uploader.py.
-- Worker.Bundle: `run_test_bundle` of worker/tasks.py, every call that may raise in its place;
--   `attempt`, `on_crash` and `wind_up` are the try block and its branches. The lines of the
--   container, its exit code and the files that it leaves are parameters.
-- Worker.Reports: `report_status` of worker/tasks.py.
-- Worker.App: worker/celery_app.py and backend/celery_client.py.
-- System: whole operations of backend and workers in any order, as a step relation. In its child
--   Weave the worker's decrement, which reads without a lock, is two steps: `write_back` of
--   Worker.Tasks is the second. Its child Lifecycle is a form followed by the run of its bundle,
--   LiveLog the container's lines from the worker to the browser, Heartbeat a heartbeat and a sweep.
-- Worker.Broker: `_publish_fanout` and `_publish_log_line` of worker/tasks.py.
-- Worker.Tasks: `_set_status`, `_decrement_active_containers`, what a heartbeat writes and
--   `reap_stale` of worker/tasks.py. Worker.Heartbeat: `publish_heartbeat` of the same file, with
--   Docker's and psutil's answers as parameters.
--
-- All loops run over lists and are structural recursion; there is no fuel. Texts are lists of code
-- points, and the white space that `strip` removes is Python's. Python's integers have no bounds.
--
-- Not modelled: the parsing of settings, the broker, the insides of the engines and clients that the
-- settings construct, the example container in examples/, and templates, which are glue around other
-- services. Log messages and the texts of exceptions are left out. Concurrent operations are in the
-- order of whole operations, but for the decrement and the admin channel.
pub mod Base
pub mod Shared
pub mod Backend
pub mod Worker
pub mod System
