-- ===== src/Worker/App.antt =====
-- worker/celery_app.py: the Celery application of one host's worker, and backend/celery_client.py,
-- which only sends. Celery is a library: what it is given is a record.
mod Examples
use test_orch.Base.{
  ℕ, Bool, true, List, [], ◌∷◌, ◌++◌, ◌≡◌, refl, sym, ap, ◌∙◌, ◌≢◌, ◌↔◌, arith, some, Option,
}
use test_orch.Base.Float.{Float}
use test_orch.Base.Text.{Text, text}
use test_orch.Base.Result.{Result, ok}
use test_orch.Base.Result as Result
use test_orch.Shared.Value.{str}
use test_orch.Shared.Schemas.{TestBundleRequest, to_dict}
use test_orch.Shared.Validation.{require_non_empty_str}
use test_orch.Shared.Validation.Laws.{IsNonBlank, require_non_empty_str-ok}
use test_orch.Backend.Config.{Settings, whole}
use test_orch.Backend.Effects.{World, Environment, Event, commit, send_task}
use test_orch.Backend.Scheduler.{FloatOps, queue_name_for, dispatch}
use test_orch.Backend.Scheduler.Dispatch.{queue_name_for-ok, dispatch-IsBest}

-- An entry of the beat schedule, with its period in seconds.
pub record Periodic : Type 0 where
  pub entry : Text
  pub task : Text
  pub schedule : Float

pub record Celery : Type 0 where
  pub main : Text
  pub broker : Text
  pub backend : Text

pub record CeleryApp : Type 0 where
  pub app : Celery
  pub task_default_queue : Text
  pub task_acks_late : Bool
  pub worker_prefetch_multiplier : ℕ
  pub task_track_started : Bool
  pub timezone : Text
  pub enable_utc : Bool
  pub beat_schedule : List Periodic
  pub beat_schedule_filename : Text
  pub broker_connection_retry_on_startup : Bool

abbrev pub beat_schedule : List Periodic
beat_schedule =
    record {
      entry = text "publish-heartbeat";
      task = text "worker.publish_heartbeat";
      schedule = whole 30;
    }
    ∷ record {
      entry = text "reap-stale-reservations";
      task = text "worker.reap_stale";
      schedule = whole 120;
    }
    ∷ []

-- `celery_app`; the module's import raises where the host's name is blank.
unfoldable pub celery_app : Settings → Result CeleryApp
celery_app settings = Result.◌>>=◌ (queue_name_for settings.worker_host_id) λ queue. ok (record {
  app = record {
    main = text "test_orch";
    broker = settings.celery_broker_url;
    backend = settings.celery_result_backend;
  };
  task_default_queue = queue;
  task_acks_late = true;
  worker_prefetch_multiplier = 1;
  task_track_started = true;
  timezone = text "UTC";
  enable_utc = true;
  beat_schedule = beat_schedule;
  beat_schedule_filename = text "/tmp/celerybeat-schedule";
  broker_connection_retry_on_startup = true;
})

-- The backend's handle.
unfoldable pub celery_client : Settings → Celery
celery_client settings = record {
  main = text "test_orch_client";
  broker = settings.celery_broker_url;
  backend = settings.celery_result_backend;
}

celery_app-queue :
    (settings : Settings) (app : CeleryApp)
    → celery_app settings ≡ ok app
    → app.task_default_queue ≡ text "queue_" ++ settings.worker_host_id
unfolding celery_app
celery_app-queue settings app h =
    let (queue, named, made) = Result.>>=-eq-ok (queue_name_for settings.worker_host_id) _ h in
    ground (arith, queue_name_for-ok settings.worker_host_id queue named)

append_cancel : (s t u : Text) → s ++ t ≡ s ++ u → t ≡ u
append_cancel [] t u h = h
append_cancel (c ∷ s) t u h = append_cancel s t u (ground arith)

-- When a dispatch returns a host, it has committed and then sent the bundle to one queue, and a
-- worker reads this queue exactly if it is the worker of that host.
pub dispatch-celery_app :
    (ops : FloatOps) (env : Environment) (bundle : TestBundleRequest) (w : World) (name : Text)
    (settings : Settings) (app : CeleryApp)
    → (dispatch ops env bundle w).0 ≡ ok (some name)
    → celery_app settings ≡ ok app
    → (queue : Text) × ((dispatch ops env bundle w).1.calls
        ≡ send_task (text "worker.run_test_bundle") queue (to_dict bundle) ∷ commit ∷ w.calls)
      × ((app.task_default_queue ≡ queue) ↔ (settings.worker_host_id ≡ name))
dispatch-celery_app ops env bundle w name settings app chosen made =
    let (c, best, named, after) = (dispatch-IsBest ops env bundle w).0 name chosen in
    let reads = celery_app-queue settings app made in
    (
      text "queue_" ++ c.0.host_id,
      ap (λ (x : World). x.calls) after,
      (
        λ same.
            append_cancel (text "queue_") settings.worker_host_id c.0.host_id (sym reads ∙ same)
            ∙ named,
        λ same. reads ∙ ap (λ t. text "queue_" ++ t) (same ∙ sym named),
      ),
    )
