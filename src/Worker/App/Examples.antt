-- ===== src/Worker/App/Examples.antt =====
-- The worker of the host that a dispatch chose.
use test_orch.Base.{◌≡◌, ◌↔◌, refl, true, [], ◌∷◌}
use test_orch.Base.Int.{◌+ℤ◌, ◌-ℤ◌, ◌*ℤ◌}
use test_orch.Base.Float.{leb_float, ltb_float, eqb_float}
use test_orch.Base.Text.{Text, text, text_eq, is_space, strip, lstrip, comma_list, split}
use test_orch.Shared.Validation.{require_non_empty_str}
use test_orch.Shared.Schemas.{to_dict}
use test_orch.Backend.Config.{Settings, defaults}
use test_orch.Backend.Models.{tag_set, get_host, set_active}
use test_orch.Backend.Effects.{commit, send_task}
use test_orch.Backend.Samples.{exact, exact_add, bundle, world, calm}
use test_orch.Backend.Scheduler.{queue_name_for, passes_filter, workload_score, dispatch}
use test_orch.Worker.App.{CeleryApp, celery_app, celery_client, beat_schedule, dispatch-celery_app}

program : Unit {0}
unfolding dispatch passes_filter workload_score queue_name_for require_non_empty_str tag_set
    comma_list split strip lstrip is_space text_eq get_host set_active leb_float ltb_float eqb_float
    exact_add ◌+ℤ◌ ◌*ℤ◌ ◌-ℤ◌ celery_app
program = tt

abbrev settings : Settings
settings = record defaults { worker_host_id = text "a" }

abbrev app : CeleryApp
app = record {
  app = record (celery_client settings) { main = text "test_orch" };
  task_default_queue = text "queue_a";
  task_acks_late = true;
  worker_prefetch_multiplier = 1;
  task_track_started = true;
  timezone = text "UTC";
  enable_utc = true;
  beat_schedule = beat_schedule;
  beat_schedule_filename = text "/tmp/celerybeat-schedule";
  broker_connection_retry_on_startup = true;
}

dispatch-celery_app_example :
    (queue : Text) × ((dispatch exact calm bundle world).1.calls
      ≡ send_task (text "worker.run_test_bundle") queue (to_dict bundle) ∷ commit ∷ [])
    × ((app.task_default_queue ≡ queue) ↔ (settings.worker_host_id ≡ text "a"))
dispatch-celery_app_example =
    dispatch-celery_app exact calm bundle world (text "a") settings app (unfold program in refl)
      (unfold program celery_client in refl)
