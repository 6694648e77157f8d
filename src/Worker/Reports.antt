-- ===== src/Worker/Reports.antt =====
-- worker/tasks.py: `report_status`, a host's answer to a poll.
mod Examples
use test_orch.Base.{◌≡◌, refl, ◌∷◌, ◌++◌, none, arith}
use test_orch.Base.Text.{Text, text}
use test_orch.Base.Result.{ok}
use test_orch.Shared.Value.{Fields, str}
use test_orch.Shared.Validation.{require_non_empty_str}
use test_orch.Shared.Validation.Laws.{IsNonBlank, require_non_empty_str-ok}
use test_orch.Shared.HostStats.{HostStats, StatsOps, Readings, collect_host_stats, to_dict}
use test_orch.Shared.HostStats.Bounds.{IsLawful, IsPlausible, IsSound, collect_host_stats-IsSound}
use test_orch.Backend.Effects.{World, Action, lift, ◌>>=◌, ◌>>◌}
use test_orch.Backend.Poll.Ask.{status_exchange_for}
use test_orch.Worker.Broker.{publish_fanout, Delivers, published, publish_fanout-ok}
use test_orch.Worker.Machine.{Machine}

-- `dumps` is `json.dumps`.
module _ (ops : StatsOps) (dumps : Fields → Text) (m : Machine) (r : Readings) where
  publish_stats_reply : Text → Text → Action (Unit {0})
  publish_stats_reply correlation_id body =
      publish_fanout m.env (text "host_status." ++ correlation_id) body

  unfoldable pub report_status : Text → Action (Unit {0})
  unfolding publish_stats_reply
  report_status correlation_id = do
    id ← lift (require_non_empty_str (str correlation_id))
    stats ← lift (collect_host_stats ops m.worker_host_id m.test_runs_dir r)
    publish_stats_reply correlation_id (dumps (to_dict stats))

  -- A host that is asked publishes one sound snapshot of itself, to the exchange that the asking
  -- socket listens on, and writes nothing, if the name, the directory and the poll's identifier are
  -- not blank, the rounding is lawful, the readings are plausible and the broker takes the reply.
  pub report_status-publishes :
      (correlation_id : Text) (w : World)
      → IsLawful ops
      → IsPlausible r
      → IsNonBlank m.worker_host_id
      → IsNonBlank m.test_runs_dir
      → IsNonBlank correlation_id
      → Delivers m.env
      → (s : HostStats) × IsSound ops s
        × (s.host_id ≡ m.worker_host_id)
        × (report_status correlation_id w ≡ (
          ok tt,
          record w {
            calls = published (status_exchange_for correlation_id) (dumps (to_dict s)) w.calls;
          },
        ))
  unfolding report_status status_exchange_for
  report_status-publishes correlation_id w lawful v named solid asked d =
      let (s, collected, sound, same) =
        collect_host_stats-IsSound ops lawful m.worker_host_id m.test_runs_dir r named solid v in
      (
        s,
        sound,
        same,
        ground (
          arith,
          (require_non_empty_str-ok (str correlation_id) correlation_id).1 (refl, asked),
          collected,
          publish_fanout-ok m.env (status_exchange_for correlation_id) (dumps (to_dict s)) w d,
        ),
      )
