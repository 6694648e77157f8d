-- ===== src/Worker/Reports/Examples.antt =====
-- A poll at a concrete host, from the reading to the row.
use test_orch.Base.{◌≡◌, refl, true, [], ◌∷◌, some, arith}
use test_orch.Base.Int.{pos}
use test_orch.Base.Float.{fin, zero_float, leb_float}
use test_orch.Base.Text.{Text, text, text_eq, strip, lstrip, is_space}
use test_orch.Base.Result.{ok}
use test_orch.Shared.Value.{Fields, dict}
use test_orch.Shared.HostStats.{HostStats, StatsOps, Readings, to_dict}
use test_orch.Shared.HostStats.Bounds.{IsLawful, IsPlausible, IsSound}
use test_orch.Backend.Effects.{send_poll}
use test_orch.Backend.Render.Row.{Python, render_status_row, row_for, render_status_row-to_dict}
use test_orch.Backend.Poll.{init}
use test_orch.Backend.Poll.Ask.{status_exchange_for, start_poll, start_poll-asks}
use test_orch.Backend.Samples.{calm, world}
use test_orch.Worker.Machine.{Machine}
use test_orch.Worker.Samples.{worker}
use test_orch.Worker.Broker.{Delivers, published}
use test_orch.Worker.Reports.{report_status, report_status-publishes}

-- Nothing is measured but zeros.
abbrev ops : StatsOps
ops = record {
  mb = λ n. zero_float;
  gb = λ n. zero_float;
  round1 = λ x. x;
  round2 = λ x. x;
  above = λ x. x;
}

ops-IsLawful : IsLawful ops
unfolding leb_float
ops-IsLawful = record {
  mb_mono = λ a b h. refl;
  mb_zero = refl;
  gb_mono = λ a b h. refl;
  gb_zero = refl;
  round1_mono = λ x y h. h;
  round1_zero = refl;
  round1_hundred = refl;
  round2_mono = λ x y h. h;
  round2_zero = refl;
  above_le = λ x y h. h;
}

abbrev readings : Readings
readings = record {
  cpu = fin (pos 1);
  available = pos 3;
  total = pos 8;
  users = ok (pos 2);
  path_exists = true;
  make_dirs = ok tt;
  disk_usage = λ path. ok (pos 5, pos 9);
}

readings-IsPlausible : IsPlausible readings
readings-IsPlausible = record {
  ram_low = omega arith;
  ram_high = omega arith;
  made = λ e h. cc;
  disk = λ path. (pos 5, pos 9, refl, omega arith, omega arith);
  users = λ n h. ground arith;
}

abbrev machine : Machine
machine = worker calm

abbrev dumps : Fields → Text
dumps fields = text "{}"

calm-Delivers : Delivers calm
calm-Delivers = record {
  connects = λ calls. refl;
  declares = λ calls exchange. refl;
  takes = λ calls exchange body. refl;
  closes = λ calls. refl;
}

report_status-publishes_example :
    (s : HostStats) × IsSound ops s
    × (s.host_id ≡ text "a")
    × (report_status ops dumps machine readings (text "c1") world ≡ (
      ok tt,
      record world { calls = published (status_exchange_for (text "c1")) (dumps (to_dict s)) [] },
    ))
report_status-publishes_example =
    report_status-publishes ops dumps machine readings (text "c1") world ops-IsLawful
      readings-IsPlausible (unfold strip lstrip is_space in refl)
      (unfold strip lstrip is_space in refl) (unfold strip lstrip is_space in refl) calm-Delivers

abbrev snapshot : HostStats
snapshot = record {
  host_id = text "<a>";
  cpu_percent = fin (pos 1);
  ram_available_mb = zero_float;
  ram_total_mb = zero_float;
  disk_available_gb = zero_float;
  disk_total_gb = zero_float;
  active_users = pos 2;
  online = true;
}

-- A JSON that knows one object.
abbrev python : Python
python = record {
  dumps = dumps;
  loads = λ body. some (dict (to_dict snapshot));
  fixed = λ d x. text "0.0";
  fixed_int = λ d n. ok (text "0");
  show = λ v. text "2";
}

render_status_row-to_dict_example :
    render_status_row python (text "{}") ≡ ok (row_for python snapshot)
render_status_row-to_dict_example = render_status_row-to_dict python snapshot refl

start_poll-asks_example : start_poll calm (text "c1") world ≡ (
  ok (init 3),
  record world {
    calls =
        send_poll (text "c1") (text "queue_c")
        ∷ send_poll (text "c1") (text "queue_a")
        ∷ send_poll (text "c1") (text "queue_b")
        ∷ [];
  },
)
start_poll-asks_example =
    start_poll-asks calm (text "c1") world
      (unfold strip lstrip is_space in (refl, (refl, (refl, tt)))) (λ calls event. refl)
