-- ===== src/Shared/HostStats/Examples.antt =====
-- A measurement at concrete readings.
use test_orch.Base.{◌≡◌, refl, true, false, arith}
use test_orch.Base.Int.{ℤ, pos, ◌≤ℤ◌}
use test_orch.Base.Float.{nan, fin, leb_float}
use test_orch.Base.Text.{text, strip, lstrip, is_space}
use test_orch.Base.Result.{ok, err, os_error, external_error}
use test_orch.Shared.HostStats.{HostStats, StatsOps, Readings, collect_host_stats}
use test_orch.Shared.HostStats.Bounds.{IsLawful, IsPlausible, IsSound, collect_host_stats-IsSound}

-- Nothing is rounded, and a unit is a byte.
abbrev bytes : StatsOps
bytes = record { mb = fin; gb = fin; round1 = λ x. x; round2 = λ x. x; above = λ x. x }

bytes-IsLawful : IsLawful bytes
unfolding leb_float
bytes-IsLawful = record {
  mb_mono = λ a b h. fin_mono a b h;
  mb_zero = refl;
  gb_mono = λ a b h. fin_mono a b h;
  gb_zero = refl;
  round1_mono = λ x y h. h;
  round1_zero = refl;
  round1_hundred = refl;
  round2_mono = λ x y h. h;
  round2_zero = refl;
  above_le = λ x y h. h;
}
  where
    fin_mono : (a b : ℤ) → a ≤ℤ b → leb_float (fin a) (fin b) ≡ true
    fin_mono a b h = ground arith

-- The directory is missing and cannot be made, and the table of users is not readable.
abbrev readings : Readings
readings = record {
  cpu = nan;
  available = pos 3;
  total = pos 8;
  users = err external_error;
  path_exists = false;
  make_dirs = err os_error;
  disk_usage = λ path. ok (pos 5, pos 9);
}

readings-IsPlausible : IsPlausible readings
readings-IsPlausible = record {
  ram_low = omega arith;
  ram_high = omega arith;
  made = λ e h. ground arith;
  disk = λ path. (pos 5, pos 9, refl, omega arith, omega arith);
  users = λ n h. cc;
}

collect_host_stats-IsSound_example :
    (s : HostStats) × (collect_host_stats bytes (text "a") (text "/runs") readings ≡ ok s)
    × IsSound bytes s
    × (s.host_id ≡ text "a")
collect_host_stats-IsSound_example =
    collect_host_stats-IsSound bytes bytes-IsLawful (text "a") (text "/runs") readings
      (unfold strip lstrip is_space in refl) (unfold strip lstrip is_space in refl)
      readings-IsPlausible
