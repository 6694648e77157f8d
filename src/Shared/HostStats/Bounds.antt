-- ===== src/Shared/HostStats/Bounds.antt =====
-- A measurement passes its own checks.
use test_orch.Base.{ℕ, ◌*◌, ◌^◌, ◌≡◌, refl, subst, Bool, true, false, arith}
use test_orch.Base.Int.{ℤ, pos, negsuc, ◌≤ℤ◌}
use test_orch.Base.Float.{Float, nan, ninf, fin, pinf, leb_float, ltb_float, zero_float}
use test_orch.Base.Text.{Text, text, is_empty}
use test_orch.Base.Result.{Result, ok, err, Exception, os_error}
use test_orch.Shared.Value.{str}
use test_orch.Shared.Validation.Laws.{IsNonBlank, is_empty_of_IsNonBlank, require_non_empty_str-ok}
use test_orch.Shared.HostStats.{
  HostStats, hundred, StatsOps, Readings, min_float, max_float, clamp_cpu, measured_path,
  users_or_none, check_stats, snapshot, collect_host_stats,
}

-- What the rounding arithmetic is known to keep.
pub record IsLawful (ops : StatsOps) : Type 0 where
  pub mb_mono : (a b : ℤ) → a ≤ℤ b → leb_float (ops.mb a) (ops.mb b) ≡ true
  pub mb_zero : ops.mb (pos 0) ≡ zero_float
  pub gb_mono : (a b : ℤ) → a ≤ℤ b → leb_float (ops.gb a) (ops.gb b) ≡ true
  pub gb_zero : ops.gb (pos 0) ≡ zero_float
  pub round1_mono :
      (x y : Float) → leb_float x y ≡ true → leb_float (ops.round1 x) (ops.round1 y) ≡ true
  pub round1_zero : ops.round1 zero_float ≡ zero_float
  pub round1_hundred : ops.round1 hundred ≡ hundred
  pub round2_mono :
      (x y : Float) → leb_float x y ≡ true → leb_float (ops.round2 x) (ops.round2 y) ≡ true
  pub round2_zero : ops.round2 zero_float ≡ zero_float
  pub above_le : (x y : Float) → leb_float x y ≡ true → leb_float x (ops.above y) ≡ true

-- Readings that make sense: what is free is at least zero and no more than there is, and the
-- directory is there, can be made, or fails to be made with an error of the file system.
pub record IsPlausible (r : Readings) : Type 0 where
  pub ram_low : pos 0 ≤ℤ r.available
  pub ram_high : r.available ≤ℤ r.total
  pub made : (e : Exception) → r.make_dirs ≡ err e → e ≡ os_error
  pub disk :
      (path : Text)
      → (free : ℤ) × (size : ℤ) × (r.disk_usage path ≡ ok (free, size))
        × (pos 0 ≤ℤ free)
        × (free ≤ℤ size)
  pub users : (n : ℤ) → r.users ≡ ok n → pos 0 ≤ℤ n

-- `max(0.0, min(k, x))` for a reading that is a number.
clamp_fin :
    (k : ℕ) (x : ℤ)
    → let y = max_float zero_float (min_float (fin (pos k)) (fin x)) in
      (leb_float zero_float y ≡ true) × (leb_float y (fin (pos k)) ≡ true)
unfolding leb_float ltb_float
clamp_fin k (pos n) = ground arith
clamp_fin k (negsuc n) = ground arith

-- Every reading is forced into the range, `nan` and the infinities too.
pub clamp_cpu_bounds :
    (x : Float)
    → (leb_float zero_float (clamp_cpu x) ≡ true) × (leb_float (clamp_cpu x) hundred ≡ true)
unfolding clamp_cpu leb_float ltb_float hundred
clamp_cpu_bounds nan = (refl, refl)
clamp_cpu_bounds ninf = (refl, refl)
clamp_cpu_bounds (fin n) = clamp_fin (100 * 2 ^ 1074) n
clamp_cpu_bounds pinf = (refl, refl)

-- What a snapshot promises, as its own checks do.
pub record IsSound (ops : StatsOps) (s : HostStats) : Type 0 where
  pub named : is_empty s.host_id ≡ false
  pub cpu_low : leb_float zero_float s.cpu_percent ≡ true
  pub cpu_high : leb_float s.cpu_percent hundred ≡ true
  pub ram_low : leb_float zero_float s.ram_available_mb ≡ true
  pub ram_total : leb_float zero_float s.ram_total_mb ≡ true
  pub ram_high : leb_float s.ram_available_mb (ops.above s.ram_total_mb) ≡ true
  pub disk_low : leb_float zero_float s.disk_available_gb ≡ true
  pub disk_total : leb_float zero_float s.disk_total_gb ≡ true
  pub disk_high : leb_float s.disk_available_gb (ops.above s.disk_total_gb) ≡ true
  pub users : pos 0 ≤ℤ s.active_users

check_stats-ok : (ops : StatsOps) (s : HostStats) → IsSound ops s → check_stats ops s ≡ ok s
unfolding check_stats
check_stats-ok ops s v =
    rw
      (
        v.named, v.cpu_low, v.cpu_high, v.ram_low, v.ram_total, v.ram_high, v.disk_low,
        v.disk_total, v.disk_high,
      )
      (ground (arith, v.users))

module _ (ops : StatsOps) (lawful : IsLawful ops) where
  nonneg_trans : (a b : ℤ) → pos 0 ≤ℤ a → a ≤ℤ b → pos 0 ≤ℤ b
  nonneg_trans a b h k = omega arith

  mb_nonneg : (n : ℤ) → pos 0 ≤ℤ n → leb_float zero_float (ops.mb n) ≡ true
  mb_nonneg n h =
      subst (λ z. leb_float z (ops.mb n) ≡ true) lawful.mb_zero (lawful.mb_mono (pos 0) n h)

  gb_nonneg : (n : ℤ) → pos 0 ≤ℤ n → leb_float zero_float (ops.gb n) ≡ true
  gb_nonneg n h =
      subst (λ z. leb_float z (ops.gb n) ≡ true) lawful.gb_zero (lawful.gb_mono (pos 0) n h)

  round1_nonneg :
      (x : Float) → leb_float zero_float x ≡ true → leb_float zero_float (ops.round1 x) ≡ true
  round1_nonneg x h =
      subst (λ z. leb_float z (ops.round1 x) ≡ true) lawful.round1_zero
        (lawful.round1_mono zero_float x h)

  round2_nonneg :
      (x : Float) → leb_float zero_float x ≡ true → leb_float zero_float (ops.round2 x) ≡ true
  round2_nonneg x h =
      subst (λ z. leb_float z (ops.round2 x) ≡ true) lawful.round2_zero
        (lawful.round2_mono zero_float x h)

  round1_le_hundred :
      (x : Float) → leb_float x hundred ≡ true → leb_float (ops.round1 x) hundred ≡ true
  round1_le_hundred x h =
      subst (λ z. leb_float (ops.round1 x) z ≡ true) lawful.round1_hundred
        (lawful.round1_mono x hundred h)

  users_nonneg : (r : Result ℤ) → ((n : ℤ) → r ≡ ok n → pos 0 ≤ℤ n) → pos 0 ≤ℤ users_or_none r
  users_nonneg (ok n) h = h n refl
  users_nonneg (err e) h = omega arith

  measured_path-ok :
      (path : Text) (exists : Bool) (made : Result (Unit {0}))
      → ((e : Exception) → made ≡ err e → e ≡ os_error)
      → (p : Text) × (measured_path path exists made ≡ ok p)
  measured_path-ok path true made h = (path, refl)
  measured_path-ok path false (ok u) h = (path, refl)
  measured_path-ok path false (err e) h = (text "/", rw (h e refl))

  snapshot-IsSound :
      (host_id : Text) (r : Readings) (free size : ℤ)
      → IsNonBlank host_id
      → IsPlausible r
      → pos 0 ≤ℤ free
      → free ≤ℤ size
      → IsSound ops (snapshot ops host_id r (free, size))
  snapshot-IsSound host_id r free size named v low high = record {
    named = is_empty_of_IsNonBlank host_id named;
    cpu_low = round1_nonneg (clamp_cpu r.cpu) (clamp_cpu_bounds r.cpu).0;
    cpu_high = round1_le_hundred (clamp_cpu r.cpu) (clamp_cpu_bounds r.cpu).1;
    ram_low = round1_nonneg (ops.mb r.available) (mb_nonneg r.available v.ram_low);
    ram_total =
        round1_nonneg (ops.mb r.total)
          (mb_nonneg r.total (nonneg_trans r.available r.total v.ram_low v.ram_high));
    ram_high =
        lawful.above_le _ _
          (lawful.round1_mono _ _ (lawful.mb_mono r.available r.total v.ram_high));
    disk_low = round2_nonneg (ops.gb free) (gb_nonneg free low);
    disk_total = round2_nonneg (ops.gb size) (gb_nonneg size (nonneg_trans free size low high));
    disk_high = lawful.above_le _ _ (lawful.round2_mono _ _ (lawful.gb_mono free size high));
    users = users_nonneg r.users v.users;
  }

  -- With lawful rounding, plausible readings, and a host name and a path that are not blank, the
  -- collection returns a snapshot of that host, and the snapshot is sound: its load is between 0
  -- and 100 whatever psutil read, `nan` included, and what is free is at least zero and no more
  -- than there is, up to the tolerance of the checks.
  pub collect_host_stats-IsSound :
      (host_id disk_path : Text) (r : Readings)
      → IsNonBlank host_id
      → IsNonBlank disk_path
      → IsPlausible r
      → (s : HostStats) × (collect_host_stats ops host_id disk_path r ≡ ok s)
        × IsSound ops s
        × (s.host_id ≡ host_id)
  unfolding collect_host_stats
  collect_host_stats-IsSound host_id disk_path r named solid v =
      let (measured, chosen) = measured_path-ok disk_path r.path_exists r.make_dirs v.made in
      let (free, size, read, low, high) = v.disk measured in
      let sound = snapshot-IsSound host_id r free size named v low high in
      (
        snapshot ops host_id r (free, size),
        rw
            (
              (require_non_empty_str-ok (str host_id) host_id).1 (refl, named),
              (require_non_empty_str-ok (str disk_path) disk_path).1 (refl, solid),
              chosen,
              read,
            )
            (check_stats-ok ops _ sound),
        sound,
        refl,
      )
