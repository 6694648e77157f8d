-- ===== src/Shared/HostStats.antt =====
-- shared/host_stats.py: a host's resources, measured and checked.
pub mod Bounds
mod Examples
use test_orch.Base.{ℕ, ◌*◌, ◌^◌, ◌≡◌, Bool, true, false, not, Option, none, some, if◌then◌else◌}
use test_orch.Base.Int.{ℤ, pos, ◌≤ℤ◌, leb_ℤ}
use test_orch.Base.Float.{Float, fin, leb_float, ltb_float, zero_float}
use test_orch.Base.Text.{Text, text, is_empty}
use test_orch.Base.Result.{
  Result, ok, err, Exception, os_error, file_not_found, assertion_error, guard, ◌>>=◌, ◌>>◌,
}
use test_orch.Shared.Value.{Fields, end, field, str, float, int, bool}
use test_orch.Shared.Validation.{require_non_empty_str}

pub record HostStats : Type 0 where
  pub host_id : Text
  pub cpu_percent : Float
  pub ram_available_mb : Float
  pub ram_total_mb : Float
  pub disk_available_gb : Float
  pub disk_total_gb : Float
  pub active_users : ℤ
  pub online : Bool

-- `asdict(self)`
unfoldable pub to_dict : HostStats → Fields
to_dict s = field (text "host_id") (str s.host_id) (
    field (text "cpu_percent") (float s.cpu_percent) (
      field (text "ram_available_mb") (float s.ram_available_mb) (
        field (text "ram_total_mb") (float s.ram_total_mb) (
          field (text "disk_available_gb") (float s.disk_available_gb) (
            field (text "disk_total_gb") (float s.disk_total_gb) (
              field (text "active_users") (int s.active_users)
                (field (text "online") (bool s.online) end)))))))

-- `100.0`
unfoldable pub hundred : Float
hundred = fin (pos (100 * 2 ^ 1074))

-- The arithmetic that rounds: bytes over 1024², bytes over 1024³, `round(x, 1)`, `round(x, 2)` and
-- `x + 1e-6`.
pub record StatsOps : Type 0 where
  pub mb : ℤ → Float
  pub gb : ℤ → Float
  pub round1 : Float → Float
  pub round2 : Float → Float
  pub above : Float → Float

-- What psutil and the file system answer. `users` counts the distinct names.
pub record Readings : Type 0 where
  pub cpu : Float
  pub available : ℤ
  pub total : ℤ
  pub users : Result ℤ
  pub path_exists : Bool
  pub make_dirs : Result (Unit {0})
  pub disk_usage : Text → Result (ℤ × ℤ)

-- `min(a, b)` and `max(a, b)`: the first one unless the second is less, or greater.
abbrev pub min_float : Float → Float → Float
min_float a b = if ltb_float b a then b else a

abbrev pub max_float : Float → Float → Float
max_float a b = if ltb_float a b then b else a

unfoldable pub clamp_cpu : Float → Float
clamp_cpu x = max_float zero_float (min_float hundred x)

-- `except OSError: disk_path = "/"`, which a missing file is one of.
abbrev measured_path : Text → Bool → Result (Unit {0}) → Result Text
measured_path path true made = ok path
measured_path path false (ok u) = ok path
measured_path path false (err os_error) = ok (text "/")
measured_path path false (err file_not_found) = ok (text "/")
measured_path path false (err e) = err e

-- `except Exception: active_users = 0`
abbrev users_or_none : Result ℤ → ℤ
users_or_none (ok n) = n
users_or_none (err e) = pos 0

module _ (ops : StatsOps) where
  abbrev asserts : Bool → Result (Unit {0})
  asserts b = guard b assertion_error

  -- `__post_init__`
  unfoldable pub check_stats : HostStats → Result HostStats
  check_stats s = do
    asserts (not (is_empty s.host_id))
    asserts (leb_float zero_float s.cpu_percent)
    asserts (leb_float s.cpu_percent hundred)
    asserts (leb_float zero_float s.ram_available_mb)
    asserts (leb_float zero_float s.ram_total_mb)
    asserts (leb_float s.ram_available_mb (ops.above s.ram_total_mb))
    asserts (leb_float zero_float s.disk_available_gb)
    asserts (leb_float zero_float s.disk_total_gb)
    asserts (leb_float s.disk_available_gb (ops.above s.disk_total_gb))
    asserts (leb_ℤ (pos 0) s.active_users)
    ok s

  abbrev pub snapshot : Text → Readings → ℤ × ℤ → HostStats
  snapshot host_id r (free, size) = record {
    host_id = host_id;
    cpu_percent = ops.round1 (clamp_cpu r.cpu);
    ram_available_mb = ops.round1 (ops.mb r.available);
    ram_total_mb = ops.round1 (ops.mb r.total);
    disk_available_gb = ops.round2 (ops.gb free);
    disk_total_gb = ops.round2 (ops.gb size);
    active_users = users_or_none r.users;
    online = true;
  }

  unfoldable pub collect_host_stats : Text → Text → Readings → Result HostStats
  unfolding check_stats
  collect_host_stats host_id disk_path r = do
    id ← require_non_empty_str (str host_id)
    path ← require_non_empty_str (str disk_path)
    measured ← measured_path disk_path r.path_exists r.make_dirs
    usage ← r.disk_usage measured
    check_stats (snapshot host_id r usage)
