-- ===== src/Backend/Models.antt =====
-- backend/models.py: the tables. A row is a record, a table the list of its rows.
pub mod Hosts
use test_orch.Base.{
  ℕ, ◌≡◌, refl, Bool, true, false, List, [], ◌∷◌, map, Option, none, some, ◌==◌, nat_eq, find,
  if◌then◌else◌,
}
use test_orch.Base.Int.{ℤ, pos, ltb_ℤ}
use test_orch.Base.Float.{Float}
use test_orch.Base.Text.{Text, text_eq, comma_list}
use test_orch.Shared.Schemas.{TestStatus}

-- A `datetime`: microseconds since the epoch, read as UTC, and whether a time zone is attached.
pub record Datetime : Type 0 where
  pub micros : ℤ
  pub aware : Bool

pub record User : Type 0 where
  pub id : ℕ
  pub username : Text
  pub display_name : Option Text
  pub email : Option Text

pub record UserSession : Type 0 where
  pub token : Text
  pub user_id : ℕ
  pub expires_at : Datetime

pub record WorkerHost : Type 0 where
  pub id : ℕ
  pub host_id : Text
  pub is_online : Bool
  pub active_containers : ℤ
  pub max_containers : ℤ
  pub cpu_utilization : Float
  pub hardware_tags : Text
  pub supports_emulation : Bool
  pub last_heartbeat : Option Datetime

-- The set is kept as a list; the program only asks for membership.
unfoldable pub tag_set : WorkerHost → List Text
tag_set host = comma_list host.hardware_tags

pub record TestExecution : Type 0 where
  pub test_id : Text
  pub user_id : ℕ
  pub target_host_id : Option Text
  pub runner_type : Text
  pub framework_image : Text
  pub status : TestStatus
  pub quali_reservation_id : Option Text
  pub artifact_url : Option Text
  pub created_at : Datetime
  pub updated_at : Datetime

pub record LogLine : Type 0 where
  pub test_id : Text
  pub line_no : ℕ
  pub content : Text

-- The committed state of the database.
pub record Database : Type 0 where
  pub users : List User
  pub sessions : List UserSession
  pub hosts : List WorkerHost
  pub executions : List TestExecution
  pub log_lines : List LogLine

-- `UPDATE worker_hosts SET active_containers = n WHERE id = key`
abbrev set_active_row : ℕ → ℤ → WorkerHost → WorkerHost
set_active_row key n host = if host.id == key then record host { active_containers = n } else host

unfoldable pub set_active : ℕ → ℤ → List WorkerHost → List WorkerHost
set_active key n hosts = map (set_active_row key n) hosts

-- `db.get(WorkerHost, key)`
unfoldable pub get_host : ℕ → List WorkerHost → Option WorkerHost
get_host key hosts = find (λ host. host.id == key) hosts

-- `filter_by(host_id=…).one_or_none()`, where the column is unique.
unfoldable pub host_by_name : Text → List WorkerHost → Option WorkerHost
host_by_name name hosts = find (λ host. host.host_id == name) hosts

-- `filter_by(test_id=…).one_or_none()`, where the column is unique.
unfoldable pub execution_by_id : Text → List TestExecution → Option TestExecution
execution_by_id key rows = find (λ row. row.test_id == key) rows
