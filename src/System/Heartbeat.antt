-- ===== src/System/Heartbeat.antt =====
-- A heartbeat of a worker, and a sweep of the backend after it.
mod Examples
use test_orch.Base.{refl, Bool, List, Option, none, some, if◌then◌else◌, nat_eq}
use test_orch.Base.Int.{ℤ, pos}
use test_orch.Base.Text.{Text, text_eq}
use test_orch.Base.Result.{Result-cases}
use test_orch.Backend.Models.{WorkerHost, host_by_name}
use test_orch.Backend.Maintenance.{offline}
use test_orch.Worker.Machine.{Machine}

-- The count in the row of the host, and zero if there is none.
abbrev pub last_known : Text → List WorkerHost → ℤ
last_known name hosts = elim (host_by_name name hosts) [
  | none ↦ pos 0
  | some row ↦ row.active_containers
]
