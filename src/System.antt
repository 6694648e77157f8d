-- ===== src/System.antt =====
-- The program as a whole: the backend's requests and sweeps, and the workers' tasks, in any order.
pub mod Weave
pub mod Lifecycle
pub mod LiveLog
pub mod Heartbeat
mod Examples
use test_orch.Base.{ℕ, ◌≡◌, refl, Bool, List, Option, All}
use test_orch.Base.Int.{ℤ}
use test_orch.Base.Text.{Text}
use test_orch.Shared.Value.{Value}
use test_orch.Backend.Models.{Datetime, User, WorkerHost}
use test_orch.Backend.Models.Hosts.{NodupIds}
use test_orch.Backend.Effects.{World, Environment}
use test_orch.Backend.Ledger.{Trace, begin, Trace-trans, ledger, IsWithin, Trace-IsWithin}
use test_orch.Backend.Ledger.Moves.{Moves, Follows, Follows-start}
use test_orch.Backend.Scheduler.{FloatOps}
use test_orch.Backend.Routes.{submit_test}
use test_orch.Backend.Routes.Moves.{submit_test-Moves}
use test_orch.Backend.Maintenance.{run_maintenance_sweep}
use test_orch.Backend.Maintenance.Moves.{run_maintenance_sweep-Moves}
use test_orch.Worker.Machine.{Machine}
use test_orch.Worker.Tasks.{reap_stale}
use test_orch.Worker.Tasks.Moves.{reap_stale-Moves}
use test_orch.Worker.Bundle.{run_test_bundle}
use test_orch.Worker.Bundle.Moves.{run_test_bundle-Moves}

module _ (ops : FloatOps) where
  -- One whole operation, with an environment of its own in which anything may raise. A heartbeat,
  -- which sets a count to what Docker says, and an edit of a limit are no steps.
  pub data Step : World → World → Type 0 where
    submit :
        (w : World) (env : Environment) (test_id : Text) (created now : Datetime)
        (runner_type framework_image target_dut tags : Text) (emulation : Bool) (user : Option User)
        → Step w
            (submit_test env ops test_id created now runner_type framework_image target_dut tags
              emulation user w).1
    run :
        (w : World) (show : Value → Text) (m : Machine) (bundle : Value)
        → Step w (run_test_bundle show m bundle w).1
    sweep :
        (w : World) (env : Environment) (now : Datetime) (max_age : ℤ)
        → Step w (run_maintenance_sweep env now max_age w).1
    reap :
        (w : World) (env : Environment) (name : Text) (now later : Datetime)
        → Step w (reap_stale env name now later w).1

  pub data Reach (start : World) : World → Type 0 where
    origin : Reach start start
    next : {v w : World} → Reach start v → Step v w → Reach start w

  pub Step-Follows : {v w : World} → Step v w → NodupIds v.db.hosts → Follows v.db.hosts w.db.hosts
  Step-Follows (submit w env test_id created now runner_type image dut tags emulation user) u =
      (submit_test-Moves env ops test_id created now runner_type image dut tags emulation
          user).moved
        w u
  Step-Follows (run w show m bundle) u = (run_test_bundle-Moves show m bundle).moved w u
  Step-Follows (sweep w env now max_age) u = (run_maintenance_sweep-Moves env now max_age).moved w u
  Step-Follows (reap w env name now later) u = (reap_stale-Moves env name now later).moved w u

  Reach-Follows :
      {start w : World}
      → Reach start w
      → NodupIds start.db.hosts
      → Follows start.db.hosts w.db.hosts
  Reach-Follows {start} origin u = Follows-start start.db.hosts u
  Reach-Follows (next r step) u =
      let (v, t) = Reach-Follows r u in let (v', t') = Step-Follows step v in (v', Trace-trans t t')

  -- The program refines the ledger: after any operations in any order, with any failures, the slots
  -- of the hosts come from those at the start by steps that each take a free slot of one host or
  -- give a taken one back. The keys of the hosts are distinct at the start.
  pub Reach-Trace :
      (start w : World)
      → Reach start w
      → NodupIds start.db.hosts
      → Trace (ledger start.db.hosts) (ledger w.db.hosts)
  Reach-Trace start w r u = (Reach-Follows r u).1

  -- Hence no host ever runs more than its limit, nor fewer than none, after any operations in any
  -- order, with any failures, if that is so at the start and the keys of the hosts are distinct.
  pub Reach-IsWithin :
      (start w : World)
      → Reach start w
      → NodupIds start.db.hosts
      → All IsWithin (ledger start.db.hosts)
      → All IsWithin (ledger w.db.hosts)
  Reach-IsWithin start w r u v = Trace-IsWithin (Reach-Trace start w r u) v
