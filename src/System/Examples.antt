-- ===== src/System/Examples.antt =====
-- A submit, the run of its bundle, and a sweep.
use test_orch.Base.{refl, false, [], ◌∷◌, none, some, arith, All}
use test_orch.Base.Int.{pos}
use test_orch.Base.Text.{text, text_eq}
use test_orch.Shared.Value.{dict}
use test_orch.Shared.Schemas.{to_dict}
use test_orch.Backend.Models.{User}
use test_orch.Backend.Models.Hosts.{NodupIds}
use test_orch.Backend.Effects.{World}
use test_orch.Backend.Ledger.{Trace, ledger, IsWithin}
use test_orch.Backend.Maintenance.{run_maintenance_sweep}
use test_orch.Backend.Routes.{submit_test}
use test_orch.Backend.Samples.{exact, at, bundle, inventory, world, calm, no_broker}
use test_orch.Worker.Machine.{Machine}
use test_orch.Worker.Samples.{worker, show}
use test_orch.Worker.Bundle.{run_test_bundle}
use test_orch.Backend.Models.{WorkerHost, host_by_name}
use test_orch.Backend.Samples.{host}
use test_orch.Worker.Tasks.{write_back}
use test_orch.System.Weave as Weave
use test_orch.System.Weave.{Stage, Woven-IsWithin}
use test_orch.System.{Reach, origin, next, submit, run, sweep, Reach-Trace}

abbrev machine : Machine
machine = worker calm

abbrev ann : User
ann = record { id = 7; username = text "ann"; display_name = none; email = none }

abbrev submitted : World
submitted =
    (submit_test calm exact (text "t1") (at (pos 1)) (at (pos 2)) (text "pytest") (text "img")
      (text "") (text "usb") false (some ann) world).1

abbrev ran : World
ran = (run_test_bundle show machine (dict (to_dict bundle)) submitted).1

abbrev swept : World
swept = (run_maintenance_sweep no_broker (at (pos 90)) (pos 10) ran).1

swept-Reach : Reach exact world swept
swept-Reach =
    next
      (next
        (next origin (
          submit world calm (text "t1") (at (pos 1)) (at (pos 2)) (text "pytest") (text "img")
            (text "") (text "usb") false (some ann)))
        (run submitted show machine (dict (to_dict bundle))))
      (sweep ran no_broker (at (pos 90)) (pos 10))

inventory-NodupIds : NodupIds inventory
inventory-NodupIds = omega arith

Reach-Trace_example : Trace (ledger inventory) (ledger swept.db.hosts)
Reach-Trace_example = Reach-Trace exact world swept swept-Reach inventory-NodupIds

-- The worker of `a` reads its row, a run is submitted, and only then the worker writes.
abbrev row : WorkerHost
row = host 2 (text "a") (pos 1) 10

abbrev woven : Stage
woven = record { world = (write_back calm row submitted).1; reads = [] }

woven-Woven : Weave.Woven exact world woven
unfolding host_by_name text_eq
woven-Woven =
    Weave.next
      (Weave.next
        (Weave.next Weave.origin
          (Weave.read (record { world = world; reads = [] }) (text "a") row refl))
        (Weave.whole (record { world = world; reads = row ∷ [] })
          (submit world calm (text "t1") (at (pos 1)) (at (pos 2)) (text "pytest") (text "img")
            (text "") (text "usb") false (some ann))))
      (Weave.write (record { world = submitted; reads = row ∷ [] }) calm row Weave.first)

Woven-IsWithin_example : All IsWithin (ledger woven.world.db.hosts)
Woven-IsWithin_example =
    Woven-IsWithin exact world woven woven-Woven inventory-NodupIds (omega arith)
