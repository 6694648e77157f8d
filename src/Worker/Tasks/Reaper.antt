-- ===== src/Worker/Tasks/Reaper.antt =====
-- What the reaper does to the table of runs.
use test_orch.Base.{
  ap, ◌*◌, ◌^◌, Bool, true, false, ◌&&◌, some, ◌==◌, ◌≡◌, ◌∷◌, none, map, if◌then◌else◌, arith,
  keep,
}
use test_orch.Base.Int.{ℤ, pos, ltb_ℤ, ◌-ℤ◌, -ℤ_parts}
use test_orch.Base.Text.{Text, text_eq}
use test_orch.Base.Keys.{NodupKeys, update_where-keep}
use test_orch.Base.Result.{ok}
use test_orch.Shared.Schemas.{pending, dispatched, running, passed, failed, cancelled}
use test_orch.Backend.Models.{Datetime, TestExecution}
use test_orch.Backend.Clock.{minus}
use test_orch.Backend.Effects.{World, Environment, CommitsWork, create_tables}
use test_orch.Backend.Maintenance.{release_all, fail}
use test_orch.Backend.Maintenance.Sweep.{release_all-keeps}
use test_orch.Worker.Tasks.{is_stuck, reap_stale}

-- Running on the host, and last written more than two hours before now.
abbrev pub is_overdue : Text → Datetime → TestExecution → Bool
is_overdue name now run =
    elim run.target_host_id [ none ↦ false | some host ↦ host == name ]
    && (elim run.status [
      | pending ↦ false
      | dispatched ↦ false
      | running ↦ true
      | passed ↦ false
      | failed ↦ false
      | cancelled ↦ false
    ])
    && ltb_ℤ (pos (2 * 60 * 60 * 10 ^ 6)) (now.micros -ℤ run.updated_at.micros)

-- The query's comparison of the time of the last write with the deadline is one of its age.
older : (u n c : ℤ) → ltb_ℤ u (n -ℤ c) ≡ ltb_ℤ c (n -ℤ u)
older u n c = ground (arith, -ℤ_parts n c, -ℤ_parts n u)

is_stuck-overdue :
    (name : Text) (now : Datetime) (run : TestExecution)
    → is_stuck name (minus now (pos 7200000000)).micros run ≡ is_overdue name now run
unfolding is_stuck
is_stuck-overdue name now run =
    ground (arith, older run.updated_at.micros now.micros (pos 7200000000))

module _ (env : Environment) where
  -- Once the tables are there, and while commits work, a run of the reaper never raises, whatever
  -- the reservation service answers. It fails exactly the runs that are running on its host and were last written more than two hours
  -- before, and leaves the rest of the database. Identifiers of runs are distinct.
  pub reap_stale-eq :
      (name : Text) (now later : Datetime) (w : World)
      → env w.calls create_tables ≡ none
      → CommitsWork env
      → NodupKeys (λ (r : TestExecution). r.test_id) w.db.executions
      → ((reap_stale env name now later w).0 ≡ ok tt)
        × ((reap_stale env name now later w).1.db ≡ record w.db {
          executions =
              map
                (λ r.
                  if is_overdue name now r
                  then record r { status = failed; updated_at = later }
                  else r)
                w.db.executions;
        })
  unfolding reap_stale
  reap_stale-eq name now later w made works u =
      let start : World = record w { calls = create_tables ∷ w.calls } in
      let stuck = is_stuck name (minus now (pos 7200000000)).micros in
      let runs = keep stuck w.db.executions in
      ground (
        arith,
        made,
        release_all-keeps env runs start,
        works (release_all env runs start).1.calls,
        update_where-keep (λ (r : TestExecution). r.test_id) stuck (fail later) w.db.executions u,
        ap
            (λ (p : TestExecution → Bool).
              map (λ r. if p r then fail later r else r) w.db.executions)
            (λ i r. is_stuck-overdue name now r i),
      )
