-- ===== src/Backend/Maintenance/Sweep.antt =====
-- What one sweep does to the database.
use test_orch.Base.{
  ◌≡◌, refl, ap, ◌∙◌, Bool, true, ◌&&◌, List, [], ◌∷◌, map, Option, none, some, nat_eq, keep,
  keep-keep, map_if_of_keep, if◌then◌else◌, arith,
}
use test_orch.Base.Int.{ℤ, ltb_ℤ, ◌-ℤ◌}
use test_orch.Base.Text.{Text, text_eq}
use test_orch.Base.Keys.{NodupKeys, update_where-keep}
use test_orch.Base.Result.{ok}
use test_orch.Backend.Models.{Datetime, WorkerHost, TestExecution, Database}
use test_orch.Backend.Effects.{World, Environment, CommitsWork}
use test_orch.Backend.Clock.{minus}
use test_orch.Backend.Maintenance.{
  is_stale, stale_hosts, online_hosts, offline, is_orphan, fail, release, release_if_any,
  release_all, sweep_stale_hosts, run_maintenance_sweep,
}

-- The host's last sign of life is older than the time, or there was none.
abbrev pub is_dead : ℤ → WorkerHost → Bool
is_dead cutoff host = elim host.last_heartbeat [ none ↦ true | some hb ↦ ltb_ℤ hb.micros cutoff ]

abbrev pub newly_dead : ℤ → WorkerHost → Bool
newly_dead cutoff host = host.is_online && is_dead cutoff host

abbrev pub names_of : List WorkerHost → List Text
names_of hosts = map (λ h. h.host_id) hosts

is_stale-eq :
    (cutoff : Datetime) (host : WorkerHost)
    → cutoff.aware ≡ true
    → is_stale cutoff host ≡ ok (is_dead cutoff.micros host)
unfolding is_stale
is_stale-eq cutoff host h = ground arith

stale_hosts-eq :
    (cutoff : Datetime) (hosts : List WorkerHost)
    → cutoff.aware ≡ true
    → stale_hosts cutoff hosts ≡ ok (keep (is_dead cutoff.micros) hosts)
unfolding stale_hosts
stale_hosts-eq cutoff [] h = refl
stale_hosts-eq cutoff (host ∷ hosts) h =
    rw (is_stale-eq cutoff host h, stale_hosts-eq cutoff hosts h) refl

abbrev pub swept_hosts : ℤ → List WorkerHost → List WorkerHost
swept_hosts cutoff hosts = map (λ h. if newly_dead cutoff h then offline h else h) hosts

abbrev swept_runs : Datetime → List Text → List TestExecution → List TestExecution
swept_runs now names runs = map (λ r. if is_orphan names r then fail now r else r) runs

module _ (env : Environment) where
  pub release_if_any-keeps :
      (reservation : Option Text) (w : World)
      → ((release_if_any env reservation w).0 ≡ ok tt)
        × ((release_if_any env reservation w).1.db ≡ w.db)
  unfolding release_if_any release
  release_if_any-keeps none w = (refl, refl)
  release_if_any-keeps (some r) w = ground arith

  -- Releasing raises nothing and writes nothing, whatever the service answers.
  pub release_all-keeps :
      (runs : List TestExecution) (w : World)
      → ((release_all env runs w).0 ≡ ok tt) × ((release_all env runs w).1.db ≡ w.db)
  unfolding release_all
  release_all-keeps [] w = (refl, refl)
  release_all-keeps (run ∷ runs) w = ground (
    arith,
    release_if_any-keeps run.quali_reservation_id w,
    release_all-keeps runs (release_if_any env run.quali_reservation_id w).1,
  )

  pub sweep_stale_hosts-eq :
      (now : Datetime) (max_age : ℤ) (w : World)
      → now.aware ≡ true
      → CommitsWork env
      → NodupKeys (λ (h : WorkerHost). h.id) w.db.hosts
      → let cutoff = now.micros -ℤ max_age in
        ((sweep_stale_hosts env now max_age w).0
          ≡ ok (names_of (keep (newly_dead cutoff) w.db.hosts)))
        × ((sweep_stale_hosts env now max_age w).1.db
            ≡ record w.db { hosts = swept_hosts cutoff w.db.hosts })
  unfolding sweep_stale_hosts
  sweep_stale_hosts-eq now max_age w aware works u =
      let cutoff = minus now max_age in
      let dead = newly_dead cutoff.micros in
      let found =
        stale_hosts-eq cutoff (online_hosts w.db) aware
        ∙ ap ok (keep-keep (is_dead cutoff.micros) (λ h. h.is_online) w.db.hosts) in
      let written = update_where-keep (λ (h : WorkerHost). h.id) dead offline w.db.hosts u in
      let unwritten = map_if_of_keep dead offline w.db.hosts in
      ground (arith, works w.calls, found, written, unwritten)

  -- The database after a full sweep.
  abbrev pub swept : Datetime → ℤ → Database → Database
  swept now max_age db =
      let cutoff = now.micros -ℤ max_age in
      record db {
        hosts = swept_hosts cutoff db.hosts;
        executions = swept_runs now (names_of (keep (newly_dead cutoff) db.hosts)) db.executions;
      }

  -- If no online host is dead the sweep does nothing at all: dispatched and running executions on
  -- hosts that are offline already are left as they are.
  pub run_maintenance_sweep_idle :
      (now : Datetime) (max_age : ℤ) (w : World)
      → now.aware ≡ true
      → keep (newly_dead (now.micros -ℤ max_age)) w.db.hosts ≡ []
      → run_maintenance_sweep env now max_age w ≡ (ok tt, w)
  unfolding run_maintenance_sweep sweep_stale_hosts
  run_maintenance_sweep_idle now max_age w aware none_dead =
      let cutoff = minus now max_age in
      let found =
        stale_hosts-eq cutoff (online_hosts w.db) aware
        ∙ ap ok (keep-keep (is_dead cutoff.micros) (λ h. h.is_online) w.db.hosts) in
      ground (arith, found)
