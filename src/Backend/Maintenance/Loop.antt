-- ===== src/Backend/Maintenance/Loop.antt =====
-- backend/main.py: `lifespan` and `_maintenance_loop`, which sweeps again and again until the service stops.
use test_orch.Base.{
  nat_eq, ◌≡◌, refl, sym, subst, ap, ◌∙◌, true, false, List, [], ◌∷◌, ◌++◌, none, arith, All, inl,
  inr, keep, Bool-cases,
}
use test_orch.Base.Int.{ℤ, ◌-ℤ◌}
use test_orch.Base.Keys.{NodupKeys}
use test_orch.Base.Text.{Text}
use test_orch.Base.Result.{Result, ok, err}
use test_orch.Backend.Models.{Datetime, WorkerHost}
use test_orch.Backend.Models.Hosts.{NodupIds}
use test_orch.Backend.Effects.{
  World, Environment, Action, CommitsWork, create_tables, pure, try_except, rescue, ◌>>◌,
}
use test_orch.Backend.Database.{init_db}
use test_orch.Backend.Ledger.Moves.{Moves, moves, Moves->>=}
use test_orch.Backend.Maintenance.{
  sweep_stale_hosts, fail_orphaned_runs, run_maintenance_sweep, is_orphan,
}
use test_orch.Backend.Maintenance.Sweep.{
  newly_dead, names_of, swept_hosts, sweep_stale_hosts-eq, release_all-keeps,
}
use test_orch.Backend.Maintenance.Moves.{run_maintenance_sweep-Moves}

-- One turn: its clock, and what fails in it.
pub record Round : Type 0 where
  pub env : Environment
  pub now : Datetime

NodupKeys-id :
    (hosts : List WorkerHost) → NodupIds hosts → NodupKeys (λ (h : WorkerHost). h.id) hosts
NodupKeys-id [] u = tt
NodupKeys-id (h ∷ hosts) u = (u.0, NodupKeys-id hosts u.1)

none-newly_dead :
    (cutoff : ℤ) (hosts : List WorkerHost)
    → All (λ h. newly_dead cutoff h ≡ false) (swept_hosts cutoff hosts)
none-newly_dead cutoff [] = tt
none-newly_dead cutoff (h ∷ hosts) = elim (Bool-cases (newly_dead cutoff h)) [
  | inl dead ↦ rw dead (refl, none-newly_dead cutoff hosts)
  | inr lives ↦ rw lives (lives, none-newly_dead cutoff hosts)
]

module _ (max_age : ℤ) where
  -- A sweep that raises is logged.
  pub turn : Round → Action (Unit {0})
  turn r = try_except (run_maintenance_sweep r.env r.now max_age) (λ e. pure tt)

  -- The turns until the service stops.
  unfoldable pub maintenance_loop : List Round → Action (Unit {0})
  maintenance_loop [] = pure tt
  maintenance_loop (r ∷ rounds) = turn r >> maintenance_loop rounds

  rescue-quiet : (r : Result (Unit {0})) (w : World) → rescue r (λ e. pure tt) w ≡ (ok tt, w)
  rescue-quiet (ok u) w = refl
  rescue-quiet (err e) w = refl

  turn-ok : (r : Round) (w : World) → (turn r w).0 ≡ ok tt
  unfolding turn
  turn-ok r w =
      let (outcome, after) = run_maintenance_sweep r.env r.now max_age w in
      ap (λ p. p.0) (rescue-quiet outcome after)

  loop-ok : (rounds : List Round) (w : World) → (maintenance_loop rounds w).0 ≡ ok tt
  unfolding maintenance_loop
  loop-ok [] w = refl
  loop-ok (r ∷ rounds) w = ground (arith, turn-ok r w, loop-ok rounds (turn r w).1)

  loop-snoc :
      (rounds : List Round) (last : Round) (w : World)
      → (maintenance_loop (rounds ++ (last ∷ [])) w).1 ≡ (turn last (maintenance_loop rounds w).1).1
  unfolding maintenance_loop
  loop-snoc [] last w = ground (arith, turn-ok last w)
  loop-snoc (r ∷ rounds) last w = ground (arith, turn-ok r w, loop-snoc rounds last (turn r w).1)

  turn-Moves : (r : Round) → Moves (turn r)
  unfolding turn
  turn-Moves r = search (moves, run_maintenance_sweep-Moves)

  loop-Moves : (rounds : List Round) → Moves (maintenance_loop rounds)
  unfolding maintenance_loop
  loop-Moves [] = search moves
  loop-Moves (r ∷ rounds) = Moves->>= (turn r) _ (turn-Moves r) (λ _. loop-Moves rounds)

  fail_orphaned_runs-hosts :
      (env : Environment) (now : Datetime) (names : List Text) (w : World)
      → (fail_orphaned_runs env now names w).1.db.hosts ≡ w.db.hosts
  unfolding fail_orphaned_runs
  fail_orphaned_runs-hosts env now [] w = refl
  fail_orphaned_runs-hosts env now (name ∷ names) w =
      ground (arith, (release_all-keeps env (keep (is_orphan (name ∷ names)) w.db.executions) w).1)

  turn-hosts :
      (r : Round) (w : World)
      → r.now.aware ≡ true
      → CommitsWork r.env
      → NodupIds w.db.hosts
      → (turn r w).1.db.hosts ≡ swept_hosts (r.now.micros -ℤ max_age) w.db.hosts
  unfolding turn run_maintenance_sweep
  turn-hosts r w aware works u =
      let (found, marked) =
        sweep_stale_hosts-eq r.env r.now max_age w aware works (NodupKeys-id w.db.hosts u) in
      let (outcome, after) = run_maintenance_sweep r.env r.now max_age w in
      let names = names_of (keep (newly_dead (r.now.micros -ℤ max_age)) w.db.hosts) in
      let swept = (sweep_stale_hosts r.env r.now max_age w).1 in
      ap (λ p. p.1.db.hosts) (rescue-quiet outcome after)
      ∙ ground (arith, found, marked, fail_orphaned_runs-hosts r.env r.now names swept)

  -- The loop outlives every failure: after any turns in which anything raised, one turn in which
  -- commits work, at a clock in UTC, leaves no host online whose heartbeat is missing or older than
  -- the limit, and the loop itself never raises. The keys of the hosts are distinct.
  pub maintenance_loop-Marks :
      (rounds : List Round) (last : Round) (w : World)
      → last.now.aware ≡ true
      → CommitsWork last.env
      → NodupIds w.db.hosts
      → let after = maintenance_loop (rounds ++ (last ∷ [])) w in
        (after.0 ≡ ok tt)
        × All (λ h. newly_dead (last.now.micros -ℤ max_age) h ≡ false) after.1.db.hosts
  maintenance_loop-Marks rounds last w aware works u =
      let before = (maintenance_loop rounds w).1 in
      let unique = ((loop-Moves rounds).moved w u).0 in
      (
        loop-ok (rounds ++ (last ∷ [])) w,
        subst (All (λ h. newly_dead (last.now.micros -ℤ max_age) h ≡ false))
            (sym (turn-hosts last before aware works unique)
              ∙ sym (ap (λ (x : World). x.db.hosts) (loop-snoc rounds last w)))
            (none-newly_dead (last.now.micros -ℤ max_age) before.db.hosts),
      )

  -- The service's life: the tables, and then the loop, which the stop of the service cancels.
  unfoldable pub lifespan : Environment → List Round → Action (Unit {0})
  lifespan env rounds = init_db env >> maintenance_loop rounds

  lifespan-runs :
      (env : Environment) (rounds : List Round) (w : World)
      → env w.calls create_tables ≡ none
      → lifespan env rounds w
        ≡ maintenance_loop rounds (record w { calls = create_tables ∷ w.calls })
  unfolding lifespan init_db
  lifespan-runs env rounds w made = ground (arith, made)

  -- The service, once its tables are there, outlives every failure of a sweep: after any turns in
  -- which anything raised, one turn in which commits work, at a clock in UTC, leaves no host online
  -- whose heartbeat is missing or older than the limit, and nothing is raised. The keys of the hosts
  -- are distinct.
  pub lifespan-Marks :
      (env : Environment) (rounds : List Round) (last : Round) (w : World)
      → env w.calls create_tables ≡ none
      → last.now.aware ≡ true
      → CommitsWork last.env
      → NodupIds w.db.hosts
      → let after = lifespan env (rounds ++ (last ∷ [])) w in
        (after.0 ≡ ok tt)
        × All (λ h. newly_dead (last.now.micros -ℤ max_age) h ≡ false) after.1.db.hosts
  lifespan-Marks env rounds last w made aware works u =
      let after : World = record w { calls = create_tables ∷ w.calls } in
      subst
        (λ (p : Result (Unit {0}) × World).
          (p.0 ≡ ok tt) × All (λ h. newly_dead (last.now.micros -ℤ max_age) h ≡ false) p.1.db.hosts)
        (sym (lifespan-runs env (rounds ++ (last ∷ [])) w made))
        (maintenance_loop-Marks rounds last after aware works u)
