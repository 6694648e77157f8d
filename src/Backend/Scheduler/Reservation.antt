-- ===== src/Backend/Scheduler/Reservation.antt =====
-- The slot that `dispatch` reserves: what becomes of it when something raises.
use test_orch.Base.{ℕ, ◌≡◌, refl, true, false, List, [], ◌∷◌, Option, none, some, arith, Mem}
use test_orch.Base.Int.{ℤ, pos, ◌+ℤ◌, ◌-ℤ◌, ltb_ℤ, leb_ℤ, +ℤ-cancel}
use test_orch.Base.Text.{Text, text, is_empty}
use test_orch.Base.Result.{Result, ok, err, Exception, >>=-eq-ok}
use test_orch.Shared.Schemas.{TestBundleRequest, to_dict}
use test_orch.Backend.Models.{WorkerHost, Database, get_host}
use test_orch.Backend.Models.Hosts.{NodupIds, get_host-set_active, set_active-set_active}
use test_orch.Backend.Effects.{
  CommitsWork, World, Environment, Event, commit, send_task, lift, >>=-Post,
}
use test_orch.Shared.Value.{str}
use test_orch.Shared.Validation.{require_non_empty_str}
use test_orch.Shared.Validation.Laws.{is_empty_of_IsNonBlank, require_non_empty_str-ok}
use test_orch.Backend.Scheduler.Filter.{survivors_of_iff}
use test_orch.Backend.Scheduler.Ranking.{min_by_key-IsLightest}
use test_orch.Base.Float.{Float}
use test_orch.Backend.Scheduler.{
  FloatOps, survivors_of, write_active, queue_name_for, min_by_key, undo, reserve_and_send,
  place_on, place, dispatch, workload_score,
}

-- If it raised, then the database is the given one.
abbrev Restores : Database → Result (Option Text) × World → Type 0
Restores db (r, w) = (e : Exception) → r ≡ err e → w.db ≡ db

pub suc_positive : (n : ℤ) → leb_ℤ (pos 0) n ≡ true → ltb_ℤ (pos 0) (n +ℤ pos 1) ≡ true
unfolding ◌+ℤ◌
suc_positive n h = ground arith

module _ (env : Environment) where
  undo_lem :
      (key : ℕ) (fresh : WorkerHost) (w : World)
      → CommitsWork env
      → get_host key w.db.hosts ≡ some fresh
      → ltb_ℤ (pos 0) fresh.active_containers ≡ true
      → undo env key w ≡ (
        ok tt,
        record {
          db = write_active key (fresh.active_containers -ℤ pos 1) w.db;
          calls = commit ∷ w.calls;
        },
      )
  unfolding undo
  undo_lem key fresh w works found positive = ground (arith, works w.calls)

  abbrev task : Text → TestBundleRequest → Event
  task queue bundle = send_task (text "worker.run_test_bundle") queue (to_dict bundle)

  -- After the reservation's commit and the call that sends the task.
  abbrev reserved : WorkerHost → Text → TestBundleRequest → World → World
  reserved host queue bundle w = record {
    db = write_active host.id (host.active_containers +ℤ pos 1) w.db;
    calls = task queue bundle ∷ commit ∷ w.calls;
  }

  undo-reserved :
      (host : WorkerHost) (queue : Text) (bundle : TestBundleRequest) (w : World)
      → CommitsWork env
      → Mem host w.db.hosts
      → NodupIds w.db.hosts
      → leb_ℤ (pos 0) host.active_containers ≡ true
      → undo env host.id (reserved host queue bundle w)
        ≡ (ok tt, record { db = w.db; calls = commit ∷ task queue bundle ∷ commit ∷ w.calls })
  undo-reserved host queue bundle w works m u nonneg =
      let n = host.active_containers +ℤ pos 1 in
      ground (
        arith,
        undo_lem host.id (record host { active_containers = n }) (reserved host queue bundle w)
            works (get_host-set_active host n w.db.hosts m u)
            (suc_positive host.active_containers nonneg),
        +ℤ-cancel host.active_containers (pos 1),
        set_active-set_active host n w.db.hosts m u,
      )

  reserve_and_send-restores :
      (host : WorkerHost) (queue : Text) (bundle : TestBundleRequest) (w : World) (e : Exception)
      → CommitsWork env
      → Mem host w.db.hosts
      → NodupIds w.db.hosts
      → leb_ℤ (pos 0) host.active_containers ≡ true
      → (reserve_and_send env host queue bundle w).0 ≡ err e
      → (reserve_and_send env host queue bundle w).1.db ≡ w.db
  unfolding reserve_and_send
  reserve_and_send-restores host queue bundle w e works m u nonneg h =
      ground (arith, works w.calls, undo-reserved host queue bundle w works m u nonneg)

  -- When the commit of the reservation fails and the commit of the undoing works, the row of the
  -- chosen host, which never got the slot, loses one of the slots that it had, and the error is
  -- raised. The row is found by its key and its count is above zero.
  pub reserve_and_send-loses :
      (host : WorkerHost) (queue : Text) (bundle : TestBundleRequest) (w : World) (e : Exception)
      → env w.calls commit ≡ some e
      → env (commit ∷ w.calls) commit ≡ none
      → get_host host.id w.db.hosts ≡ some host
      → ltb_ℤ (pos 0) host.active_containers ≡ true
      → (reserve_and_send env host queue bundle w) ≡ (
        err e,
        record {
          db = write_active host.id (host.active_containers -ℤ pos 1) w.db;
          calls = commit ∷ commit ∷ w.calls;
        },
      )
  unfolding reserve_and_send undo
  reserve_and_send-loses host queue bundle w e fails works found positive = ground arith

  pub queue_name_for-some_left :
      (name queue : Text) → queue_name_for name ≡ ok queue → is_empty name ≡ false
  unfolding queue_name_for
  queue_name_for-some_left name queue h =
      let (s, e, _) = >>=-eq-ok (require_non_empty_str (str name)) _ h in
      let (same, solid) = (require_non_empty_str-ok (str name) s).0 e in
      ground (arith, is_empty_of_IsNonBlank s solid)

  place_on-Restores :
      (bundle : TestBundleRequest) (host : WorkerHost) (w : World)
      → CommitsWork env
      → Mem host w.db.hosts
      → NodupIds w.db.hosts
      → leb_ℤ (pos 0) host.active_containers ≡ true
      → Restores w.db (place_on env bundle host w)
  unfolding place_on
  place_on-Restores bundle host w works m u nonneg =
      >>=-Post (Restores w.db) (lift (queue_name_for host.host_id)) _ w (λ _ _ _ _. refl)
        λ queue named.
          >>=-Post (Restores w.db) (reserve_and_send env host queue bundle) _ w
            (λ e failed _ _.
              reserve_and_send-restores host queue bundle w e works m u nonneg failed)
            (λ _ _. ground (arith, queue_name_for-some_left host.host_id queue named))

module _ (ops : FloatOps) (env : Environment) where
  pub workload_score-nonneg :
      (host : WorkerHost) (score : Float)
      → workload_score ops host ≡ ok score
      → leb_ℤ (pos 0) host.active_containers ≡ true
  unfolding workload_score
  workload_score-nonneg host score h = ground arith

  place-Restores :
      (bundle : TestBundleRequest) (hosts : List WorkerHost) (w : World)
      → CommitsWork env
      → ((host : WorkerHost) → Mem host hosts → Mem host w.db.hosts)
      → NodupIds w.db.hosts
      → Restores w.db (place ops env bundle hosts w)
  unfolding place
  place-Restores bundle [] w works sub u = λ e h. refl
  place-Restores bundle (host ∷ hosts) w works sub u =
      >>=-Post (Restores w.db) (lift (min_by_key ops host hosts)) _ w (λ _ _ _ _. refl)
        λ c best.
          let l = min_by_key-IsLightest ops host hosts c best in
          place_on-Restores env bundle c.0 w works (sub c.0 l.listed) u
            (workload_score-nonneg c.0 c.1 l.scored)

  -- While commits work and the keys of the rows are distinct, a dispatch that raises leaves the
  -- database as it was: the slot that it reserved is given back.
  pub dispatch-restores :
      (bundle : TestBundleRequest) (w : World) (e : Exception)
      → CommitsWork env
      → NodupIds w.db.hosts
      → (dispatch ops env bundle w).0 ≡ err e
      → (dispatch ops env bundle w).1.db ≡ w.db
  unfolding dispatch
  dispatch-restores bundle w e works u h =
      place-Restores bundle (survivors_of bundle w.db.hosts) w works
        (λ host m. ((survivors_of_iff bundle host w.db.hosts).0 m).0) u e h
