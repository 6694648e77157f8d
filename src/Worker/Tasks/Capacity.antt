-- ===== src/Worker/Tasks/Capacity.antt =====
-- The slot that a dispatch takes and the worker gives back, and the heartbeat.
use test_orch.Base.{
  ℕ, ◌≢◌, ◌≡◌, refl, sym, ap, ◌∙◌, true, false, List, [], ◌∷◌, Option, none, some, ◌==◌, nat_eq,
  arith, All-at, Mem, inl, inr, find-snoc, ==_refl, ==_ne,
}
use test_orch.Base.Int.{ℤ, pos, ◌≤ℤ◌, ◌+ℤ◌, ◌-ℤ◌, ltb_ℤ, +ℤ-cancel}
use test_orch.Base.Float.{Float}
use test_orch.Base.Text.{Text, text_eq}
use test_orch.Base.Keys.{NodupKeys, find-update_where}
use test_orch.Base.Result.{Result, ok}
use test_orch.Shared.Schemas.{TestBundleRequest}
use test_orch.Backend.Models.{Datetime, WorkerHost, Database, host_by_name, set_active}
use test_orch.Backend.Models.Hosts.{NodupIds, set_active-set_active}
use test_orch.Backend.Effects.{World, Environment, CommitsWork}
use test_orch.Backend.Maintenance.Sweep.{newly_dead}
use test_orch.Backend.Scheduler.{FloatOps, dispatch}
use test_orch.Backend.Scheduler.Dispatch.{sent, dispatch-IsBest}
use test_orch.Backend.Scheduler.Reservation.{workload_score-nonneg, suc_positive}
use test_orch.Worker.Tasks.{
  decrement_active_containers, save_heartbeat, live_count_of, beat, new_host,
}

host_by_name-set_active :
    (host : WorkerHost) (n : ℤ) (hosts : List WorkerHost)
    → Mem host hosts
    → NodupKeys (λ (h : WorkerHost). h.host_id) hosts
    → NodupIds hosts
    → host_by_name host.host_id (set_active host.id n hosts)
      ≡ some (record host { active_containers = n })
unfolding host_by_name set_active
host_by_name-set_active host n [] m u v = absurd m
host_by_name-set_active host n (h ∷ hosts) (inl e) u v = ground (arith, ==_refl host.host_id)
host_by_name-set_active host n (h ∷ hosts) (inr m) u v = ground (
  arith,
  ==_ne h.host_id host.host_id (λ e. All-at (λ x. x.host_id ≢ h.host_id) host hosts u.0 m (sym e)),
  All-at (λ x. x.id ≢ h.id) host hosts v.0 m,
  host_by_name-set_active host n hosts m u.1 v.1,
)

-- The row of the host, after a heartbeat at the time `now`.
pub record IsAlive (name : Text) (now : Datetime) (live_count : ℤ) (cpu : Float)
    (before after : Database) : Type 0 where
  pub saved : WorkerHost
  pub found : host_by_name name after.hosts ≡ some saved
  pub online : saved.is_online ≡ true
  pub counted : saved.active_containers ≡ live_count
  pub loaded : saved.cpu_utilization ≡ cpu
  pub alive : (cutoff : ℤ) → cutoff ≤ℤ now.micros → newly_dead cutoff saved ≡ false
  pub kept :
      (old : WorkerHost)
      → host_by_name name before.hosts ≡ some old
      → (saved.hardware_tags ≡ old.hardware_tags) × (saved.max_containers ≡ old.max_containers)

module _ (env : Environment) where
  decrement-reserved :
      (host : WorkerHost) (n : ℤ) (w : World)
      → CommitsWork env
      → host_by_name host.host_id w.db.hosts ≡ some (record host { active_containers = n })
      → ltb_ℤ (pos 0) n ≡ true
      → ((decrement_active_containers env host.host_id w).0 ≡ ok tt)
        × ((decrement_active_containers env host.host_id w).1.db
            ≡ record w.db { hosts = set_active host.id (n -ℤ pos 1) w.db.hosts })
  unfolding decrement_active_containers
  decrement-reserved host n w works found positive = ground (arith, works w.calls)

  -- While commits work, the worker's decrement after a dispatch that chose its host leaves the
  -- database as it was before the dispatch. Keys and names of the hosts are distinct.
  pub decrement-dispatch :
      (ops : FloatOps) (bundle : TestBundleRequest) (w : World) (name : Text)
      → CommitsWork env
      → NodupIds w.db.hosts
      → NodupKeys (λ (h : WorkerHost). h.host_id) w.db.hosts
      → (dispatch ops env bundle w).0 ≡ ok (some name)
      → ((decrement_active_containers env name (dispatch ops env bundle w).1).0 ≡ ok tt)
        × ((decrement_active_containers env name (dispatch ops env bundle w).1).1.db ≡ w.db)
  decrement-dispatch ops bundle w name works u v h =
      let (c, best, named, after) = (dispatch-IsBest ops env bundle w).0 name h in
      let host = c.0 in
      let n = host.active_containers +ℤ pos 1 in
      let positive =
        suc_positive host.active_containers (workload_score-nonneg ops env host c.1 best.scored) in
      let found = host_by_name-set_active host n w.db.hosts best.listed v u in
      let (ran, wrote) = decrement-reserved host n (sent env bundle host w) works found positive in
      let back : set_active host.id (n -ℤ pos 1) (set_active host.id n w.db.hosts) ≡ w.db.hosts =
        ap (λ k. set_active host.id k (set_active host.id n w.db.hosts))
          (+ℤ-cancel host.active_containers (pos 1))
        ∙ set_active-set_active host n w.db.hosts best.listed u in
      rw (after, ← named)
        (ran, wrote ∙ ap (λ (hs : List WorkerHost). record w.db { hosts = hs }) back)

  -- While commits work, a heartbeat leaves the host's row online, with the count of containers
  -- that it reports, and with the tags and the limit that the row had, if there was one. A sweep
  -- does not take the host for dead while its cutoff is not after the heartbeat. Keys are distinct.
  pub save_heartbeat-IsAlive :
      (fresh_id : ℕ) (name : Text) (now : Datetime) (cpu : Float) (docker : Result ℤ) (w : World)
      → CommitsWork env
      → NodupKeys (λ (h : WorkerHost). h.id) w.db.hosts
      → IsAlive name now
          (live_count_of name w.db.hosts docker)
          cpu
          w.db
          (save_heartbeat env fresh_id name now cpu docker w).1.db
  unfolding save_heartbeat host_by_name
  save_heartbeat-IsAlive fresh_id name now cpu docker w works u =
      go (host_by_name name w.db.hosts) refl
    where
      update : WorkerHost → WorkerHost
      update = beat now (live_count_of name w.db.hosts docker) cpu

      go :
          (found : Option WorkerHost)
          → host_by_name name w.db.hosts ≡ found
          → IsAlive name now
              (live_count_of name w.db.hosts docker)
              cpu
              w.db
              (save_heartbeat env fresh_id name now cpu docker w).1.db
      go none e = record {
        saved = update (new_host fresh_id name);
        found =
            (let added =
                find-snoc (λ (h : WorkerHost). h.host_id == name) w.db.hosts
                  (update (new_host fresh_id name)) e (==_refl name) in
              ground (arith, e, works w.calls, added));
        online = refl;
        counted = refl;
        loaded = refl;
        alive = λ cutoff soon. ground arith;
        kept = λ old was. cc;
      }
      go (some host) e = record {
        saved = update host;
        found =
            (let written =
                find-update_where (λ (h : WorkerHost). h.id) (λ h. h.host_id == name) update host
                  w.db.hosts u (λ y. refl) e in
              ground (arith, e, works w.calls, written));
        online = refl;
        counted = refl;
        loaded = refl;
        alive = λ cutoff soon. ground arith;
        kept = λ old was. ground (arith, e);
      }
