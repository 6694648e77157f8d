-- ===== src/Backend/Scheduler/Capacity.antt =====
-- A dispatch moves no slot but by the ledger.
use test_orch.Base.{
  ℕ, ◌≡◌, refl, sym, subst, ap, ◌∙◌, true, not, List, [], ◌∷◌, Option, none, some, arith, Mem, inl,
  inr, Bool-cases, Option-cases, ◌⊎◌,
}
use test_orch.Base.Int.{pos, ◌<ℤ◌, ◌+ℤ◌, ◌-ℤ◌, ltb_ℤ}
use test_orch.Base.Text.{Text, text, is_empty}
use test_orch.Base.Result.{Result, guard, assertion_error}
use test_orch.Shared.Schemas.{TestBundleRequest, to_dict}
use test_orch.Backend.Models.{WorkerHost, set_active, get_host}
use test_orch.Backend.Models.Hosts.{NodupIds, get_host-Mem}
use test_orch.Backend.Effects.{commit, send_task, World, Environment, lift, >>=-Post}
use test_orch.Backend.Ledger.{take, give}
use test_orch.Backend.Ledger.Moves.{Follows, Follows-write, Follows-start}
use test_orch.Backend.Scheduler.{
  FloatOps, survivors_of, queue_name_for, min_by_key, write_active, undo, reserve_and_send,
  place_on, place, dispatch,
}
use test_orch.Backend.Scheduler.Filter.{Qualifies, survivors_of_iff}
use test_orch.Backend.Scheduler.Ranking.{min_by_key-IsLightest}

-- What an action leaves follows from `start` by the ledger, whether it returns or raises.
abbrev LeavesTrace : List WorkerHost → {A : Type 0} → Result A × World → Type 0
LeavesTrace start (r, w) = Follows start w.db.hosts

module _ (env : Environment) where
  -- The undoing leaves the hosts as they are, or takes one from the row that it has read.
  undo-cases :
      (key : ℕ) (w : World)
      → ((undo env key w).1.db.hosts ≡ w.db.hosts)
        ⊎ ((fresh : WorkerHost) × (get_host key w.db.hosts ≡ some fresh)
            × (ltb_ℤ (pos 0) fresh.active_containers ≡ true)
            × ((undo env key w).1.db.hosts
                ≡ set_active key (fresh.active_containers -ℤ pos 1) w.db.hosts))
  unfolding undo
  undo-cases key w = go (get_host key w.db.hosts) refl
    where
      go :
          (found : Option WorkerHost)
          → get_host key w.db.hosts ≡ found
          → ((undo env key w).1.db.hosts ≡ w.db.hosts)
            ⊎ ((fresh : WorkerHost) × (get_host key w.db.hosts ≡ some fresh)
                × (ltb_ℤ (pos 0) fresh.active_containers ≡ true)
                × ((undo env key w).1.db.hosts
                    ≡ set_active key (fresh.active_containers -ℤ pos 1) w.db.hosts))
      go none e = inl (ground (arith, e))
      go (some fresh) e = elim (Bool-cases (ltb_ℤ (pos 0) fresh.active_containers)) [
        | inl positive ↦ elim (Option-cases (env w.calls commit)) [
          | inl works ↦ inr (fresh, e, positive, ground (arith, e, positive, works))
          | inr (x, fails) ↦ inl (ground (arith, e, positive, fails))
        ]
        | inr idle ↦ inl (ground (arith, e, idle))
      ]

  undo-LeavesTrace :
      (start : List WorkerHost) (key : ℕ) (w : World)
      → Follows start w.db.hosts
      → LeavesTrace start (undo env key w)
  undo-LeavesTrace start key w f = elim (undo-cases key w) [
    | inl same ↦ subst (Follows start) (sym same) f
    | inr (fresh, found, positive, wrote) ↦
        let (m, named) = get_host-Mem key fresh w.db.hosts found in
        subst (Follows start)
          (ap (λ k. set_active k (fresh.active_containers -ℤ pos 1) w.db.hosts) named ∙ sym wrote)
          (Follows-write start fresh _ w.db.hosts f m (give _ (ground arith)))
  ]

  abbrev unreserved : World → World
  unreserved w = record w { calls = commit ∷ w.calls }

  abbrev unsent : WorkerHost → Text → TestBundleRequest → World → World
  unsent host queue bundle w = record {
    db = write_active host.id (host.active_containers +ℤ pos 1) w.db;
    calls = send_task (text "worker.run_test_bundle") queue (to_dict bundle) ∷ commit ∷ w.calls;
  }

  -- The slot is taken and the task is sent, or the undoing ran, after either failure.
  reserve_and_send-cases :
      (host : WorkerHost) (queue : Text) (bundle : TestBundleRequest) (w : World)
      → let hosts = (reserve_and_send env host queue bundle w).1.db.hosts in
        (hosts ≡ (unsent host queue bundle w).db.hosts)
        ⊎ (hosts ≡ (undo env host.id (unreserved w)).1.db.hosts)
        ⊎ (hosts ≡ (undo env host.id (unsent host queue bundle w)).1.db.hosts)
  unfolding reserve_and_send
  reserve_and_send-cases host queue bundle w = elim (Option-cases (env w.calls commit)) [
    | inr (e, fails) ↦ inr (inl (ground (arith, fails)))
    | inl works ↦
        let task = send_task (text "worker.run_test_bundle") queue (to_dict bundle) in
        elim (Option-cases (env (commit ∷ w.calls) task)) [
          | inl sent ↦ inl (ground (arith, works, sent))
          | inr (e, fails) ↦ inr (inr (ground (arith, works, fails)))
        ]
  ]

  reserve_and_send-LeavesTrace :
      (start : List WorkerHost) (host : WorkerHost) (queue : Text) (bundle : TestBundleRequest)
      (w : World)
      → Follows start w.db.hosts
      → Mem host w.db.hosts
      → host.active_containers <ℤ host.max_containers
      → LeavesTrace start (reserve_and_send env host queue bundle w)
  reserve_and_send-LeavesTrace start host queue bundle w f m spare =
      let taken =
        Follows-write start host (host.active_containers +ℤ pos 1) w.db.hosts f m (take _ spare) in
      elim (reserve_and_send-cases host queue bundle w) [
        | inl sent ↦ subst (Follows start) (sym sent) taken
        | inr (inl early) ↦
            subst (Follows start) (sym early) (undo-LeavesTrace start host.id (unreserved w) f)
        | inr (inr late) ↦
            subst (Follows start) (sym late)
              (undo-LeavesTrace start host.id (unsent host queue bundle w) taken)
      ]

  place_on-LeavesTrace :
      (start : List WorkerHost) (bundle : TestBundleRequest) (host : WorkerHost) (w : World)
      → Follows start w.db.hosts
      → Mem host w.db.hosts
      → host.active_containers <ℤ host.max_containers
      → LeavesTrace start (place_on env bundle host w)
  unfolding place_on
  place_on-LeavesTrace start bundle host w f m spare =
      >>=-Post (LeavesTrace start) (lift (queue_name_for host.host_id)) _ w (λ _ _. f)
        λ queue _.
          let done = reserve_and_send-LeavesTrace start host queue bundle w f m spare in
          >>=-Post (LeavesTrace start) (reserve_and_send env host queue bundle) _ w (λ _ _. done)
            (λ _ _.
              >>=-Post (LeavesTrace start)
                (lift (guard (not (is_empty host.host_id)) assertion_error)) _ _ (λ _ _. done)
                (λ _ _. done))

module _ (env : Environment) (ops : FloatOps) where
  place-LeavesTrace :
      (bundle : TestBundleRequest) (hosts : List WorkerHost) (w : World)
      → NodupIds w.db.hosts
      → ((host : WorkerHost) → Mem host hosts → Mem host w.db.hosts × Qualifies bundle host)
      → LeavesTrace w.db.hosts (place ops env bundle hosts w)
  unfolding place
  place-LeavesTrace bundle [] w u sub = Follows-start w.db.hosts u
  place-LeavesTrace bundle (host ∷ hosts) w u sub =
      let start = Follows-start w.db.hosts u in
      >>=-Post (LeavesTrace w.db.hosts) (lift (min_by_key ops host hosts)) _ w (λ _ _. start)
        λ c best.
          let (m, q) = sub c.0 (min_by_key-IsLightest ops host hosts c best).listed in
          place_on-LeavesTrace env w.db.hosts bundle c.0 w start m q.spare

  pub dispatch-Follows :
      (bundle : TestBundleRequest) (w : World)
      → NodupIds w.db.hosts
      → Follows w.db.hosts (dispatch ops env bundle w).1.db.hosts
  unfolding dispatch
  dispatch-Follows bundle w u =
      place-LeavesTrace bundle (survivors_of bundle w.db.hosts) w u
        (λ host m. (survivors_of_iff bundle host w.db.hosts).0 m)
