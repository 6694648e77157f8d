-- ===== src/Worker/Tasks/Race.antt =====
-- The decrement in two steps, with whatever others do between them.
use test_orch.Base.{
  ℕ, ◌≡◌, refl, sym, ap, ◌∙◌, ◌⊎◌, inl, inr, true, List, [], ◌∷◌, some, arith, Bool-cases,
  Option-cases, nat_eq, ◌==◌,
}
use test_orch.Base.Int.{ℤ, pos, ◌+ℤ◌, ◌-ℤ◌, ltb_ℤ}
use test_orch.Base.Text.{Text, text_eq}
use test_orch.Base.Keys.{NodupKeys, eq_of_key}
use test_orch.Base.Result.{ok}
use test_orch.Shared.Schemas.{TestBundleRequest}
use test_orch.Backend.Models.{WorkerHost, host_by_name, set_active}
use test_orch.Backend.Models.Hosts.{host_by_name-Mem, host_by_name-named}
use test_orch.Backend.Effects.{World, Environment, CommitsWork, commit}
use test_orch.Backend.Scheduler.{FloatOps, dispatch}
use test_orch.Backend.Scheduler.Dispatch.{dispatch-IsBest}
use test_orch.Worker.Tasks.{decrement_active_containers, write_back}

module _ (env : Environment) where
  -- Run in one go, the two steps are the decrement.
  decrement-phases :
      (name : Text) (host : WorkerHost) (w : World)
      → host_by_name name w.db.hosts ≡ some host
      → decrement_active_containers env name w ≡ write_back env host w
  unfolding decrement_active_containers write_back
  decrement-phases name host w found = ground (arith, found)

  write_back-hosts :
      (host : WorkerHost) (w : World)
      → CommitsWork env
      → ltb_ℤ (pos 0) host.active_containers ≡ true
      → (write_back env host w).1.db.hosts
        ≡ set_active host.id (host.active_containers -ℤ pos 1) w.db.hosts
  unfolding write_back
  write_back-hosts host w works positive = ground (arith, works w.calls, positive)

  pub write_back-cases :
      (host : WorkerHost) (w : World)
      → ((write_back env host w).1.db.hosts ≡ w.db.hosts)
        ⊎ ((ltb_ℤ (pos 0) host.active_containers ≡ true)
            × ((write_back env host w).1.db.hosts
                ≡ set_active host.id (host.active_containers -ℤ pos 1) w.db.hosts))
  unfolding write_back
  write_back-cases host w = elim (Bool-cases (ltb_ℤ (pos 0) host.active_containers)) [
    | inr idle ↦ inl (ground (arith, idle))
    | inl positive ↦ elim (Option-cases (env w.calls commit)) [
      | inl works ↦ inr (positive, ground (arith, positive, works))
      | inr (e, fails) ↦ inl (ground (arith, positive, fails))
    ]
  ]

set_active-last :
    (key : ℕ) (a b : ℤ) (hosts : List WorkerHost)
    → set_active key a (set_active key b hosts) ≡ set_active key a hosts
unfolding set_active
set_active-last key a b [] = refl
set_active-last key a b (h ∷ hosts) = elim (Bool-cases (h.id == key)) [
  | inl same ↦ ground (arith, same, set_active-last key a b hosts)
  | inr other ↦ ground (arith, other, set_active-last key a b hosts)
]

module _ (env sender : Environment) (ops : FloatOps) where
  -- A slot that is reserved between the two steps is lost: if the worker has read its host's row, with
  -- a count above zero, then a dispatch reserves a slot of that host, and then the worker writes, the
  -- hosts end as if the dispatch had not been. The write's commit works, and names of hosts are
  -- distinct.
  pub dispatch-write_back :
      (bundle : TestBundleRequest) (name : Text) (host : WorkerHost) (w : World)
      → CommitsWork env
      → NodupKeys (λ (h : WorkerHost). h.host_id) w.db.hosts
      → host_by_name name w.db.hosts ≡ some host
      → ltb_ℤ (pos 0) host.active_containers ≡ true
      → (dispatch ops sender bundle w).0 ≡ ok (some name)
      → (write_back env host (dispatch ops sender bundle w).1).1.db.hosts
        ≡ (decrement_active_containers env name w).1.db.hosts
  dispatch-write_back bundle name host w works unique found positive chosen =
      let (c, best, named, after) = (dispatch-IsBest ops sender bundle w).0 name chosen in
      let same : c.0 ≡ host =
        eq_of_key (λ (h : WorkerHost). h.host_id) c.0 host w.db.hosts unique best.listed
          (host_by_name-Mem name host w.db.hosts found)
          (named ∙ sym (host_by_name-named name host w.db.hosts found)) in
      write_back-hosts env host (dispatch ops sender bundle w).1 works positive
      ∙ ap (λ (x : World). set_active host.id (host.active_containers -ℤ pos 1) x.db.hosts) after
      ∙ ap
          (λ (h : WorkerHost).
            set_active host.id (host.active_containers -ℤ pos 1)
              (set_active h.id (h.active_containers +ℤ pos 1) w.db.hosts))
          same
      ∙ set_active-last host.id (host.active_containers -ℤ pos 1) (host.active_containers +ℤ pos 1)
          w.db.hosts
      ∙ sym (write_back-hosts env host w works positive)
      ∙ ap (λ p. p.1.db.hosts) (sym (decrement-phases env name host w found))
