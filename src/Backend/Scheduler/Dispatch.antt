-- ===== src/Backend/Scheduler/Dispatch.antt =====
-- `dispatch`: what each outcome says of the database and of the calls that were made.
use test_orch.Base.{◌≡◌, ◌≢◌, refl, sym, ap, ◌∙◌, not, List, [], ◌∷◌, ◌++◌, none, some, arith, Mem}
use test_orch.Base.Int.{pos, ◌+ℤ◌}
use test_orch.Base.Text.{Text, text, is_empty}
use test_orch.Base.Result.{guard, assertion_error, ok, >>=-eq-ok}
use test_orch.Shared.Value.{str}
use test_orch.Shared.Validation.{require_non_empty_str}
use test_orch.Shared.Validation.Laws.{require_non_empty_str-ok}
use test_orch.Shared.Schemas.{TestBundleRequest, to_dict}
use test_orch.Backend.Models.{WorkerHost}
use test_orch.Backend.Effects.{World, Environment, commit, send_task, lift, >>=-ok}
use test_orch.Backend.Scheduler.{
  FloatOps, Candidate, survivors_of, write_active, queue_name_for, min_by_key, reserve_and_send,
  place_on, place, dispatch,
}
use test_orch.Backend.Scheduler.Filter.{Qualifies}
use test_orch.Backend.Scheduler.Ranking.{IsLightest, min_by_key-IsLightest}
use test_orch.Backend.Scheduler.Selection.{IsBest, IsLightest→IsBest, survivors_of-eq-nil}

pub queue_name_for-ok :
    (name queue : Text) → queue_name_for name ≡ ok queue → queue ≡ text "queue_" ++ name
unfolding queue_name_for
queue_name_for-ok name queue h =
    let (s, e, h') = >>=-eq-ok (require_non_empty_str (str name)) _ h in
    let (same, _) = (require_non_empty_str-ok (str name) s).0 e in ground arith

module _ (env : Environment) where
  abbrev sent_via : TestBundleRequest → Text → WorkerHost → World → World
  sent_via bundle queue host w = record {
    db = write_active host.id (host.active_containers +ℤ pos 1) w.db;
    calls = send_task (text "worker.run_test_bundle") queue (to_dict bundle) ∷ commit ∷ w.calls;
  }

  -- The world after a dispatch to the host: one more container there, committed, and then the
  -- task, sent to the host's own queue.
  abbrev pub sent : TestBundleRequest → WorkerHost → World → World
  sent bundle host w = sent_via bundle (text "queue_" ++ host.host_id) host w

  reserve_and_send-ok :
      (host : WorkerHost) (queue : Text) (bundle : TestBundleRequest) (w : World)
      → (reserve_and_send env host queue bundle w).0 ≡ ok tt
      → (reserve_and_send env host queue bundle w).1 ≡ sent_via bundle queue host w
  unfolding reserve_and_send
  reserve_and_send-ok host queue bundle w h = ground arith

  place_on-some :
      (bundle : TestBundleRequest) (host : WorkerHost) (w : World) (name : Text)
      → (place_on env bundle host w).0 ≡ ok (some name)
      → (host.host_id ≡ name) × ((place_on env bundle host w).1 ≡ sent bundle host w)
  unfolding place_on
  place_on-some bundle host w name h =
      let (queue, named, run1, h1) =
        >>=-ok (lift (queue_name_for host.host_id)) _ w (some name) h in
      let (_, done, run2, h2) =
        >>=-ok (reserve_and_send env host queue bundle) _ w (some name) h1 in
      let (_, _, run3, h3) =
        >>=-ok (lift (guard (not (is_empty host.host_id)) assertion_error)) _ _ (some name) h2 in
      let reserved = reserve_and_send-ok host queue bundle w done in
      let q = queue_name_for-ok host.host_id queue named in
      (
        ground arith,
        ap (λ r. r.1) (run1 ∙ run2 ∙ run3) ∙ reserved ∙ ap (λ t. sent_via bundle t host w) q,
      )

  place_on-ne-none :
      (bundle : TestBundleRequest) (host : WorkerHost) (w : World)
      → (place_on env bundle host w).0 ≢ ok none
  unfolding place_on
  place_on-ne-none bundle host w h =
      let (queue, named, run1, h1) = >>=-ok (lift (queue_name_for host.host_id)) _ w none h in
      let (_, done, run2, h2) = >>=-ok (reserve_and_send env host queue bundle) _ w none h1 in
      let (_, _, run3, h3) =
        >>=-ok (lift (guard (not (is_empty host.host_id)) assertion_error)) _ _ none h2 in
      cc

module _ (ops : FloatOps) (env : Environment) where
  place-some :
      (bundle : TestBundleRequest) (hosts : List WorkerHost) (w : World) (name : Text)
      → (place ops env bundle hosts w).0 ≡ ok (some name)
      → (c : Candidate) × IsLightest ops hosts c
        × (c.0.host_id ≡ name)
        × ((place ops env bundle hosts w).1 ≡ sent env bundle c.0 w)
  unfolding place
  place-some bundle [] w name h = cc
  place-some bundle (host ∷ hosts) w name h =
      let (c, e, run, h') = >>=-ok (lift (min_by_key ops host hosts)) _ w (some name) h in
      let (named, after) = place_on-some env bundle c.0 w name h' in
      (c, min_by_key-IsLightest ops host hosts c e, named, ap (λ r. r.1) run ∙ after)

  place-none :
      (bundle : TestBundleRequest) (hosts : List WorkerHost) (w : World)
      → (place ops env bundle hosts w).0 ≡ ok none
      → (hosts ≡ []) × ((place ops env bundle hosts w).1 ≡ w)
  unfolding place
  place-none bundle [] w h = (refl, refl)
  place-none bundle (host ∷ hosts) w h =
      let (c, e, run, h') = >>=-ok (lift (min_by_key ops host hosts)) _ w none h in
      absurd (place_on-ne-none env bundle c.0 w h')

  dispatch_lem :
      (bundle : TestBundleRequest) (w : World)
      → dispatch ops env bundle w ≡ place ops env bundle (survivors_of bundle w.db.hosts) w
  unfolding dispatch
  dispatch_lem bundle w = refl

  -- When `dispatch` returns a host, it is the best of the qualified hosts, its count of containers
  -- went up by one and nothing else in the database changed, and the calls were one commit and
  -- then one task for the host's queue. When it returns none, no host qualifies and nothing was
  -- written or called.
  pub dispatch-IsBest :
      (bundle : TestBundleRequest) (w : World)
      → ((name : Text)
          → (dispatch ops env bundle w).0 ≡ ok (some name)
          → (c : Candidate) × IsBest ops bundle w.db.hosts c
            × (c.0.host_id ≡ name)
            × ((dispatch ops env bundle w).1 ≡ sent env bundle c.0 w))
        × ((dispatch ops env bundle w).0 ≡ ok none
            → ((host : WorkerHost) → Mem host w.db.hosts → ¬ Qualifies bundle host)
              × ((dispatch ops env bundle w).1 ≡ w))
  dispatch-IsBest bundle w =
      let found = survivors_of bundle w.db.hosts in
      let run = dispatch_lem bundle w in
      (
        λ name h.
            let (c, l, named, after) =
              place-some bundle found w name (sym (ap (λ r. r.0) run) ∙ h) in
            (c, IsLightest→IsBest ops bundle w.db.hosts c l, named, ap (λ r. r.1) run ∙ after),
        λ h.
            let (e, after) = place-none bundle found w (sym (ap (λ r. r.0) run) ∙ h) in
            (survivors_of-eq-nil ops bundle w.db.hosts e, ap (λ r. r.1) run ∙ after),
      )
