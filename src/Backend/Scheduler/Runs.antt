-- ===== src/Backend/Scheduler/Runs.antt =====
-- `dispatch` does not write the table of runs.
use test_orch.Base.{◌≡◌, refl, List, [], ◌∷◌, arith}
use test_orch.Base.Text.{Text}
use test_orch.Base.Result.{Result}
use test_orch.Shared.Schemas.{TestBundleRequest}
use test_orch.Backend.Models.{WorkerHost, Database}
use test_orch.Backend.Effects.{World, Environment, lift, >>=-Post}
use test_orch.Backend.Scheduler.{
  FloatOps, survivors_of, queue_name_for, min_by_key, undo, reserve_and_send, place_on, place,
  dispatch,
}

-- The runs are as they were.
abbrev pub SameRuns : {A : Type 0} → Database → Result A × World → Type 0
SameRuns db (r, w) = w.db.executions ≡ db.executions

module _ (env : Environment) where
  reserve_and_send-SameRuns :
      (host : WorkerHost) (queue : Text) (bundle : TestBundleRequest) (w : World)
      → SameRuns w.db (reserve_and_send env host queue bundle w)
  unfolding reserve_and_send undo
  reserve_and_send-SameRuns host queue bundle w = ground arith

  place_on-SameRuns :
      (bundle : TestBundleRequest) (host : WorkerHost) (w : World)
      → SameRuns w.db (place_on env bundle host w)
  unfolding place_on
  place_on-SameRuns bundle host w =
      >>=-Post (SameRuns w.db) (lift (queue_name_for host.host_id)) _ w (λ _ _. refl)
        λ queue _.
          >>=-Post (SameRuns w.db) (reserve_and_send env host queue bundle) _ w
            (λ _ _. reserve_and_send-SameRuns host queue bundle w)
            (λ _ _. ground (arith, reserve_and_send-SameRuns host queue bundle w))

module _ (env : Environment) (ops : FloatOps) where
  place-SameRuns :
      (bundle : TestBundleRequest) (hosts : List WorkerHost) (w : World)
      → SameRuns w.db (place ops env bundle hosts w)
  unfolding place
  place-SameRuns bundle [] w = refl
  place-SameRuns bundle (host ∷ hosts) w =
      >>=-Post (SameRuns w.db) (lift (min_by_key ops host hosts)) _ w (λ _ _. refl)
        (λ c _. place_on-SameRuns env bundle c.0 w)

  pub dispatch-SameRuns :
      (bundle : TestBundleRequest) (w : World) → SameRuns w.db (dispatch ops env bundle w)
  unfolding dispatch
  dispatch-SameRuns bundle w = place-SameRuns bundle (survivors_of bundle w.db.hosts) w
