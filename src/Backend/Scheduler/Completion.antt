-- ===== src/Backend/Scheduler/Completion.antt =====
-- A dispatch comes to an end with an answer when nothing around it fails.
use test_orch.Base.{
  ◌≡◌, refl, Bool, List, [], ◌∷◌, ◌++◌, Option, none, some, arith, All, All-at, All-keep,
}
use test_orch.Base.Text.{Text, text}
use test_orch.Base.Result.{ok}
use test_orch.Shared.Value.{str}
use test_orch.Shared.Validation.Laws.{IsNonBlank, require_non_empty_str-ok}
use test_orch.Shared.Schemas.{TestBundleRequest, to_dict}
use test_orch.Backend.Models.{WorkerHost}
use test_orch.Backend.Effects.{World, Environment, Event, commit, send_task}
use test_orch.Backend.Scheduler.Ranking.{IsScorable, min_by_key_total, min_by_key-IsLightest}
use test_orch.Backend.Scheduler.Reservation.{queue_name_for-some_left}
use test_orch.Backend.Scheduler.{
  FloatOps, IsLawful, passes_filter, survivors_of, queue_name_for, reserve_and_send, place_on,
  place, dispatch,
}

queue_name_for_total :
    (name : Text) → IsNonBlank name → (queue : Text) × (queue_name_for name ≡ ok queue)
unfolding queue_name_for
queue_name_for_total name solid =
    let named = (require_non_empty_str-ok (str name) name).1 (refl, solid) in
    (text "queue_" ++ name, rw named refl)

module _ (env : Environment) where
  place_on_total :
      (bundle : TestBundleRequest) (host : WorkerHost) (w : World)
      → IsNonBlank host.host_id
      → ((calls : List Event) (event : Event) → env calls event ≡ none)
      → (place_on env bundle host w).0 ≡ ok (some host.host_id)
  unfolding place_on reserve_and_send
  place_on_total bundle host w solid calm =
      let (queue, named) = queue_name_for_total host.host_id solid in
      let left = queue_name_for-some_left env host.host_id queue named in
      let task = send_task (text "worker.run_test_bundle") queue (to_dict bundle) in
      ground (arith, named, left, calm w.calls commit, calm (commit ∷ w.calls) task)

module _ (ops : FloatOps) (env : Environment) where
  place_total :
      (bundle : TestBundleRequest) (hosts : List WorkerHost) (w : World)
      → IsLawful ops
      → All IsScorable hosts
      → All (λ h. IsNonBlank h.host_id) hosts
      → ((calls : List Event) (event : Event) → env calls event ≡ none)
      → (r : Option Text) × ((place ops env bundle hosts w).0 ≡ ok r)
  unfolding place
  place_total bundle [] w lawful v named calm = (none, refl)
  place_total bundle (host ∷ hosts) w lawful v named calm =
      let (c, e) = min_by_key_total ops lawful host hosts v in
      let l = min_by_key-IsLightest ops host hosts c e in
      let solid = All-at (λ h. IsNonBlank h.host_id) c.0 (host ∷ hosts) named l.listed in
      (some c.0.host_id, rw e (place_on_total env bundle c.0 w solid calm))

  -- A dispatch returns if the rows have counts and loads that are at least zero and names that are
  -- not blank, the float operations are lawful, and no commit and no call of the broker raises.
  pub dispatch_total :
      (bundle : TestBundleRequest) (w : World)
      → IsLawful ops
      → All IsScorable w.db.hosts
      → All (λ h. IsNonBlank h.host_id) w.db.hosts
      → ((calls : List Event) (event : Event) → env calls event ≡ none)
      → (r : Option Text) × ((dispatch ops env bundle w).0 ≡ ok r)
  unfolding dispatch
  dispatch_total bundle w lawful v named calm =
      let p : WorkerHost → Bool = λ h. passes_filter h bundle in
      place_total bundle (survivors_of bundle w.db.hosts) w lawful
        (All-keep IsScorable p w.db.hosts v)
        (All-keep (λ h. IsNonBlank h.host_id) p w.db.hosts named) calm
