-- ===== src/System/LiveLog/Examples.antt =====
-- Two lines, and a log store that fails at the second.
use test_orch.Base.{ℕ, suc, ◌≡◌, refl, [], ◌∷◌, map, take, none, some}
use test_orch.Base.Text.{text}
use test_orch.Base.Result.{ok, external_error}
use test_orch.Backend.Effects.{Environment, influx_write, amqp_ack, send_text}
use test_orch.Backend.Routes.Pages.{render_line}
use test_orch.Backend.Routes.Pages.Fanout.{AnswersAll}
use test_orch.Backend.Samples.{world}
use test_orch.Worker.Machine.{Machine}
use test_orch.Worker.Samples.{worker, show}
use test_orch.Worker.Bundle.{stream}
use test_orch.System.LiveLog.{shown, stream-shown}

unfoldable full_store : Environment
full_store calls (influx_write test_id (suc n) content) = some external_error
full_store calls event = none

-- The socket is gone after the first fragment.
unfoldable dropped : Environment
dropped (amqp_ack ∷ calls) (send_text fragment) = some external_error
dropped calls event = none

abbrev machine : Machine
machine = worker full_store

stream-shown_example :
    let lines = text "collected" ∷ text "1 passed" ∷ [] in
    let after = stream show machine (text "t1") 0 lines world in
    (after.0 ≡ ok tt
      → AnswersAll dropped
      → shown show machine dropped (text "t1") after.1 ≡ map render_line lines)
    × (k : ℕ) × (shown show machine dropped (text "t1") after.1 ≡ map render_line (take k lines))
stream-shown_example =
    stream-shown show machine dropped (text "t1") (text "collected" ∷ text "1 passed" ∷ []) world
      refl
