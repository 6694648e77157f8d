-- ===== src/Backend/Poll/Ask.antt =====
-- backend/main.py: what `ws_admin` does at the start of a poll.
use mathlib.Core.List.{reverse, reverse-cons, append_assoc}
use test_orch.Base.{◌≡◌, refl, List, [], ◌∷◌, ◌++◌, map, length-map, none, arith, All, length}
use test_orch.Base.Text.{Text, text}
use test_orch.Base.Result.{ok}
use test_orch.Shared.Value.{str}
use test_orch.Shared.Validation.Laws.{IsNonBlank, require_non_empty_str-ok}
use test_orch.Backend.Models.{WorkerHost}
use test_orch.Backend.Effects.{
  World, Environment, Event, send_poll, Action, pure, lift, get_db, call, ◌>>=◌, ◌>>◌,
}
use test_orch.Backend.Scheduler.{queue_name_for}
use test_orch.Backend.Poll.{PollState, init}

unfoldable pub status_exchange_for : Text → Text
status_exchange_for correlation_id = text "host_status." ++ correlation_id

module _ (env : Environment) (correlation_id : Text) where
  -- The loop that sends each host its task.
  ask : List Text → Action (Unit {0})
  ask [] = pure tt
  ask (host_id ∷ host_ids) = do
    queue ← lift (queue_name_for host_id)
    call env (send_poll correlation_id queue)
    ask host_ids

  -- The hosts are read and asked; the poll's state waits for as many replies.
  unfoldable pub start_poll : Action PollState
  unfolding ask init
  start_poll = do
    db ← get_db
    let host_ids = map (λ (h : WorkerHost). h.host_id) db.hosts
    ask host_ids
    pure (init (length host_ids))

  -- The tasks for these hosts.
  abbrev pub asked : List WorkerHost → List Event
  asked hosts =
      map (λ (h : WorkerHost). send_poll correlation_id (text "queue_" ++ h.host_id)) hosts

  queue_name_for-ok :
      (name : Text) → IsNonBlank name → queue_name_for name ≡ ok (text "queue_" ++ name)
  unfolding queue_name_for
  queue_name_for-ok name solid =
      rw ((require_non_empty_str-ok (str name) name).1 (refl, solid)) refl

  ask_lem :
      (hosts : List WorkerHost) (w : World)
      → All (λ h. IsNonBlank h.host_id) hosts
      → ((calls : List Event) (event : Event) → env calls event ≡ none)
      → ask (map (λ (h : WorkerHost). h.host_id) hosts) w
        ≡ (ok tt, record w { calls = reverse (asked hosts) ++ w.calls })
  unfolding ask
  ask_lem [] w named calm = refl
  ask_lem (host ∷ hosts) w named calm =
      let event = send_poll correlation_id (text "queue_" ++ host.host_id) in
      ground (
        arith,
        queue_name_for-ok host.host_id named.0,
        calm w.calls event,
        ask_lem hosts (record w { calls = event ∷ w.calls }) named.1 calm,
        reverse-cons event (asked hosts),
        append_assoc (reverse (asked hosts)) (event ∷ []) w.calls,
      )

  -- A poll asks every host of the inventory once, in order, over the host's own queue, and waits for
  -- exactly as many replies, if no name is blank and the broker takes the tasks.
  pub start_poll-asks :
      (w : World)
      → All (λ h. IsNonBlank h.host_id) w.db.hosts
      → ((calls : List Event) (event : Event) → env calls event ≡ none)
      → start_poll w ≡ (
        ok (init (length w.db.hosts)),
        record w { calls = reverse (asked w.db.hosts) ++ w.calls },
      )
  unfolding start_poll
  start_poll-asks w named calm = ground (
    arith,
    ask_lem w.db.hosts w named calm,
    length-map (λ (h : WorkerHost). h.host_id) w.db.hosts,
  )
