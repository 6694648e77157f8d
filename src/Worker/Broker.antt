-- ===== src/Worker/Broker.antt =====
-- worker/tasks.py: `_publish_fanout` and what it is used for.
use test_orch.Base.{◌≡◌, List, ◌∷◌, ◌++◌, none, arith}
use test_orch.Base.Text.{Text, text}
use test_orch.Base.Result.{ok}
use test_orch.Backend.Effects.{
  World, Environment, Event, Action, call, try_finally, amqp_connect, declare_exchange, publish,
  amqp_close, ◌>>◌,
}

module _ (env : Environment) where
  -- Connects, declares the exchange and publishes; the connection is closed whatever happens.
  unfoldable pub publish_fanout : Text → Text → Action (Unit {0})
  publish_fanout exchange body =
      call env amqp_connect
      >> try_finally (call env (declare_exchange exchange) >> call env (publish exchange body))
          (call env amqp_close)

  unfoldable pub publish_log_line : Text → Text → Action (Unit {0})
  unfolding publish_fanout
  publish_log_line test_id line = publish_fanout (text "test_logs." ++ test_id) line

-- The broker takes whatever is published.
pub record Delivers (env : Environment) : Type 0 where
  pub connects : (calls : List Event) → env calls amqp_connect ≡ none
  pub declares :
      (calls : List Event) (exchange : Text) → env calls (declare_exchange exchange) ≡ none
  pub takes : (calls : List Event) (exchange body : Text) → env calls (publish exchange body) ≡ none
  pub closes : (calls : List Event) → env calls amqp_close ≡ none

-- What a publication calls, in this order, when the broker takes it.
abbrev pub published : Text → Text → List Event → List Event
published exchange body calls =
    amqp_close ∷ publish exchange body ∷ declare_exchange exchange ∷ amqp_connect ∷ calls

pub publish_fanout-ok :
    (env : Environment) (exchange body : Text) (w : World)
    → Delivers env
    → publish_fanout env exchange body w
      ≡ (ok tt, record w { calls = published exchange body w.calls })
unfolding publish_fanout
publish_fanout-ok env exchange body w d = ground (
  arith,
  d.connects w.calls,
  d.declares (amqp_connect ∷ w.calls) exchange,
  d.takes (declare_exchange exchange ∷ amqp_connect ∷ w.calls) exchange body,
  d.closes (publish exchange body ∷ declare_exchange exchange ∷ amqp_connect ∷ w.calls),
)
