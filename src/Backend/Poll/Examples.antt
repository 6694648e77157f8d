-- ===== src/Backend/Poll/Examples.antt =====
-- A poll of two hosts, and the theorems there.
use test_orch.Base.{ℕ, ◌≢◌, ◌≡◌, refl, [], ◌∷◌, none, ◌+◌, arith}
use test_orch.Base.Text.{Text}
use test_orch.Backend.Render.{render_sentinel}
use test_orch.Backend.Poll.{
  PollState, init, on_reply, on_timer, acquire, finish, Reach, start, next, reply, timer, lock,
  done,
}
use test_orch.Backend.Poll.Latch.{IsReport}
use test_orch.Backend.Poll.Answer.{Works, all_answered-Sends}

abbrev one_reply : PollState
one_reply = on_reply (init 2)

one_reply-Reach : Reach 2 one_reply
one_reply-Reach = next start (reply (init 2))

-- The timer of the poll fires after one of two replies, gets the lock and sends.
abbrev fragment : Text
fragment = render_sentinel 1 2

abbrev timed_out : PollState
timed_out = finish fragment (acquire (on_timer one_reply))

timed_out-Reach : Reach 2 timed_out
unfolding init on_reply on_timer acquire
timed_out-Reach =
    next
      (next (next one_reply-Reach (timer one_reply)) (lock (on_timer one_reply) {n = 0} refl refl))
      (done (acquire (on_timer one_reply)) fragment refl)

timed_out_run : timed_out.sent ≡ fragment ∷ []
unfolding init on_reply on_timer acquire finish
timed_out_run = refl

two_hosts : (let n : ℕ = 2 in n ≢ 0)
two_hosts = omega arith

all_answered-Sends_example :
    (t : PollState) × Works (on_reply one_reply) t
    × (t.waiting ≡ 0)
    × (t.sending ≡ none)
    × (f : Text) × (t.sent ≡ f ∷ [])
    × IsReport (one_reply.received + 1) 2 f
all_answered-Sends_example =
    all_answered-Sends one_reply-Reach two_hosts (unfold on_reply init in omega arith)
