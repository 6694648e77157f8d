-- ===== src/Backend/Poll/Socket.antt =====
-- backend/main.py: `ws_admin`, `_consume_fanout` and `_emit_sentinel_after_grace`, as a machine of
-- interleaved tasks. Polls are numbered by the generation that they start. `my_gen` and `state` are
-- variables of `ws_admin`, which its closures share: a later poll changes them for all of them.
-- A task that has been cancelled runs nothing of the program but its `finally` branches, which is
-- what asyncio promises.
pub mod Steps
pub mod Tasks
pub mod Turns
pub mod Latest
pub mod Latches
mod Examples
use test_orch.Base.{
  ℕ, suc, ◌≡◌, Bool, true, false, not, ◌&&◌, List, [], ◌∷◌, ◌++◌, map, Option, none, some, eqb,
  length, if◌then◌else◌,
}
use test_orch.Base.Text.{Text, text, is_empty}
use test_orch.Base.Decimal.{decimal}
use test_orch.Base.Result.{Result, ok, err, Exception}
use test_orch.Backend.Models.{Database, Datetime, User}
use test_orch.Backend.Auth.{resolve_session}
use test_orch.Backend.Render.Row.{Python, render_status_row}
use test_orch.Backend.Poll.{
  PollState, init, on_reply, completes, on_timer, acquire, finish, abort, give_up,
}

-- A timer has the state that it was given.
pub data Kind : Type 0 where
  consumer : Kind
  timer : ℕ → Kind

-- `rendered`: the reply is on its way to the browser and not yet counted. `waiting` and `sending`: in
-- `emit_sentinel` of the state of that number, before the lock and behind it.
pub data Stage : Type 0 where
  ready rendered finished : Stage
  waiting sending : ℕ → Stage

-- `poll` is the poll that created the task, and whose replies the consumer gets.
pub record Task : Type 0 where
  pub kind : Kind
  pub poll : ℕ
  pub stage : Stage
  pub cancelled : Bool

-- What has been handed to the socket, with the poll on whose account.
pub data Frame : Type 0 where
  cleared hidden row sentinel : (poll : ℕ) → (html : Text) → Frame

-- Where `ws_admin` waits, with the hosts that it has read.
pub data Phase : Type 0 where
  receiving reading closed : Phase
  clearing hiding binding : List Text → Phase

pub record Socket : Type 0 where
  pub generation : ℕ
  pub my_gen : ℕ
  pub state : ℕ
  pub polls : ℕ → PollState
  pub tasks : List Task
  pub consumer_task : Option ℕ
  pub sentinel_task : Option ℕ
  pub phase : Phase
  pub frames : List Frame

unfoldable pub opened : Socket
unfolding init
opened = record {
  generation = 0;
  my_gen = 0;
  state = 0;
  polls = λ k. init 0;
  tasks = [];
  consumer_task = none;
  sentinel_task = none;
  phase = receiving;
  frames = [];
}

-- Who may open the channel; anyone else is closed with 4401.
unfoldable pub admit_admin : Database → Option Text → Datetime → Result (Option Socket)
unfolding opened
admit_admin db cookie now = elim (resolve_session db cookie now) [
  | err e ↦ err e
  | ok none ↦ ok none
  | ok (some user) ↦ ok (some opened)
]

abbrev pub is_finished : Stage → Bool
is_finished finished = true
is_finished stage = false

abbrev pub names : Option ℕ → ℕ → Bool
names none poll = false
names (some k) poll = eqb k poll

-- The variable of the task's kind holds this task.
abbrev pub is_held : Socket → Kind → ℕ → Bool
is_held s consumer poll = names s.consumer_task poll
is_held s (timer k) poll = names s.sentinel_task poll

abbrev pub cancel : Socket → Task → Task
cancel s t =
    if is_held s t.kind t.poll && not (is_finished t.stage)
    then record t { cancelled = true }
    else t

unfoldable pub cancel_inflight : Socket → Socket
cancel_inflight s = record s { tasks = map (cancel s) s.tasks }

-- A frame has come in: the tasks are cancelled and the generation is bumped.
unfoldable pub begin_poll : Socket → Socket
unfolding cancel_inflight
begin_poll s = record (cancel_inflight s) {
  generation = suc s.generation;
  my_gen = suc s.generation;
  phase = reading;
}

abbrev waiting_rows : ℕ → Text
waiting_rows total =
    text
      "<tbody id=\"host-status-results\" hx-swap-oob=\"innerHTML\"><tr><td colspan=\"5\">Waiting for "
    ++ (decimal total ++ text " runner(s) to respond...</td></tr></tbody>")

-- The hosts are read, and the table is cleared.
unfoldable pub clear_table : List Text → Socket → Socket
clear_table host_ids s = record s {
  frames = cleared s.generation (waiting_rows (length host_ids)) ∷ s.frames;
  phase = clearing host_ids;
}

unfoldable pub hide_sentinel : List Text → Socket → Socket
hide_sentinel host_ids s = record s {
  frames =
      hidden s.generation (text "<div id=\"poll-sentinel\" hx-swap-oob=\"innerHTML\"></div>")
      ∷ s.frames;
  phase = hiding host_ids;
}

-- Writes the state of a poll.
abbrev pub write_poll : ℕ → PollState → (ℕ → PollState) → ℕ → PollState
write_poll k p polls j = if eqb j k then p else polls j

-- The new state and the consumer's task.
unfoldable pub listen : List Text → Socket → Socket
unfolding init
listen host_ids s = record s {
  state = s.generation;
  polls = write_poll s.generation (init (length host_ids)) s.polls;
  consumer_task = some s.generation;
  tasks =
      record { kind = consumer; poll = s.generation; stage = ready; cancelled = false } ∷ s.tasks;
  phase = binding host_ids;
}

-- The queue is bound, or its time is up; the hosts have been asked, and the timer starts.
unfoldable pub set_timer : Socket → Socket
set_timer s = record s {
  sentinel_task = some s.generation;
  tasks =
      record { kind = timer s.state; poll = s.generation; stage = ready; cancelled = false }
      ∷ s.tasks;
  phase = receiving;
}

-- The browser has gone, or anything raised: the `finally` branch.
unfoldable pub leave : Socket → Socket
unfolding cancel_inflight
leave s = record (cancel_inflight s) { phase = closed }

unfoldable pub is_current : Socket → Bool
is_current s = eqb s.generation s.my_gen

module _ (py : Python) where
  unfoldable pub guarded_render : Socket → Text → Result Text
  unfolding is_current
  guarded_render s body = if is_current s then render_status_row py body else ok []

-- `if fragment: await websocket.send_text(fragment)`
unfoldable pub send_row : ℕ → Text → Socket → Socket
send_row poll fragment s = record s {
  frames = if is_empty fragment then s.frames else row poll fragment ∷ s.frames;
}

-- `on_message`, and where the consumer stands then.
unfoldable pub guarded_on_reply : Socket → Socket × Stage
unfolding is_current on_reply
guarded_on_reply s =
    let p = s.polls s.state in
    if is_current s
    then (
      record s { polls = write_poll s.state (on_reply p) s.polls },
      if completes p then waiting s.state else ready,
    )
    else (s, ready)

-- The grace is over.
unfoldable pub emit_after_grace : ℕ → Socket → Socket × Stage
unfolding is_current on_timer
emit_after_grace k s =
    if is_current s
    then (record s { polls = write_poll k (on_timer (s.polls k)) s.polls }, waiting k)
    else (s, finished)

-- Behind `emit_sentinel` the consumer goes on, and the timer is done.
abbrev pub after_emit : Kind → Stage
after_emit consumer = ready
after_emit (timer k) = finished

abbrev reported : ℕ → Option Text → List Frame → List Frame
reported k none frames = frames
reported k (some html) frames = sentinel k html ∷ frames

-- The lock of a state is taken; if its sentinel is out, it is given back at once.
unfoldable pub take_lock : ℕ → Kind → Socket → Socket × Stage
unfolding acquire
take_lock k kind s =
    let p = acquire (s.polls k) in
    (
      record s { polls = write_poll k p s.polls; frames = reported k p.sending s.frames },
      if (s.polls k).completed then after_emit kind else sending k,
    )

unfoldable pub sent_sentinel : ℕ → Text → Socket → Socket
unfolding finish
sent_sentinel k html s = record s { polls = write_poll k (finish html (s.polls k)) s.polls }

-- A task ends early, by an exception or since it was cancelled: the lock is given back.
unfoldable pub unwind : Stage → Socket → Socket
unfolding abort give_up
unwind (waiting k) s = record s { polls = write_poll k (give_up (s.polls k)) s.polls }
unwind (sending k) s = record s { polls = write_poll k (abort (s.polls k)) s.polls }
unwind stage s = s
