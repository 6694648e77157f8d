-- ===== src/Backend/Poll.antt =====
-- backend/main.py: `_PollState`, which sends the sentinel of a host-status poll once. A
-- step is what one task does between two awaits.
pub mod Latch
pub mod Answer
pub mod Ask
pub mod Socket
mod Examples
use test_orch.Base.{
  ℕ, suc, ◌+◌, ◌-◌, Bool, true, false, not, ◌&&◌, List, [], ◌∷◌, ◌++◌, Option, none, some, leb, ltb,
  eqb, if◌then◌else◌, ◌≡◌,
}
use test_orch.Base.Text.{Text}
use test_orch.Backend.Render.{render_sentinel}

-- `waiting` counts the tasks that have called `emit_sentinel` and have yet to get the lock.
-- `sending` is the fragment that the task with the lock has handed to `send_text`.
pub record PollState : Type 0 where
  pub total : ℕ
  pub received : ℕ
  pub completed : Bool
  pub waiting : ℕ
  pub sending : Option Text
  pub sent : List Text

unfoldable pub init : ℕ → PollState
init total = record {
  total = total;
  received = 0;
  completed = false;
  waiting = 0;
  sending = none;
  sent = [];
}

-- A call of `emit_sentinel`, up to the lock.
abbrev emit : PollState → PollState
emit s = record s { waiting = s.waiting + 1 }

-- `self.total and self.received >= self.total`, with the reply that is being counted.
abbrev pub completes : PollState → Bool
completes s = not (eqb s.total 0) && leb s.total (s.received + 1)

unfoldable pub on_reply : PollState → PollState
on_reply s =
    let s' : PollState = record s { received = s.received + 1 } in
    if completes s then emit s' else s'

-- The grace timer, when its poll is current.
unfoldable pub on_timer : PollState → PollState
on_timer s = emit s

-- A waiting task gets the lock: it returns if the sentinel is out, and sends it otherwise.
unfoldable pub acquire : PollState → PollState
acquire s =
    if s.completed
    then record s { waiting = s.waiting - 1 }
    else record s { waiting = s.waiting - 1; sending = some (render_sentinel s.received s.total) }

-- `send_text` returns: the latch is set, and the lock is released.
unfoldable pub finish : Text → PollState → PollState
finish fragment s = record s { completed = true; sending = none; sent = s.sent ++ (fragment ∷ []) }

-- `send_text` raises, or the task is cancelled in it: only the lock is released.
unfoldable pub abort : PollState → PollState
abort s = record s { sending = none }

-- A task is cancelled while it waits for the lock.
unfoldable pub give_up : PollState → PollState
give_up s = record s { waiting = s.waiting - 1 }

-- The interleavings. Only one task holds the lock.
pub data Step : PollState → PollState → Type 0 where
  reply : (s : PollState) → Step s (on_reply s)
  timer : (s : PollState) → Step s (on_timer s)
  lock : (s : PollState) {n : ℕ} → s.waiting ≡ suc n → s.sending ≡ none → Step s (acquire s)
  done : (s : PollState) (fragment : Text) → s.sending ≡ some fragment → Step s (finish fragment s)
  fail : (s : PollState) (fragment : Text) → s.sending ≡ some fragment → Step s (abort s)
  cancel : (s : PollState) {n : ℕ} → s.waiting ≡ suc n → Step s (give_up s)

pub data Reach (total : ℕ) : PollState → Type 0 where
  start : Reach total (init total)
  next : {s t : PollState} → Reach total s → Step s t → Reach total t
