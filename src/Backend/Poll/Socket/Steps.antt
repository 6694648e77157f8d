-- ===== src/Backend/Poll/Socket/Steps.antt =====
-- The interleavings of the tasks of one admin channel.
use test_orch.Base.{ℕ, suc, ◌≡◌, false, List, ◌∷◌, none, some}
use test_orch.Base.Text.{Text}
use test_orch.Base.Result.{ok}
use test_orch.Backend.Render.Row.{Python}
use test_orch.Backend.Poll.Socket.{
  Kind, Stage, Task, Socket, opened, begin_poll, clear_table, hide_sentinel, listen, set_timer,
  leave, guarded_render, send_row, guarded_on_reply, emit_after_grace, after_emit, take_lock,
  sent_sentinel, unwind, consumer, timer, ready, rendered, finished, waiting, sending, receiving,
  reading, clearing, hiding, binding,
}

-- One task of the list moves on.
pub data Moved (t t' : Task) : List Task → List Task → Type 0 where
  here : (rest : List Task) → Moved t t' (t ∷ rest) (t' ∷ rest)
  there : (u : Task) {xs ys : List Task} → Moved t t' xs ys → Moved t t' (u ∷ xs) (u ∷ ys)

-- A task as it was created, and its stage; the socket that its code leaves, and the stage then.
abbrev pub task : Kind → ℕ → Stage → Task
task kind poll stage = record { kind = kind; poll = poll; stage = stage; cancelled = false }

abbrev pub with_tasks : Socket → List Task → Socket
with_tasks s after = record s { tasks = after }

module _ (py : Python) where
  -- The interleavings. `ask` comes after the tasks for the hosts have been sent. Any task may end by
  -- an exception wherever it waits; a cancelled one does nothing else.
  pub data Step : Socket → Socket → Type 0 where
    poll : (s : Socket) → s.phase ≡ receiving → Step s (begin_poll s)
    read : (s : Socket) (host_ids : List Text) → s.phase ≡ reading → Step s (clear_table host_ids s)
    hide :
        (s : Socket) (host_ids : List Text)
        → s.phase ≡ clearing host_ids
        → Step s (hide_sentinel host_ids s)
    bind :
        (s : Socket) (host_ids : List Text) → s.phase ≡ hiding host_ids → Step s (listen host_ids s)
    ask : (s : Socket) (host_ids : List Text) → s.phase ≡ binding host_ids → Step s (set_timer s)
    quit : (s : Socket) → Step s (leave s)
    reply :
        (s : Socket) (n : ℕ) (body fragment : Text) {after : List Task}
        → guarded_render py s body ≡ ok fragment
        → Moved (task consumer n ready) (task consumer n rendered) s.tasks after
        → Step s (with_tasks (send_row n fragment s) after)
    count :
        (s : Socket) (n : ℕ) {after : List Task}
        → Moved (task consumer n rendered) (task consumer n (guarded_on_reply s).1) s.tasks after
        → Step s (with_tasks (guarded_on_reply s).0 after)
    wake :
        (s : Socket) (k n : ℕ) {after : List Task}
        → Moved (task (timer k) n ready) (task (timer k) n (emit_after_grace k s).1) s.tasks after
        → Step s (with_tasks (emit_after_grace k s).0 after)
    lock :
        (s : Socket) (kind : Kind) (k n : ℕ) {m : ℕ} {after : List Task}
        → (s.polls k).waiting ≡ suc m
        → (s.polls k).sending ≡ none
        → Moved (task kind n (waiting k)) (task kind n (take_lock k kind s).1) s.tasks after
        → Step s (with_tasks (take_lock k kind s).0 after)
    sent :
        (s : Socket) (kind : Kind) (k n : ℕ) (html : Text) {after : List Task}
        → (s.polls k).sending ≡ some html
        → Moved (task kind n (sending k)) (task kind n (after_emit kind)) s.tasks after
        → Step s (with_tasks (sent_sentinel k html s) after)
    fail :
        (s : Socket) (t : Task) {after : List Task}
        → Moved t (record t { stage = finished }) s.tasks after
        → Step s (with_tasks (unwind t.stage s) after)

  pub data Reach : Socket → Type 0 where
    start : Reach opened
    next : {s t : Socket} → Reach s → Step s t → Reach t
