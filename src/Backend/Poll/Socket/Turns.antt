-- ===== src/Backend/Poll/Socket/Turns.antt =====
-- The moves of the tasks of `ws_admin`, one by one.
use test_orch.Base.{ℕ, ◌≡◌, refl, Bool, List, arith, if◌then◌else◌}
use test_orch.Backend.Poll.{completes, on_reply, on_timer}
use test_orch.Backend.Poll.Socket.{
  Kind, consumer, timer, Stage, ready, rendered, finished, waiting, sending, Task, Socket,
  write_poll, is_current, guarded_on_reply, emit_after_grace, unwind,
}
use test_orch.Backend.Poll.Socket.Steps.{Moved, task, with_tasks}
use test_orch.Backend.Poll.Socket.Tasks.{
  Inv, Live, Moved-at, if-StageOf, is_current-true, move-Inv, staged,
}

-- The end of a task, at whatever stage.
pub unwind-Inv :
    (s : Socket) (kind : Kind) (n : ℕ) (stage : Stage) (gone : Bool) {after : List Task}
    → let t : Task = record { kind = kind; poll = n; stage = stage; cancelled = gone } in
      Moved t (record t { stage = finished }) s.tasks after
      → Inv s
      → Inv (with_tasks (unwind stage s) after)
unfolding unwind
unwind-Inv s kind n (waiting k) gone moved v =
    move-Inv s (unwind (waiting k) s).polls s.frames _ _ moved refl v.tidy (λ acts. ground arith) v
unwind-Inv s kind n (sending k) gone moved v =
    move-Inv s (unwind (sending k) s).polls s.frames _ _ moved refl v.tidy (λ acts. ground arith) v
unwind-Inv s kind n ready gone moved v =
    move-Inv s s.polls s.frames _ _ moved refl v.tidy (λ acts. ground arith) v
unwind-Inv s kind n rendered gone moved v =
    move-Inv s s.polls s.frames _ _ moved refl v.tidy (λ acts. ground arith) v
unwind-Inv s kind n finished gone moved v =
    move-Inv s s.polls s.frames _ _ moved refl v.tidy (λ acts. ground arith) v

-- The guards let every task through.
unfoldable pub counted : (s : Socket) → Socket × Stage
counted s =
    let p = s.polls s.state in
    (
      record s { polls = write_poll s.state (on_reply p) s.polls },
      if completes p then waiting s.state else ready,
    )

pub guarded_on_reply-counted : (s : Socket) → Inv s → guarded_on_reply s ≡ counted s
unfolding guarded_on_reply counted is_current
guarded_on_reply-counted s v = rw (is_current-true s v) refl

pub woken : ℕ → Socket → Socket × Stage
woken k s = (record s { polls = write_poll k (on_timer (s.polls k)) s.polls }, waiting k)

pub emit_after_grace-woken : (k : ℕ) (s : Socket) → Inv s → emit_after_grace k s ≡ woken k s
unfolding emit_after_grace woken is_current
emit_after_grace-woken k s v = rw (is_current-true s v) refl

pub counted-Inv :
    (s : Socket) (n : ℕ) {after : List Task}
    → Moved (task consumer n rendered) (task consumer n (counted s).1) s.tasks after
    → Inv s
    → Inv (with_tasks (counted s).0 after)
unfolding counted
counted-Inv s n moved v =
    let own = Moved-at (Live s) moved v.live refl in
    move-Inv s (counted s).0.polls s.frames _ _ moved refl v.tidy
      (staged s consumer n rendered (counted s).1 own (
        if-StageOf s.generation (completes (s.polls s.state)) (waiting s.state) ready own.state tt))
      v

pub woken-Inv :
    (s : Socket) (k n : ℕ) {after : List Task}
    → Moved (task (timer k) n ready) (task (timer k) n (woken k s).1) s.tasks after
    → Inv s
    → Inv (with_tasks (woken k s).0 after)
unfolding woken
woken-Inv s k n moved v =
    let own = Moved-at (Live s) moved v.live refl in
    move-Inv s (woken k s).0.polls s.frames _ _ moved refl v.tidy
      (staged s (timer k) n ready (waiting k) own own.given) v
