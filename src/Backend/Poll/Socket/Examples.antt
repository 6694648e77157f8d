-- ===== src/Backend/Poll/Socket/Examples.antt =====
-- A poll of one host, which replies, and a second poll.
use test_orch.Base.{◌≡◌, refl, true, false, List, [], ◌∷◌, some}
use test_orch.Base.Text.{Text, text, text_eq, replace}
use test_orch.Base.Result.{ok}
use test_orch.Shared.Value.{dict, str, field, end}
use test_orch.Backend.Render.{render_sentinel, escape}
use test_orch.Backend.Render.Row.{Python, render_status_row}
use test_orch.Backend.Poll.{init, on_reply, on_timer, acquire, finish}
use test_orch.Backend.Poll.Latch.{AtMostOneReport}
use test_orch.Backend.Poll.Socket.{
  consumer, timer, receiving, ready, rendered, waiting, sending, Task, Socket, opened,
  cancel_inflight, begin_poll, clear_table, hide_sentinel, listen, set_timer, is_current,
  guarded_render, send_row, guarded_on_reply, take_lock, sent_sentinel,
}
use test_orch.Backend.Poll.Socket.Steps.{
  here, there, task, with_tasks, Reach, start, next, poll, read, hide, bind, ask, reply, count,
  lock, sent,
}
use test_orch.Backend.Poll.Socket.Latest.{frames-IsTidy, guards-pass}
use test_orch.Backend.Poll.Socket.Tasks.{IsTidy}
use test_orch.Backend.Poll.Socket.Latches.{polls-AtMostOneReport}

program : Unit {0}
unfolding opened cancel_inflight begin_poll clear_table hide_sentinel listen set_timer is_current
    guarded_render send_row guarded_on_reply take_lock sent_sentinel init on_reply on_timer acquire
    finish render_status_row escape replace text_eq
program = tt

abbrev py : Python
py = record {
  dumps = λ fields. text "{}";
  loads = λ body. some (dict (field (text "host_id") (str (text "a")) end));
  fixed = λ d x. text "0";
  fixed_int = λ d n. ok (text "0");
  show = λ v. text "0";
}

abbrev shown : Text
shown =
    text
      "<tbody id=\"host-status-results\" hx-swap-oob=\"beforeend\"><tr><td>a</td><td>0</td><td>0 / 0</td><td>0 / 0</td><td>0</td></tr></tbody>"

abbrev hosts : List Text
hosts = text "a" ∷ []

-- The poll, up to the start of its timer.
abbrev asked : Socket → Socket
asked s = set_timer (listen hosts (hide_sentinel hosts (clear_table hosts (begin_poll s))))

abbrev asks : Task
asks = record { kind = timer 1; poll = 1; stage = ready; cancelled = false }

abbrev row_sent : Socket
row_sent = with_tasks (send_row 1 shown (asked opened)) (asks ∷ task consumer 1 rendered ∷ [])

abbrev counted : Socket
counted = with_tasks (guarded_on_reply row_sent).0 (asks ∷ task consumer 1 (waiting 1) ∷ [])

abbrev reporting : Socket
reporting = with_tasks (take_lock 1 consumer counted).0 (asks ∷ task consumer 1 (sending 1) ∷ [])

abbrev reported : Socket
reported =
    with_tasks (sent_sentinel 1 (render_sentinel 1 1) reporting) (asks ∷ task consumer 1 ready ∷ [])

asked-Reach : (s : Socket) → Reach py s → s.phase ≡ receiving → Reach py (asked s)
unfolding begin_poll clear_table hide_sentinel listen set_timer
asked-Reach s r free =
    next
      (next
        (next (next (next r (poll s free)) (read (begin_poll s) hosts refl))
          (hide (clear_table hosts (begin_poll s)) hosts refl))
        (bind (hide_sentinel hosts (clear_table hosts (begin_poll s))) hosts refl))
      (ask (listen hosts (hide_sentinel hosts (clear_table hosts (begin_poll s)))) hosts refl)

reported-Reach : Reach py reported
unfolding program
reported-Reach =
    next
      (next
        (next
          (next (asked-Reach opened start refl)
            (reply (asked opened) 1 (text "{}") shown refl (there asks (here []))))
          (count row_sent 1 (there asks (here []))))
        (lock counted consumer 1 1 {m = 0} refl refl (there asks (here []))))
      (sent reporting consumer 1 1 (render_sentinel 1 1) refl (there asks (here [])))

-- The second poll cancels what is left of the first.
abbrev again : Socket
again = asked reported

again-Reach : Reach py again
again-Reach = asked-Reach reported reported-Reach (unfold program in refl)

frames-IsTidy_example : IsTidy again.frames
frames-IsTidy_example = frames-IsTidy py again again-Reach

guards-pass_example :
    (is_current again ≡ true)
    × (guarded_render py again (text "{}") ≡ render_status_row py (text "{}"))
    × ((guarded_on_reply again).0.polls again.state ≡ on_reply (again.polls again.state))
guards-pass_example = guards-pass py again (text "{}") again-Reach

polls-AtMostOneReport_example :
    AtMostOneReport (again.polls 1).received (again.polls 1).total (again.polls 1).sent
polls-AtMostOneReport_example = polls-AtMostOneReport py again 1 again-Reach
