-- ===== src/Backend/Poll/Socket/Latches.antt =====
-- Each poll of an admin channel is a poll of its own: its state goes through steps of the latch.
use test_orch.Base.{
  Option-cases, ◌⊎◌, ◌-◌, ℕ, zero, suc, ◌≡◌, refl, sym, subst, eqb, arith, inl, inr, Bool-cases,
}
use test_orch.Backend.Render.Row.{Python}
use test_orch.Backend.Poll.{
  PollState, on_reply, on_timer, acquire, finish, abort, give_up, Reach, start, next, reply, timer,
  lock, done, fail, cancel,
}
use test_orch.Backend.Poll.Latch.{AtMostOneReport, sends-AtMostOneReport, Reach-total}
use test_orch.Backend.Poll.Socket.{
  Socket, write_poll, Stage, opened, is_current, waiting, sending, ready, rendered, finished,
  begin_poll, cancel_inflight, clear_table, hide_sentinel, listen, set_timer, leave, send_row,
  guarded_on_reply, emit_after_grace, take_lock, sent_sentinel, unwind,
}
use test_orch.Backend.Poll.Socket.Steps as Steps

abbrev Latched : PollState → Type 0
Latched p = (total : ℕ) × Reach total p

write_poll-Latched :
    (k : ℕ) (p : PollState) (polls : ℕ → PollState)
    → Latched p
    → ((j : ℕ) → Latched (polls j))
    → (j : ℕ) → Latched (write_poll k p polls j)
write_poll-Latched k p polls new old j = elim (Bool-cases (eqb j k)) [
  | inl same ↦ rw same new
  | inr other ↦ rw other (old j)
]

ℕ-cases : (n : ℕ) → (n ≡ 0) ⊎ ((m : ℕ) × (n ≡ suc m))
ℕ-cases zero = inl refl
ℕ-cases (suc m) = inr (m, refl)

give_up-Latched : (p : PollState) → Latched p → Latched (give_up p)
unfolding give_up
give_up-Latched p (total, r) = elim (ℕ-cases p.waiting) [
  | inl nobody ↦
      let same : p.waiting ≡ p.waiting - 1 = omega (arith, nobody) in
      subst (λ n. Latched (record p { waiting = n })) same (total, r)
  | inr (m, somebody) ↦ (total, next r (cancel p somebody))
]

abort-Latched : (p : PollState) → Latched p → Latched (abort p)
unfolding abort
abort-Latched p (total, r) = elim (Option-cases p.sending) [
  | inl free ↦ subst (λ o. Latched (record p { sending = o })) free (total, r)
  | inr (html, held) ↦ (total, next r (fail p html held))
]

unwind-Latched :
    (stage : Stage) (s : Socket)
    → ((j : ℕ) → Latched (s.polls j))
    → (j : ℕ) → Latched ((unwind stage s).polls j)
unfolding unwind
unwind-Latched (waiting k) s v =
    write_poll-Latched k (give_up (s.polls k)) s.polls (give_up-Latched (s.polls k) (v k)) v
unwind-Latched (sending k) s v =
    write_poll-Latched k (abort (s.polls k)) s.polls (abort-Latched (s.polls k) (v k)) v
unwind-Latched ready s v = v
unwind-Latched rendered s v = v
unwind-Latched finished s v = v

guarded_on_reply-Latched :
    (s : Socket)
    → ((j : ℕ) → Latched (s.polls j))
    → (j : ℕ) → Latched ((guarded_on_reply s).0.polls j)
unfolding guarded_on_reply
guarded_on_reply-Latched s v = elim (Bool-cases (is_current s)) [
  | inl current ↦
      let (total, r) = v s.state in
      unfold is_current in
      rw current (
        write_poll-Latched s.state (on_reply (s.polls s.state)) s.polls
          (total, next r (reply (s.polls s.state))) v)
  | inr stale ↦ unfold is_current in rw stale v
]

emit_after_grace-Latched :
    (k : ℕ) (s : Socket)
    → ((j : ℕ) → Latched (s.polls j))
    → (j : ℕ) → Latched ((emit_after_grace k s).0.polls j)
unfolding emit_after_grace
emit_after_grace-Latched k s v = elim (Bool-cases (is_current s)) [
  | inl current ↦
      let (total, r) = v k in
      unfold is_current in
      rw current
        (write_poll-Latched k (on_timer (s.polls k)) s.polls (total, next r (timer (s.polls k))) v)
  | inr stale ↦ unfold is_current in rw stale v
]

module _ (py : Python) where
  Step-Latched :
      {s t : Socket}
      → Steps.Step py s t
      → ((j : ℕ) → Latched (s.polls j))
      → (j : ℕ) → Latched (t.polls j)
  unfolding begin_poll cancel_inflight clear_table hide_sentinel listen set_timer leave send_row
      take_lock sent_sentinel
  Step-Latched (Steps.poll s p) v = v
  Step-Latched (Steps.read s hosts p) v = v
  Step-Latched (Steps.hide s hosts p) v = v
  Step-Latched (Steps.bind s hosts p) v = write_poll-Latched s.generation _ s.polls (_, start) v
  Step-Latched (Steps.ask s hosts p) v = v
  Step-Latched (Steps.quit s) v = v
  Step-Latched (Steps.reply s n body fragment shown moved) v = v
  Step-Latched (Steps.count s n moved) v = guarded_on_reply-Latched s v
  Step-Latched (Steps.wake s k n moved) v = emit_after_grace-Latched k s v
  Step-Latched (Steps.lock s kind k n some_wait free moved) v =
      let (total, r) = v k in
      write_poll-Latched k (acquire (s.polls k)) s.polls
        (total, next r (lock (s.polls k) some_wait free)) v
  Step-Latched (Steps.sent s kind k n html out moved) v =
      let (total, r) = v k in
      write_poll-Latched k (finish html (s.polls k)) s.polls
        (total, next r (done (s.polls k) html out)) v
  Step-Latched (Steps.fail s t moved) v = unwind-Latched t.stage s v

  Reach-Latched : {s : Socket} → Steps.Reach py s → (j : ℕ) → Latched (s.polls j)
  unfolding opened
  Reach-Latched Steps.start = λ j. (0, start)
  Reach-Latched (Steps.next r step) = Step-Latched step (Reach-Latched r)

  -- On an admin channel, however its tasks interleave, and whatever fails, every poll sends at most one
  -- sentinel, which reports at most the replies that have been counted, out of the poll's hosts.
  pub polls-AtMostOneReport :
      (s : Socket) (k : ℕ)
      → Steps.Reach py s
      → AtMostOneReport (s.polls k).received (s.polls k).total (s.polls k).sent
  polls-AtMostOneReport s k r =
      let (total, latched) = Reach-Latched r k in
      subst (λ n. AtMostOneReport (s.polls k).received n (s.polls k).sent)
        (sym (Reach-total latched)) (sends-AtMostOneReport latched)
