-- ===== src/Backend/Poll/Answer.antt =====
-- backend/main.py: once every host has answered, the waiting tasks of a poll send its sentinel, with
-- no help from the grace timer.
use test_orch.Base.{
  ℕ, zero, suc, ap, subst, ◌+◌, ◌++◌, is_nil, ◌≢◌, sym, ◌∙◌, ◌≤◌, ◌≡◌, refl, true, false, List, [],
  ◌∷◌, Option-cases, none, some, arith, ◌⊎◌, Bool-cases, inl, inr,
}
use test_orch.Base.Text.{Text}
use test_orch.Backend.Render.{render_sentinel}
use test_orch.Backend.Poll.{PollState, on_reply, acquire, finish, reply, lock, done, Reach, next}
use test_orch.Backend.Poll.Latch.{
  IsReport, AtMostOneReport, sends-AtMostOneReport, Reach-total, Reach-latched,
}

-- The waiting tasks go on, one after the other: no reply arrives, no timer fires, and nothing fails
-- or is cancelled. In every state at most one of the two steps is there.
pub data Works : PollState → PollState → Type 0 where
  rest : (s : PollState) → Works s s
  locked :
      (s : PollState) {t : PollState} {n : ℕ}
      → s.waiting ≡ suc n
      → s.sending ≡ none
      → Works (acquire s) t
      → Works s t
  sent :
      (s : PollState) (fragment : Text) {t : PollState}
      → s.sending ≡ some fragment
      → Works (finish fragment s) t
      → Works s t

Works-Reach : {total : ℕ} {s t : PollState} → Works s t → Reach total s → Reach total t
Works-Reach (rest s) r = r
Works-Reach (locked s w free go) r = Works-Reach go (next r (lock s w free))
Works-Reach (sent s f out go) r = Works-Reach go (next r (done s f out))

is_nil_snoc : (fs : List Text) (f : Text) → is_nil (fs ++ (f ∷ [])) ≡ false
is_nil_snoc [] f = refl
is_nil_snoc (g ∷ fs) f = refl

-- Where the waiting tasks have come to when none is left.
record Idle (n : ℕ) (s t : PollState) : Type 0 where
  works : Works s t
  idle : t.waiting ≡ 0
  free : t.sending ≡ none
  same : t.received ≡ s.received
  out : (is_nil t.sent ≡ false) ⊎ ((n ≡ 0) × (is_nil s.sent ≡ true))

Idle-out : {n : ℕ} {s t : PollState} → is_nil s.sent ≡ false → Idle n s t → is_nil t.sent ≡ false
Idle-out some_out v = elim v.out [ inl k ↦ k | inr (_, k) ↦ cc ]

-- What the lock's next owner does to the counts.
acquire-waiting : {n : ℕ} (s : PollState) → s.waiting ≡ suc n → (acquire s).waiting ≡ n
unfolding acquire
acquire-waiting s w = ground (arith, w)

acquire-received : (s : PollState) → (acquire s).received ≡ s.received
unfolding acquire
acquire-received s = ground arith

-- It hands its fragment to `send_text` if the latch is open, and leaves otherwise.
acquire-open :
    (s : PollState)
    → s.completed ≡ false
    → (acquire s).sending ≡ some (render_sentinel s.received s.total)
unfolding acquire
acquire-open s opened = rw opened refl

acquire-shut :
    (s : PollState)
    → s.completed ≡ true
    → ((acquire s).sending ≡ s.sending) × ((acquire s).sent ≡ s.sent)
unfolding acquire
acquire-shut s shut = rw shut (refl, refl)

run_out :
    {total : ℕ} (n : ℕ) (s : PollState)
    → s.waiting ≡ n
    → s.sending ≡ none
    → Reach total s
    → (t : PollState) × Idle n s t
unfolding finish
run_out zero s w free r = (
  s,
  record {
    works = rest s;
    idle = w;
    free = free;
    same = refl;
    out = elim (Bool-cases (is_nil s.sent)) [ inl none_out ↦ inr (refl, none_out) | inr k ↦ inl k ];
  },
)
run_out (suc n) s w free r = elim (Bool-cases s.completed) [
  | inl shut ↦
      let (left, kept) = acquire-shut s shut in
      let (t, v) =
        run_out n (acquire s) (acquire-waiting s w) (left ∙ free) (next r (lock s w free)) in
      (
        t,
        record {
          works = locked s w free v.works;
          idle = v.idle;
          free = v.free;
          same = v.same ∙ acquire-received s;
          out = inl (Idle-out (ap is_nil kept ∙ Reach-latched r shut) v);
        },
      )
  | inr opened ↦
      let f = render_sentinel s.received s.total in
      let handed = acquire-open s opened in
      let (t, v) =
        run_out n (finish f (acquire s)) (acquire-waiting s w) refl
          (next (next r (lock s w free)) (done (acquire s) f handed)) in
      (
        t,
        record {
          works = locked s w free (sent (acquire s) f handed v.works);
          idle = v.idle;
          free = v.free;
          same = v.same ∙ acquire-received s;
          out = inl (Idle-out (is_nil_snoc (acquire s).sent f) v);
        },
      )
]

suc-ne-zero : (n : ℕ) → suc n ≢ 0
suc-ne-zero n = omega arith

-- With a task that waits, whoever holds the lock, the tasks run to a state with a fragment out.
waiting-Idle :
    {total n : ℕ} (s : PollState)
    → s.waiting ≡ suc n
    → Reach total s
    → (t : PollState) × Works s t
      × (t.waiting ≡ 0)
      × (t.sending ≡ none)
      × (t.received ≡ s.received)
      × (is_nil t.sent ≡ false)
unfolding finish
waiting-Idle {total} {n} s w r = elim (Option-cases s.sending) [
  | inl free ↦
      let (t, v) = run_out (suc n) s w free r in
      (
        t,
        v.works,
        v.idle,
        v.free,
        v.same,
        elim v.out [ inl k ↦ k | inr (h, _) ↦ absurd (suc-ne-zero n h) ],
      )
  | inr (f, out) ↦
      let (t, v) = run_out (suc n) (finish f s) w refl (next r (done s f out)) in
      (t, sent s f out v.works, v.idle, v.free, v.same, Idle-out (is_nil_snoc s.sent f) v)
]

-- A list of fragments that has one is that one.
only_fragment :
    {received total : ℕ} (fs : List Text)
    → is_nil fs ≡ false
    → AtMostOneReport received total fs
    → (f : Text) × (fs ≡ f ∷ []) × IsReport received total f
only_fragment [] h v = cc
only_fragment (f ∷ []) h v = (f, refl, v)
only_fragment (f ∷ g ∷ fs) h v = absurd v

on_reply-counts :
    (s : PollState)
    → s.total ≢ 0
    → s.total ≤ s.received + 1
    → ((on_reply s).waiting ≡ suc s.waiting) × ((on_reply s).received ≡ s.received + 1)
unfolding on_reply
on_reply-counts s some_hosts all_answered = ground arith

-- The reply of the last of the hosts is enough: from whatever state the poll has reached, the
-- waiting tasks that it leaves run, with no further reply, no timer, no failure and no cancellation,
-- to a state in which none waits or sends and exactly one sentinel has been sent, and that one
-- reports a number of replies that does not exceed those received with this one. There are hosts.
pub all_answered-Sends :
    {total : ℕ} {s : PollState}
    → Reach total s
    → total ≢ 0
    → total ≤ s.received + 1
    → (t : PollState) × Works (on_reply s) t
      × (t.waiting ≡ 0)
      × (t.sending ≡ none)
      × (f : Text) × (t.sent ≡ f ∷ [])
      × IsReport (s.received + 1) total f
all_answered-Sends {total} {s} r some_hosts all_answered =
    let same : s.total ≡ total = Reach-total r in
    let (woken, counted) = on_reply-counts s (λ e. some_hosts (sym same ∙ e)) (omega arith) in
    let answered = next r (reply s) in
    let (t, works, idle, free, kept, some_out) = waiting-Idle (on_reply s) woken answered in
    let reports = sends-AtMostOneReport (Works-Reach works answered) in
    let (f, alone, report) =
      only_fragment t.sent some_out
        (subst (λ n. AtMostOneReport n total t.sent) (kept ∙ counted) reports) in
    (t, works, idle, free, f, alone, report)
