-- ===== src/Backend/Poll/Latch.antt =====
-- At most one sentinel is sent, and it says what had been received by then.
use test_orch.Base.{
  ℕ, ◌+◌, ◌++◌, if◌then◌else◌, not, ◌&&◌, eqb, leb, is_nil, sym, subst, ◌≤◌, ◌≡◌, refl, Bool, true,
  false, List, [], ◌∷◌, Option, none, some, arith, ◌-◌, Bool-cases, inl, inr, ap,
}
use test_orch.Base.Text.{Text}
use test_orch.Backend.Render.{render_sentinel}
use test_orch.Backend.Poll.{
  PollState, init, on_reply, on_timer, acquire, finish, abort, give_up, Step, reply, timer, lock,
  done, fail, cancel, Reach, start, next,
}

-- The fragment reports some count that is not above `received`.
pub record IsReport (received total : ℕ) (fragment : Text) : Type 0 where
  pub count : ℕ
  pub bound : count ≤ received
  pub text : fragment ≡ render_sentinel count total

-- What is on its way is a report.
abbrev SendingReport : ℕ → ℕ → Option Text → Type 0
SendingReport received total none = Unit
SendingReport received total (some f) = IsReport received total f

-- Nothing has been sent, or one report.
abbrev pub AtMostOneReport : ℕ → ℕ → List Text → Type 0
AtMostOneReport received total [] = Unit
AtMostOneReport received total (f ∷ []) = IsReport received total f
AtMostOneReport received total (f ∷ g ∷ fs) = ⊥

IsReport-weaken : {m n total : ℕ} {f : Text} → m ≤ n → IsReport m total f → IsReport n total f
IsReport-weaken {m} le v = record {
  count = v.count;
  bound = (let b : v.count ≤ m = v.bound in omega arith);
  text = v.text;
}

SendingReport-weaken :
    (m n total : ℕ) (o : Option Text) → m ≤ n → SendingReport m total o → SendingReport n total o
SendingReport-weaken m n total none le v = tt
SendingReport-weaken m n total (some f) le v = IsReport-weaken le v

AtMostOneReport-weaken :
    (m n total : ℕ) (fs : List Text)
    → m ≤ n
    → AtMostOneReport m total fs
    → AtMostOneReport n total fs
AtMostOneReport-weaken m n total [] le v = tt
AtMostOneReport-weaken m n total (f ∷ []) le v = IsReport-weaken le v
AtMostOneReport-weaken m n total (f ∷ g ∷ fs) le v = v

record Inv (total : ℕ) (s : PollState) : Type 0 where
  same : s.total ≡ total
  open_latch : s.completed ≡ false → s.sent ≡ []
  closed_latch : s.completed ≡ true → s.sending ≡ none
  latched : s.completed ≡ true → is_nil s.sent ≡ false
  way : SendingReport s.received total s.sending
  out : AtMostOneReport s.received total s.sent

init-Inv : (total : ℕ) → Inv total (init total)
unfolding init
init-Inv total = record {
  same = refl;
  open_latch = λ _. refl;
  closed_latch = λ _. refl;
  latched = λ e. cc;
  way = tt;
  out = tt;
}

-- More replies and other waiting tasks leave what was reported true.
Inv-more :
    {total : ℕ} (s : PollState) (n w : ℕ)
    → s.received ≤ n
    → Inv total s
    → Inv total (record s { received = n; waiting = w })
Inv-more {total} s n w le v = record {
  same = v.same;
  open_latch = v.open_latch;
  closed_latch = v.closed_latch;
  latched = v.latched;
  way = SendingReport-weaken _ _ total s.sending le v.way;
  out = AtMostOneReport-weaken _ _ total s.sent le v.out;
}

Inv-if :
    {total : ℕ} (b : Bool) {t u : PollState}
    → (b ≡ true → Inv total t)
    → (b ≡ false → Inv total u)
    → Inv total (if b then t else u)
Inv-if true on off = on refl
Inv-if false on off = off refl

acquire-Inv : {total : ℕ} (s : PollState) → Inv total s → Inv total (acquire s)
unfolding acquire
acquire-Inv {total} s v =
    Inv-if s.completed (λ _. Inv-more s s.received (s.waiting - 1) (omega arith) v)
      (λ opened. record {
        same = v.same;
        open_latch = v.open_latch;
        closed_latch = λ shut. cc;
        latched = v.latched;
        way = record {
          count = s.received;
          bound = omega arith;
          text = ap (render_sentinel s.received) v.same;
        };
        out = v.out;
      })

finish-Inv :
    {total : ℕ} (s : PollState) (f : Text)
    → s.sending ≡ some f
    → Inv total s
    → Inv total (finish f s)
unfolding finish
finish-Inv {total} s f h v =
    let unsent : s.sent ≡ [] = elim (Bool-cases s.completed) [
      | inl shut ↦ (let k : s.sending ≡ none = v.closed_latch shut in cc)
      | inr opened ↦ v.open_latch opened
    ] in
    record {
      same = v.same;
      open_latch = λ e. cc;
      closed_latch = λ _. refl;
      latched = λ _. rw unsent refl;
      way = tt;
      out =
          subst (λ fs. AtMostOneReport s.received total (fs ++ (f ∷ []))) (sym unsent)
            (subst (SendingReport s.received total) h v.way);
    }

Step-Inv : {total : ℕ} {s t : PollState} → Step s t → Inv total s → Inv total t
Step-Inv (reply s) v =
    unfold on_reply in
    Inv-if (not (eqb s.total 0) && leb s.total (s.received + 1))
      (λ _. Inv-more s (s.received + 1) (s.waiting + 1) (omega arith) v)
      (λ _. Inv-more s (s.received + 1) s.waiting (omega arith) v)
Step-Inv (timer s) v = unfold on_timer in Inv-more s s.received (s.waiting + 1) (omega arith) v
Step-Inv (lock s h k) v = acquire-Inv s v
Step-Inv (done s f h) v = finish-Inv s f h v
Step-Inv (fail s f h) v =
    unfold abort in
    record {
      same = v.same;
      open_latch = v.open_latch;
      closed_latch = λ _. refl;
      latched = v.latched;
      way = tt;
      out = v.out;
    }
Step-Inv (cancel s h) v = unfold give_up in Inv-more s s.received (s.waiting - 1) (omega arith) v

Reach-Inv : {total : ℕ} {s : PollState} → Reach total s → Inv total s
Reach-Inv {total} start = init-Inv total
Reach-Inv (next r x) = Step-Inv x (Reach-Inv r)

-- In every state that the interleavings of a poll reach, no sentinel or exactly one has been sent,
-- and that one reports a number of replies that does not exceed the replies received so far.
pub sends-AtMostOneReport :
    {total : ℕ} {s : PollState} → Reach total s → AtMostOneReport s.received total s.sent
sends-AtMostOneReport r = (Reach-Inv r).out

-- The number of hosts stays.
pub Reach-total : {total : ℕ} {s : PollState} → Reach total s → s.total ≡ total
Reach-total r = (Reach-Inv r).same

-- Once the latch is set, something has been sent.
pub Reach-latched :
    {total : ℕ} {s : PollState} → Reach total s → s.completed ≡ true → is_nil s.sent ≡ false
Reach-latched r = (Reach-Inv r).latched
