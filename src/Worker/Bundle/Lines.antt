-- ===== src/Worker/Bundle/Lines.antt =====
-- The lines of a run on their way to the browsers: `_consume_fanout` of backend/main.py behind the
-- loop of worker/tasks.py.
use mathlib.Core.List.{reverse, reverse-cons, append_assoc}
use test_orch.Base.{
  true, Option-cases, ℕ, suc, ◌≡◌, refl, sym, subst, ap, ◌∙◌, ◌⊎◌, inl, inr, List, [], ◌∷◌, ◌++◌,
  take, arith, ◌==◌, ==_refl, if◌then◌else◌,
}
use test_orch.Base.Text.{Text, text, text_eq}
use test_orch.Base.Int.{pos}
use test_orch.Base.Result.{Result, ok, err, Exception}
use test_orch.Shared.Value.{Value, str, int}
use test_orch.Backend.Effects.{
  World, Event, amqp_connect, amqp_close, declare_exchange, publish, influx_write, lift, call,
  next_line, >>=-Post, ◌>>=◌,
}
use test_orch.Backend.Influx.{write_line}
use test_orch.Worker.Machine.{Machine}
use test_orch.Worker.Broker.{publish_fanout, publish_log_line}
use test_orch.Worker.Bundle.{checkpoint, handle_line, stream}

-- The messages for an exchange that were handed to the broker, the newest first.
abbrev pub bodies : Text → List Event → List Text
bodies exchange [] = []
bodies exchange (publish name body ∷ calls) =
    let rest = bodies exchange calls in if name == exchange then body ∷ rest else rest
bodies exchange (event ∷ calls) = bodies exchange calls

module _ (show : Value → Text) (m : Machine) (test_id : Text) where
  abbrev lines_of : List Event → List Text
  lines_of calls = bodies (text "test_logs." ++ test_id) calls

  -- Publishes nothing for the run.
  record Silent {A : Type 0} (a : World → Result A × World) : Type 0 where
    quiet : (w : World) → lines_of (a w).1.calls ≡ lines_of w.calls

  Silent-lift : {A : Type 0} (r : Result A) → Silent (lift r)
  Silent-lift r = record { quiet = λ w. refl }

  Silent-call :
      (event : Event)
      → ((calls : List Event) → lines_of (event ∷ calls) ≡ lines_of calls)
      → Silent (call m.env event)
  Silent-call event other = record { quiet = λ w. ground (arith, other w.calls) }

  Silent->>= :
      {A B : Type 0} (a : World → Result A × World) (f : A → World → Result B × World)
      → Silent a
      → ((x : A) → Silent (f x))
      → Silent (a >>= f)
  Silent->>= a f h k = record {
    quiet = λ w.
        >>=-Post (λ p. lines_of p.1.calls ≡ lines_of w.calls) a f w (λ e _. h.quiet w)
          (λ x _. (k x).quiet (a w).1 ∙ h.quiet w);
  }

  Silent-influx_write :
      (id : Text) (n : ℕ) (line : Text) → Silent (call m.env (influx_write id n line))
  Silent-influx_write id n line = Silent-call (influx_write id n line) (λ calls. refl)

  Silent-write_line :
      (line_no content : Value) → Silent (write_line m.env (str test_id) line_no content)
  unfolding write_line
  Silent-write_line line_no content = search (Silent->>=, Silent-lift, Silent-influx_write)

  Silent-checkpoint : (line_no : ℕ) (line : Text) → Silent (checkpoint show m test_id line_no line)
  unfolding checkpoint
  Silent-checkpoint line_no line = record { quiet = λ w. ground arith }

  -- A line is handed over once; where an exception ends the loop, perhaps not.
  abbrev Handed : List Text → Text → Result (Unit {0}) × World → Type 0
  Handed old line (ok u, w) = lines_of w.calls ≡ line ∷ old
  Handed old line (err e, w) = (lines_of w.calls ≡ old) ⊎ (lines_of w.calls ≡ line ∷ old)

  publish-cases :
      (line : Text) (w : World)
      → let after = publish_log_line m.env test_id line w in
        (lines_of after.1.calls ≡ line ∷ lines_of w.calls)
        ⊎ ((e : Exception) × (after.0 ≡ err e) × (lines_of after.1.calls ≡ lines_of w.calls))
  unfolding publish_log_line publish_fanout
  publish-cases line w =
      let name = text "test_logs." ++ test_id in
      let asked = amqp_connect ∷ w.calls in
      let declared = declare_exchange name ∷ asked in
      let same : (name == name) ≡ true = ==_refl name in
      elim (Option-cases (m.env w.calls amqp_connect)) [
        | inr (e, fails) ↦ inr (e, ground (arith, fails), ground (arith, fails))
        | inl connects ↦ elim (Option-cases (m.env asked (declare_exchange name))) [
          | inr (e, fails) ↦ elim (Option-cases (m.env declared amqp_close)) [
            | inl closes ↦ inr (
              e,
              ground (arith, connects, fails, closes),
              ground (arith, connects, fails, closes),
            )
            | inr (e', stuck) ↦
                inr (
                  e',
                  ground (arith, connects, fails, stuck),
                  ground (arith, connects, fails, stuck),
                )
          ]
          | inl declares ↦ inl (ground (arith, connects, declares, same))
        ]
      ]

  Handed-of :
      (old : List Text) (line : Text) (p : Result (Unit {0}) × World)
      → lines_of p.1.calls ≡ line ∷ old
      → Handed old line p
  Handed-of old line (ok u, w) h = h
  Handed-of old line (err e, w) h = inr h

  Handed-ok :
      (old : List Text) (line : Text) (p : Result (Unit {0}) × World)
      → p.0 ≡ ok tt
      → Handed old line p
      → lines_of p.1.calls ≡ line ∷ old
  Handed-ok old line (ok u, w) done h = h
  Handed-ok old line (err e, w) done h = ground (arith, done)

  Handed-err :
      (old : List Text) (line : Text) (p : Result (Unit {0}) × World) (e : Exception)
      → p.0 ≡ err e
      → Handed old line p
      → (lines_of p.1.calls ≡ old) ⊎ (lines_of p.1.calls ≡ line ∷ old)
  Handed-err old line (ok u, w) e fails h = ground (arith, fails)
  Handed-err old line (err e', w) e fails h = h

  checkpointed :
      (line_no : ℕ) (line : Text) (w : World) (old : List Text)
      → lines_of w.calls ≡ line ∷ old
      → Handed old line (checkpoint show m test_id line_no line w)
  checkpointed line_no line w old handed =
      Handed-of old line (checkpoint show m test_id line_no line w)
        ((Silent-checkpoint line_no line).quiet w ∙ handed)

  handle_line-Handed :
      (line_no : ℕ) (line : Text) (w : World)
      → Handed (lines_of w.calls) line (handle_line show m test_id line_no line w)
  unfolding handle_line
  handle_line-Handed line_no line w =
      let written = write_line m.env (str test_id) (int (pos line_no)) (str line) in
      let quiet = (Silent-write_line (int (pos line_no)) (str line)).quiet w in
      let w1 = (written w).1 in
      >>=-Post (Handed (lines_of w.calls) line) written _ w (λ e _. inl quiet)
        λ _ _.
          >>=-Post (Handed (lines_of w.calls) line) (publish_log_line m.env test_id line) _ w1
            (λ e fails. elim (publish-cases line w1) [
              | inl handed ↦ inr (handed ∙ ap (λ t. line ∷ t) quiet)
              | inr (_, _, kept) ↦ inl (kept ∙ quiet)
            ])
            λ _ done. elim (publish-cases line w1) [
              | inl handed ↦
                  checkpointed line_no line (publish_log_line m.env test_id line w1).1
                    (lines_of w.calls) (handed ∙ ap (λ t. line ∷ t) quiet)
              | inr (_, fails, _) ↦ ground (arith, done, fails)
            ]

  -- What the loop has handed over, when it returns and when it raises.
  abbrev pub Streamed : List Text → List Text → Result (Unit {0}) × World → Type 0
  Streamed old lines (ok u, w) = lines_of w.calls ≡ reverse lines ++ old
  Streamed old lines (err e, w) = (k : ℕ) × (lines_of w.calls ≡ reverse (take k lines) ++ old)

  reverse-append-cons :
      (line : Text) (lines old : List Text)
      → reverse lines ++ (line ∷ old) ≡ reverse (line ∷ lines) ++ old
  reverse-append-cons line lines old = sym (
      ap (λ ls. ls ++ old) (reverse-cons line lines) ∙ append_assoc (reverse lines) (line ∷ []) old)

  Streamed-cons :
      (line : Text) (lines old : List Text) (p : Result (Unit {0}) × World)
      → Streamed (line ∷ old) lines p
      → Streamed old (line ∷ lines) p
  Streamed-cons line lines old (ok u, w) h = h ∙ reverse-append-cons line lines old
  Streamed-cons line lines old (err e, w) (k, h) =
      (suc k, h ∙ reverse-append-cons line (take k lines) old)

  Streamed-none :
      (old : List Text) (p : Result (Unit {0}) × World)
      → lines_of p.1.calls ≡ old
      → Streamed old [] p
  Streamed-none old (ok u, w) h = h
  Streamed-none old (err e, w) h = (0, h)

  Silent-next_line : Silent (call m.env next_line)
  Silent-next_line = Silent-call next_line (λ calls. refl)

  -- The lines of the container are handed to the broker in their order, each once: all of them if the
  -- loop returns, and those up to some point if it raises, whatever fails.
  pub stream-Streamed :
      (line_no : ℕ) (lines : List Text) (w : World)
      → Streamed (lines_of w.calls) lines (stream show m test_id line_no lines w)
  unfolding stream
  stream-Streamed line_no [] w =
      Streamed-none (lines_of w.calls) (call m.env next_line w) (Silent-next_line.quiet w)
  stream-Streamed line_no (line ∷ lines) w =
      let old = lines_of w.calls in
      let asked = (call m.env next_line w).1 in
      let quiet = Silent-next_line.quiet w in
      let step = handle_line show m test_id line_no line in
      let handed = handle_line-Handed line_no line asked in
      >>=-Post (Streamed old (line ∷ lines)) (call m.env next_line) _ w (λ e _. (0, quiet))
        λ _ _.
          >>=-Post (Streamed old (line ∷ lines)) step _ asked
            (λ e fails. elim (Handed-err (lines_of asked.calls) line (step asked) e fails handed) [
              | inl same ↦ (0, same ∙ quiet)
              | inr one ↦ (1, one ∙ ap (λ ls. line ∷ ls) quiet)
            ])
            λ _ done.
              let after = (step asked).1 in
              let now : lines_of after.calls ≡ line ∷ old =
                Handed-ok (lines_of asked.calls) line (step asked) done handed
                ∙ ap (λ ls. line ∷ ls) quiet in
              Streamed-cons line lines old (stream show m test_id (suc line_no) lines after) (
                subst (λ o. Streamed o lines (stream show m test_id (suc line_no) lines after)) now
                  (stream-Streamed (suc line_no) lines after))
