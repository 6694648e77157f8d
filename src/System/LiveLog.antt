-- ===== src/System/LiveLog.antt =====
-- A run's log, live: the loop of worker/tasks.py over the container's lines, the broker's queue, and
-- the socket of backend/main.py that listens to it.
mod Examples
use mathlib.Core.List.{reverse, reverse-reverse, append-nil}
use test_orch.Base.{
  ℕ, zero, suc, ◌≡◌, refl, sym, ap, ◌∙◌, List, [], ◌∷◌, ◌++◌, map, take, length, arith,
}
use test_orch.Base.Text.{Text, text}
use test_orch.Base.Result.{Result, ok, err, Exception}
use test_orch.Shared.Value.{Value}
use test_orch.Backend.Effects.{World, Environment}
use test_orch.Backend.Routes.Pages.{log_exchange_for, render_line}
use test_orch.Backend.Routes.Pages.Fanout.{
  consume_fanout, sent_texts, AnswersAll, consume_fanout-Sends,
}
use test_orch.Worker.Machine.{Machine}
use test_orch.Worker.Bundle.{stream}
use test_orch.Worker.Bundle.Lines.{bodies, Streamed, stream-Streamed}

take-length : (lines : List Text) → take (length lines) lines ≡ lines
take-length [] = refl
take-length (line ∷ lines) = ap (λ ls. line ∷ ls) (take-length lines)

-- The beginning of a beginning.
take-take : (k n : ℕ) (lines : List Text) → (m : ℕ) × (take k (take n lines) ≡ take m lines)
take-take zero n lines = (0, refl)
take-take (suc k) zero lines = (0, refl)
take-take (suc k) (suc n) [] = (0, refl)
take-take (suc k) (suc n) (line ∷ lines) =
    let (m, same) = take-take k n lines in (suc m, ap (λ ls. line ∷ ls) same)

take-map :
    (f : Text → Text) (k : ℕ) (lines : List Text) → take k (map f lines) ≡ map f (take k lines)
take-map f zero lines = refl
take-map f (suc k) [] = refl
take-map f (suc k) (line ∷ lines) = ap (λ ls. f line ∷ ls) (take-map f k lines)

-- `web` is what the calls of the backend come to, for the socket that listens.
module _ (show : Value → Text) (m : Machine) (web : Environment) (test_id : Text) where
  -- What the browser is sent, if the queue hands over every message of the run in order.
  abbrev pub shown : World → List Text
  shown w =
      let lines = reverse (bodies (log_exchange_for test_id) w.calls) in
      let start : World = record w { calls = [] } in
      sent_texts web
        (consume_fanout web (log_exchange_for test_id) (λ line. ok (render_line line)) lines
          start).1.calls

  -- The outcome for the lines that were published.
  shown-lines :
      (w : World) (lines : List Text)
      → bodies (log_exchange_for test_id) w.calls ≡ reverse lines ++ []
      → (AnswersAll web → shown w ≡ map render_line lines)
        × (k : ℕ) × (shown w ≡ map render_line (take k lines))
  shown-lines w lines h =
      let heard = reverse (bodies (log_exchange_for test_id) w.calls) in
      let same : heard ≡ lines =
        ap reverse (h ∙ append-nil (reverse lines)) ∙ reverse-reverse lines in
      let v = consume_fanout-Sends web (log_exchange_for test_id) heard (record w { calls = [] }) in
      (
        λ all. v.sent ∙ v.all all ∙ ap (map render_line) same,
        v.count,
        v.sent
            ∙ take-map render_line v.count heard
            ∙ ap (λ ls. map render_line (take v.count ls)) same,
      )

  shown-Streamed :
      (lines old : List Text) (p : Result (Unit {0}) × World)
      → old ≡ []
      → Streamed show m test_id old lines p
      → (p.0 ≡ ok tt → AnswersAll web → shown p.1 ≡ map render_line lines)
        × (k : ℕ) × (shown p.1 ≡ map render_line (take k lines))
  unfolding log_exchange_for
  shown-Streamed lines old (ok u, w) fresh h =
      let (all, k, first) = shown-lines w lines (h ∙ ap (λ o. reverse lines ++ o) fresh) in
      (λ _. all, k, first)
  shown-Streamed lines old (err e, w) fresh (n, h) =
      let (all, k, first) =
        shown-lines w (take n lines) (h ∙ ap (λ o. reverse (take n lines) ++ o) fresh) in
      let (j, same) = take-take k n lines in
      (λ done. ground (arith, done), j, first ∙ ap (map render_line) same)

  -- A browser that listens from the start is sent the fragments of the container's lines, in their
  -- order, each once: those up to some line, whatever fails in the worker or in the socket, and all
  -- of them if the worker's loop returns and every call of the socket is answered. Nothing was
  -- published for the run before, and the broker hands every message over in order.
  pub stream-shown :
      (lines : List Text) (w : World)
      → bodies (log_exchange_for test_id) w.calls ≡ []
      → let after = stream show m test_id 0 lines w in
        (after.0 ≡ ok tt → AnswersAll web → shown after.1 ≡ map render_line lines)
        × (k : ℕ) × (shown after.1 ≡ map render_line (take k lines))
  unfolding log_exchange_for
  stream-shown lines w fresh =
      shown-Streamed lines _ (stream show m test_id 0 lines w) fresh
        (stream-Streamed show m test_id 0 lines w)
