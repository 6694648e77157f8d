-- ===== src/Backend/Routes/Pages/Fanout.antt =====
-- backend/main.py: `_consume_fanout`, as the live log of a run uses it, without `on_message` and
-- `ready`.
use mathlib.Core.List.{append_assoc, append-nil}
use test_orch.Base.{
  ℕ, suc, ◌≡◌, refl, sym, ap, ◌∙◌, List, [], ◌∷◌, ◌++◌, map, take, Option, Option-cases, none, some,
  arith, ◌⊎◌, subst, inl, inr,
}
use test_orch.Base.Text.{Text}
use test_orch.Base.Result.{Result, ok, err, Exception}
use test_orch.Backend.Effects.{
  World, Environment, Event, Action, pure, lift, call, try_except, try_finally, amqp_connect,
  amqp_close, open_channel, declare_exchange, declare_queue, bind_queue, send_text, amqp_ack,
  amqp_reject, >>=-Post, ◌>>=◌, ◌>>◌, and_then,
}
use test_orch.Backend.Routes.Pages.{render_line}

module _ (env : Environment) where
  -- `if fragment:`
  unfoldable pub send_fragment : Text → Action (Unit {0})
  send_fragment [] = pure tt
  send_fragment (c ∷ s) = call env (send_text (c ∷ s))

  -- `async with message.process()`: a message is acknowledged, or rejected if its body raises.
  abbrev pub process : Action (Unit {0}) → Action (Unit {0})
  process body = try_except body (λ e. call env amqp_reject >> lift (err e)) >> call env amqp_ack

  -- `async for message in it`
  unfoldable pub deliver : (Text → Result Text) → List Text → Action (Unit {0})
  unfolding send_fragment
  deliver render [] = pure tt
  deliver render (body ∷ bodies) =
      process (lift (render body) >>= send_fragment) >> deliver render bodies

  -- The queue of this socket, bound to the exchange.
  unfoldable pub subscribe : Text → Action (Unit {0})
  subscribe exchange =
      call env open_channel
      >> (call env (declare_exchange exchange)
          >> (call env declare_queue >> call env (bind_queue exchange)))

  -- `bodies` are the messages that the queue hands over. The connection is closed whatever happens.
  unfoldable pub consume_fanout : Text → (Text → Result Text) → List Text → Action (Unit {0})
  unfolding subscribe deliver
  consume_fanout exchange render bodies =
      call env amqp_connect
      >> try_finally (subscribe exchange >> deliver render bodies) (call env amqp_close)

  abbrev after_event : Option Exception → Event → List Text → List Text
  after_event none (send_text fragment) texts = texts ++ (fragment ∷ [])
  after_event _ _ texts = texts

  -- What the browser was sent: the calls of `send_text` that did not raise, the oldest first.
  abbrev pub sent_texts : List Event → List Text
  sent_texts [] = []
  sent_texts (event ∷ calls) =
      let texts = sent_texts calls in after_event (env calls event) event texts

  -- Every call is answered.
  abbrev pub AnswersAll : Type 0
  AnswersAll = (calls : List Event) (event : Event) → env calls event ≡ none

  unanswered :
      (calls : List Event) (event : Event) (e : Exception)
      → env calls event ≡ some e
      → AnswersAll
      → ⊥
  unanswered calls event e fails all =
      (let answered : env calls event ≡ none = all calls event in cc)

  -- Sends nothing.
  record Mute (a : Action (Unit {0})) : Type 0 where
    mute : (w : World) → sent_texts (a w).1.calls ≡ sent_texts w.calls

  Mute-call :
      (event : Event)
      → ((o : Option Exception) (texts : List Text) → after_event o event texts ≡ texts)
      → Mute (call env event)
  Mute-call event silent = record {
    mute = λ w. ground (arith, silent (env w.calls event) (sent_texts w.calls));
  }

  Mute->> : (a b : Action (Unit {0})) → Mute a → Mute b → Mute (a >> b)
  Mute->> a b h k = record {
    mute = λ w.
        >>=-Post (λ p. sent_texts p.1.calls ≡ sent_texts w.calls) a (λ u. b) w (λ e _. h.mute w)
          (λ u _. k.mute (a w).1 ∙ h.mute w);
  }

  subscribe-Mute : (exchange : Text) → Mute (subscribe exchange)
  unfolding subscribe
  subscribe-Mute exchange =
      Mute->> (call env open_channel) _ (Mute-call open_channel (λ o texts. ground arith)) (
        Mute->> (call env (declare_exchange exchange)) _
          (Mute-call (declare_exchange exchange) (λ o texts. ground arith))
          (Mute->> (call env declare_queue) _ (Mute-call declare_queue (λ o texts. ground arith))
            (Mute-call (bind_queue exchange) (λ o texts. ground arith))))

  subscribe-ok : (exchange : Text) (w : World) → AnswersAll → (subscribe exchange w).0 ≡ ok tt
  unfolding subscribe
  subscribe-ok exchange w all =
      let opened = open_channel ∷ w.calls in
      let declared = declare_exchange exchange ∷ opened in
      let queued = declare_queue ∷ declared in
      ground (
        arith,
        all w.calls open_channel,
        all opened (declare_exchange exchange),
        all declared declare_queue,
        all queued (bind_queue exchange),
      )

  -- After `texts`, the socket is sent the first of the fragments, and all of them if every call is
  -- answered.
  pub record Sends (texts fragments : List Text) (calls : List Event) : Type 0 where
    pub count : ℕ
    pub sent : sent_texts calls ≡ texts ++ take count fragments
    pub all : AnswersAll → take count fragments ≡ fragments

  Sends-nothing :
      (texts fragments : List Text) (calls : List Event)
      → sent_texts calls ≡ texts
      → (AnswersAll → ⊥)
      → Sends texts fragments calls
  Sends-nothing texts fragments calls same fails = record {
    count = 0;
    sent = same ∙ sym (append-nil texts);
    all = λ answers. absurd (fails answers);
  }

  Sends-more :
      (texts fragments : List Text) (fragment : Text) (calls : List Event)
      → Sends (texts ++ (fragment ∷ [])) fragments calls
      → Sends texts (fragment ∷ fragments) calls
  Sends-more texts fragments fragment calls v = record {
    count = suc v.count;
    sent = v.sent ∙ append_assoc texts (fragment ∷ []) (take v.count fragments);
    all = λ answers. ap (λ fs. fragment ∷ fs) (v.all answers);
  }

  -- How the handling of a message ends whose fragment is `c ∷ s`.
  Handled : Text → World → Result (Unit {0}) × World → Type 0
  Handled fragment w p =
      ((p.0 ≡ ok tt) × (sent_texts p.1.calls ≡ sent_texts w.calls ++ (fragment ∷ [])))
      ⊎ ((e : Exception) × (p.0 ≡ err e)
          × (AnswersAll → ⊥)
          × ((sent_texts p.1.calls ≡ sent_texts w.calls)
              ⊎ (sent_texts p.1.calls ≡ sent_texts w.calls ++ (fragment ∷ []))))

  process-Handled :
      (c : ℕ) (s : Text) (w : World)
      → Handled (c ∷ s) w (process (lift (ok (c ∷ s)) >>= send_fragment) w)
  unfolding send_fragment Handled
  process-Handled c s w =
      let handed = send_text (c ∷ s) ∷ w.calls in
      elim (Option-cases (env w.calls (send_text (c ∷ s)))) [
        | inl sends ↦ elim (Option-cases (env handed amqp_ack)) [
          | inl acks ↦ inl (ground (arith, sends, acks), ground (arith, sends, acks))
          | inr (e, fails) ↦ inr (
            e,
            ground (arith, sends, fails),
            unanswered handed amqp_ack e fails,
            inr (ground (arith, sends, fails)),
          )
        ]
        | inr (e, fails) ↦ elim (Option-cases (env handed amqp_reject)) [
          | inl rejects ↦ inr (
            e,
            ground (arith, fails, rejects),
            unanswered w.calls (send_text (c ∷ s)) e fails,
            inl (ground (arith, fails, rejects)),
          )
          | inr (e', worse) ↦ inr (
            e',
            ground (arith, fails, worse),
            unanswered w.calls (send_text (c ∷ s)) e fails,
            inl (ground (arith, fails, worse)),
          )
        ]
      ]

  abbrev pub shows : Text → Result Text
  shows line = ok (render_line line)

  -- The next messages are handled if this one is.
  then-Sends :
      (fragment : Text) (fragments : List Text) (w : World) (p : Result (Unit {0}) × World)
      (rest : Action (Unit {0}))
      → Handled fragment w p
      → ((w' : World) → Sends (sent_texts w'.calls) fragments (rest w').1.calls)
      → Sends (sent_texts w.calls) (fragment ∷ fragments) (and_then p.0 (λ u. rest) p.1).1.calls
  unfolding Handled
  then-Sends fragment fragments w (ok u, w') rest (inl (done, out)) go =
      Sends-more (sent_texts w.calls) fragments fragment _
        (subst (λ texts. Sends texts fragments (rest w').1.calls) out (go w'))
  then-Sends fragment fragments w (err e, w') rest (inl (done, out)) go = cc
  then-Sends fragment fragments w (ok u, w') rest (inr (e, fails, broken, out)) go = cc
  then-Sends fragment fragments w (err e, w') rest (inr (e', fails, broken, inl out)) go =
      Sends-nothing (sent_texts w.calls) (fragment ∷ fragments) w'.calls out broken
  then-Sends fragment fragments w (err e, w') rest (inr (e', fails, broken, inr out)) go = record {
    count = 1;
    sent = out;
    all = λ answers. absurd (broken answers);
  }

  deliver-Sends :
      (lines : List Text) (w : World)
      → Sends (sent_texts w.calls) (map render_line lines) (deliver shows lines w).1.calls
  unfolding deliver
  deliver-Sends [] w = record { count = 0; sent = sym (append-nil _); all = λ answers. refl }
  deliver-Sends (line ∷ lines) w =
      then-Sends (render_line line) (map render_line lines) w
        (process (lift (shows line) >>= send_fragment) w) (deliver shows lines)
        (unfold render_line in process-Handled _ _ w) (deliver-Sends lines)

  -- What a socket is sent of the messages for its exchange: their first fragments, in their order,
  -- and all of them if every call is answered.
  pub consume_fanout-Sends :
      (exchange : Text) (lines : List Text) (w : World)
      → Sends
          (sent_texts w.calls)
          (map render_line lines)
          (consume_fanout exchange shows lines w).1.calls
  unfolding consume_fanout
  consume_fanout-Sends exchange lines w =
      let body = subscribe exchange >> deliver shows lines in
      let quiet = (Mute-call amqp_close (λ o texts. ground arith)).mute in
      let connected : World = record w { calls = amqp_connect ∷ w.calls } in
      let subscribed = (subscribe exchange connected).1 in
      let start : sent_texts connected.calls ≡ sent_texts w.calls = ground arith in
      let silent : sent_texts subscribed.calls ≡ sent_texts w.calls =
        (subscribe-Mute exchange).mute connected ∙ start in
      let sends : Sends (sent_texts w.calls) (map render_line lines) (body connected).1.calls =
        >>=-Post (λ p. Sends (sent_texts w.calls) (map render_line lines) p.1.calls)
          (subscribe exchange) (λ u. deliver shows lines) connected
          (λ e fails.
            Sends-nothing (sent_texts w.calls) (map render_line lines) subscribed.calls silent
              (λ all. (let ok' = subscribe-ok exchange connected all in cc)))
          (λ u _.
            subst
              (λ texts.
                Sends texts (map render_line lines) (deliver shows lines subscribed).1.calls)
              silent (deliver-Sends lines subscribed)) in
      elim (Option-cases (env w.calls amqp_connect)) [
        | inl connects ↦ record {
          count = sends.count;
          sent = ground (arith, connects, quiet (body connected).1) ∙ sends.sent;
          all = sends.all;
        }
        | inr (e, fails) ↦
            Sends-nothing (sent_texts w.calls) (map render_line lines) _
              (ground (arith, fails, start)) (unanswered w.calls amqp_connect e fails)
      ]
