-- ===== src/Backend/Poll/Socket/Latest.antt =====
-- No reply and no sentinel of an earlier poll gets into the table of a later one.
use test_orch.Base.{◌≡◌, refl, sym, subst, ap, true, eqb_iff, arith, All-imp}
use test_orch.Base.Text.{Text}
use test_orch.Backend.Render.Row.{Python, render_status_row}
use test_orch.Backend.Poll.{acquire, on_reply}
use test_orch.Backend.Poll.Socket.{
  consumer, timer, ready, rendered, waiting, sending, clearing, hiding, binding, Socket, opened,
  cancel_inflight, begin_poll, clear_table, hide_sentinel, listen, set_timer, leave, is_current,
  guarded_render, send_row, guarded_on_reply, after_emit, take_lock, sent_sentinel,
}
use test_orch.Backend.Poll.Socket.Steps.{
  Moved, task, with_tasks, Step, poll, read, hide, bind, ask, quit, reply, count, wake, lock, sent,
  fail, Reach, start, next,
}
use test_orch.Backend.Poll.Socket.Tasks.{
  AtPhase, Inv, IsTidy, Live, Live-frames, Moved-at, after_emit-StageOf, cancelled-Live,
  consumer_set, if-StageOf, is_current-true, move-Inv, reported-IsTidy, row-IsTidy, staged,
  timer_set,
}
use test_orch.Backend.Poll.Socket.Turns.{
  counted, counted-Inv, emit_after_grace-woken, guarded_on_reply-counted, unwind-Inv, woken-Inv,
}

module _ (py : Python) where
  Step-Inv : {s t : Socket} → Step py s t → Inv s → Inv t
  unfolding begin_poll clear_table hide_sentinel listen set_timer leave cancel_inflight send_row
      take_lock sent_sentinel
  Step-Inv (poll s p) v = record {
    cell = refl;
    live = cancelled-Live s (begin_poll s) v.live;
    tidy = v.tidy;
    at = tt;
  }
  Step-Inv (read s hosts p) v = record {
    cell = v.cell;
    live =
        All-imp (Live s) (Live (clear_table hosts s)) s.tasks
          (λ t l acts.
            let o = l acts in
            record {
              held = o.held;
              own = o.own;
              given = o.given;
              at = o.at;
              state = o.state;
              table = refl;
            })
          v.live;
    tidy = (refl, v.tidy);
    at = refl;
  }
  Step-Inv (hide s hosts p) v =
      let table : AtPhase s (clearing hosts) = subst (AtPhase s) p v.at in
      record {
        cell = v.cell;
        live =
            All-imp (Live s) (Live (hide_sentinel hosts s)) s.tasks
              (λ t l.
                Live-frames s s.polls (hide_sentinel hosts s).frames s.tasks (hiding hosts) t refl
                  l)
              v.live;
        tidy = (table, v.tidy);
        at = table;
      }
  Step-Inv (bind s hosts p) v =
      let table : AtPhase s (hiding hosts) = subst (AtPhase s) p v.at in
      record {
        cell = v.cell;
        live = (
          λ acts. record {
            held = (eqb_iff s.generation s.generation).1 refl;
            own = refl;
            given = tt;
            at = tt;
            state = refl;
            table = table;
          },
          All-imp (Live s) (Live (listen hosts s)) s.tasks
              (λ t l acts. consumer_set hosts s t.kind t.poll t.stage (l acts)) v.live,
        );
        tidy = v.tidy;
        at = (table, refl);
      }
  Step-Inv (ask s hosts p) v =
      let (table, state) : AtPhase s (binding hosts) = subst (AtPhase s) p v.at in
      record {
        cell = v.cell;
        live = (
          λ acts. record {
            held = (eqb_iff s.generation s.generation).1 refl;
            own = refl;
            given = state;
            at = tt;
            state = state;
            table = table;
          },
          All-imp (Live s) (Live (set_timer s)) s.tasks
              (λ t l acts. timer_set s t.kind t.poll t.stage (l acts)) v.live,
        );
        tidy = v.tidy;
        at = tt;
      }
  Step-Inv (quit s) v = record {
    cell = v.cell;
    live = cancelled-Live s (leave s) v.live;
    tidy = v.tidy;
    at = tt;
  }
  Step-Inv (reply s n body fragment {after} shown moved) v =
      let own = Moved-at (Live s) moved v.live refl in
      let (same, tidy) = row-IsTidy s n fragment own.own own.table v.tidy in
      move-Inv s s.polls (send_row n fragment s).frames _ _ moved same tidy
        (staged s consumer n ready rendered own tt) v
  Step-Inv (count s n {after} moved) v =
      subst
        (λ r.
          Moved (task consumer n rendered) (task consumer n r.1) s.tasks after
          → Inv (with_tasks r.0 after))
        (sym (guarded_on_reply-counted s v)) (λ m. counted-Inv s n m v) moved
  Step-Inv (wake s k n {after} moved) v =
      subst
        (λ r.
          Moved (task (timer k) n ready) (task (timer k) n r.1) s.tasks after
          → Inv (with_tasks r.0 after))
        (sym (emit_after_grace-woken k s v)) (λ m. woken-Inv s k n m v) moved
  Step-Inv (lock s kind k n {m} {after} some_wait free moved) v =
      let own = Moved-at (Live s) moved v.live refl in
      let (same, tidy) =
        reported-IsTidy k s.generation (acquire (s.polls k)).sending s.frames own.at own.table
          v.tidy in
      move-Inv s (take_lock k kind s).0.polls (take_lock k kind s).0.frames _ _ moved same tidy
        (staged s kind n (waiting k) (take_lock k kind s).1 own (
          if-StageOf s.generation (s.polls k).completed (after_emit kind) (sending k)
            (after_emit-StageOf s.generation kind) own.at))
        v
  Step-Inv (sent s kind k n html {after} out moved) v =
      let own = Moved-at (Live s) moved v.live refl in
      move-Inv s (sent_sentinel k html s).polls s.frames _ _ moved refl v.tidy
        (staged s kind n (sending k) (after_emit kind) own (after_emit-StageOf s.generation kind)) v
  Step-Inv (fail s t {after} moved) v = unwind-Inv s t.kind t.poll t.stage t.cancelled moved v

  Reach-Inv : {s : Socket} → Reach py s → Inv s
  unfolding opened
  Reach-Inv start = record { cell = refl; live = tt; tidy = tt; at = tt }
  Reach-Inv (next r step) = Step-Inv step (Reach-Inv r)

  -- However the tasks of the polls interleave, and whatever fails: each row and each sentinel that
  -- the browser gets is of the poll for which the table was cleared last before it.
  pub frames-IsTidy : (s : Socket) → Reach py s → IsTidy s.frames
  frames-IsTidy s r = (Reach-Inv r).tidy

  -- It is the cancellation that does this, for the guards never hold anything back: at every moment
  -- the generation is the one that the closures compare it with, whichever poll they are of, and so
  -- a reply is rendered and counted whatever consumer it comes to, in the state of the newest poll.
  pub guards-pass :
      (s : Socket) (body : Text)
      → Reach py s
      → (is_current s ≡ true)
        × (guarded_render py s body ≡ render_status_row py body)
        × ((guarded_on_reply s).0.polls s.state ≡ on_reply (s.polls s.state))
  unfolding guarded_render guarded_on_reply counted
  guards-pass s body r =
      let current = is_current-true s (Reach-Inv r) in
      (
        current,
        unfold is_current in rw current refl,
        rw (ap (λ p. p.0.polls s.state) (guarded_on_reply-counted s (Reach-Inv r)))
            (ground (arith, eqb_iff s.state s.state)),
      )
