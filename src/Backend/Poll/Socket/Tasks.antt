-- ===== src/Backend/Poll/Socket/Tasks.antt =====
-- What is known of the tasks that can still act, and what a move of one of them keeps.
use test_orch.Base.{
  ℕ, ◌≡◌, refl, sym, ap, ◌∙◌, Bool, true, false, not, ◌&&◌, List, [], ◌∷◌, map, Option, none, some,
  eqb_iff, arith, All, All-imp, All-map, inl, inr, Bool-cases, if◌then◌else◌,
}
use test_orch.Base.Text.{Text}
use test_orch.Backend.Poll.{PollState}
use test_orch.Backend.Poll.Socket.{
  Kind, consumer, timer, Stage, waiting, sending, Task, Frame, cleared, hidden, row, sentinel,
  Phase, clearing, hiding, binding, Socket, is_finished, is_held, cancel, listen, set_timer,
  is_current, send_row, after_emit, reported,
}
use test_orch.Backend.Poll.Socket.Steps.{Moved, here, there, task}

abbrev pub poll_of : Frame → ℕ
poll_of (cleared n html) = n
poll_of (hidden n html) = n
poll_of (row n html) = n
poll_of (sentinel n html) = n

-- The poll for which the table was cleared last; the newest frame stands first.
abbrev pub last_cleared : List Frame → Option ℕ
last_cleared [] = none
last_cleared (cleared n html ∷ frames) = some n
last_cleared (hidden n html ∷ frames) = last_cleared frames
last_cleared (row n html ∷ frames) = last_cleared frames
last_cleared (sentinel n html ∷ frames) = last_cleared frames

-- Each frame is of the poll for which the table was cleared last before it.
abbrev pub IsTidy : List Frame → Type 0
IsTidy [] = Unit
IsTidy (frame ∷ frames) = (last_cleared (frame ∷ frames) ≡ some (poll_of frame)) × IsTidy frames

abbrev pub KindOf : ℕ → Kind → Type 0
KindOf g consumer = Unit
KindOf g (timer k) = k ≡ g

abbrev pub StageOf : ℕ → Stage → Type 0
StageOf g (waiting k) = k ≡ g
StageOf g (sending k) = k ≡ g
StageOf g stage = Unit

-- What is known of a task that can still act.
pub record Own (s : Socket) (kind : Kind) (n : ℕ) (stage : Stage) : Type 0 where
  pub held : is_held s kind n ≡ true
  pub own : n ≡ s.generation
  pub given : KindOf s.generation kind
  pub at : StageOf s.generation stage
  pub state : s.state ≡ s.generation
  pub table : last_cleared s.frames ≡ some s.generation

abbrev pub active : Task → Bool
active t = not t.cancelled && not (is_finished t.stage)

abbrev pub Live : Socket → Task → Type 0
Live s t = active t ≡ true → Own s t.kind t.poll t.stage

abbrev pub AtPhase : Socket → Phase → Type 0
AtPhase s (clearing hosts) = last_cleared s.frames ≡ some s.generation
AtPhase s (hiding hosts) = last_cleared s.frames ≡ some s.generation
AtPhase s (binding hosts) = (last_cleared s.frames ≡ some s.generation) × (s.state ≡ s.generation)
AtPhase s phase = Unit

pub record Inv (s : Socket) : Type 0 where
  pub cell : s.my_gen ≡ s.generation
  pub live : All (Live s) s.tasks
  pub tidy : IsTidy s.frames
  pub at : AtPhase s s.phase

-- The variables hold every task that can still act, so that none is left after the cancellation.
pub cancel-inactive : (s : Socket) (t : Task) → Live s t → active (cancel s t) ≡ false
cancel-inactive s t live = elim (Bool-cases (active t)) [
  | inl acts ↦ let held = (live acts).held in ground arith
  | inr rests ↦ ground arith
]

pub cancelled-Live : (s t : Socket) → All (Live s) s.tasks → All (Live t) (map (cancel s) s.tasks)
cancelled-Live s t live = All-map (Live t) (cancel s) s.tasks (
    All-imp (Live s) (λ x. Live t (cancel s x)) s.tasks
      (λ x l acts. let rests = cancel-inactive s x l in cc) live)

pub Moved-at :
    {t t' : Task} {xs ys : List Task} (P : Task → Type 0) → Moved t t' xs ys → All P xs → P t
Moved-at P (here rest) h = h.0
Moved-at P (there u m) h = Moved-at P m h.1

pub Moved-All :
    {t t' : Task} {xs ys : List Task} (P Q : Task → Type 0)
    → Moved t t' xs ys
    → ((x : Task) → P x → Q x)
    → Q t'
    → All P xs
    → All Q ys
Moved-All P Q (here rest) f q h = (q, All-imp P Q rest f h.1)
Moved-All P Q (there u m) f q h = (f u h.0, Moved-All P Q m f q h.1)

-- New frames of this poll that do not clear the table.
pub AtPhase-frames :
    (s : Socket) (polls : ℕ → PollState) (frames : List Frame) (after : List Task) (phase : Phase)
    → last_cleared frames ≡ last_cleared s.frames
    → AtPhase s phase
    → AtPhase (record s { polls = polls; frames = frames; tasks = after }) phase
AtPhase-frames s polls frames after (clearing hosts) same h = same ∙ h
AtPhase-frames s polls frames after (hiding hosts) same h = same ∙ h
AtPhase-frames s polls frames after (binding hosts) same h = (same ∙ h.0, h.1)
AtPhase-frames s polls frames after phase same h = tt

pub Live-frames :
    (s : Socket) (polls : ℕ → PollState) (frames : List Frame) (after : List Task) (phase : Phase)
    (t : Task)
    → last_cleared frames ≡ last_cleared s.frames
    → Live s t
    → Live (record s { polls = polls; frames = frames; tasks = after; phase = phase }) t
Live-frames s polls frames after phase t same live acts =
    let own = live acts in
    record {
      held = own.held;
      own = own.own;
      given = own.given;
      at = own.at;
      state = own.state;
      table = same ∙ own.table;
    }

-- A task's move.
pub move-Inv :
    (s : Socket) (polls : ℕ → PollState) (frames : List Frame) {after : List Task} (t t' : Task)
    → Moved t t' s.tasks after
    → last_cleared frames ≡ last_cleared s.frames
    → IsTidy frames
    → Live s t'
    → Inv s
    → Inv (record s { polls = polls; frames = frames; tasks = after })
move-Inv s polls frames {after} t t' moved same tidy live v = record {
  cell = v.cell;
  live =
      Moved-All (Live s) (Live (record s { polls = polls; frames = frames; tasks = after })) moved
        (λ x. Live-frames s polls frames after s.phase x same)
        (Live-frames s polls frames after s.phase t' same live) v.live;
  tidy = tidy;
  at = AtPhase-frames s polls frames after s.phase same v.at;
}

-- The new tasks, and those there were, if any, when the variables are set.
pub consumer_set :
    (hosts : List Text) (s : Socket) (kind : Kind) (n : ℕ) (stage : Stage)
    → Own s kind n stage
    → Own (listen hosts s) kind n stage
unfolding listen
consumer_set hosts s consumer n stage o = record {
  held = (eqb_iff s.generation n).1 (sym o.own);
  own = o.own;
  given = tt;
  at = o.at;
  state = refl;
  table = o.table;
}
consumer_set hosts s (timer k) n stage o = record {
  held = o.held;
  own = o.own;
  given = o.given;
  at = o.at;
  state = refl;
  table = o.table;
}

pub timer_set :
    (s : Socket) (kind : Kind) (n : ℕ) (stage : Stage)
    → Own s kind n stage
    → Own (set_timer s) kind n stage
unfolding set_timer
timer_set s consumer n stage o = record {
  held = o.held;
  own = o.own;
  given = tt;
  at = o.at;
  state = o.state;
  table = o.table;
}
timer_set s (timer k) n stage o = record {
  held = (eqb_iff s.generation n).1 (sym o.own);
  own = o.own;
  given = o.given;
  at = o.at;
  state = o.state;
  table = o.table;
}

-- A task at a stage that belongs to its own poll.
pub staged :
    (s : Socket) (kind : Kind) (n : ℕ) (from to : Stage)
    → Own s kind n from
    → StageOf s.generation to
    → Live s (task kind n to)
staged s kind n from to own at acts = record {
  held = own.held;
  own = own.own;
  given = own.given;
  at = at;
  state = own.state;
  table = own.table;
}

pub is_current-true : (s : Socket) → Inv s → is_current s ≡ true
unfolding is_current
is_current-true s v = (eqb_iff s.generation s.my_gen).1 (sym v.cell)

pub row-IsTidy :
    (s : Socket) (n : ℕ) (fragment : Text)
    → n ≡ s.generation
    → last_cleared s.frames ≡ some s.generation
    → IsTidy s.frames
    → (last_cleared (send_row n fragment s).frames ≡ last_cleared s.frames)
      × IsTidy (send_row n fragment s).frames
unfolding send_row
row-IsTidy s n [] same table tidy = (refl, tidy)
row-IsTidy s n (c ∷ fragment) same table tidy = (refl, (table ∙ ap some (sym same), tidy))

pub reported-IsTidy :
    (k g : ℕ) (sending : Option Text) (frames : List Frame)
    → k ≡ g
    → last_cleared frames ≡ some g
    → IsTidy frames
    → (last_cleared (reported k sending frames) ≡ last_cleared frames)
      × IsTidy (reported k sending frames)
reported-IsTidy k g none frames same table tidy = (refl, tidy)
reported-IsTidy k g (some html) frames same table tidy = (refl, (table ∙ ap some (sym same), tidy))

pub after_emit-StageOf : (g : ℕ) (kind : Kind) → StageOf g (after_emit kind)
after_emit-StageOf g consumer = tt
after_emit-StageOf g (timer k) = tt

pub if-StageOf :
    (g : ℕ) (b : Bool) (x y : Stage) → StageOf g x → StageOf g y → StageOf g (if b then x else y)
if-StageOf g true x y h k = h
if-StageOf g false x y h k = k
