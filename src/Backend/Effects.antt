-- ===== src/Backend/Effects.antt =====
-- What the program does to the outside: commits to the database, and calls of other services.
-- An action takes the committed database and the calls made so far, and it may raise.
-- Whether a call raises is up to the environment, a parameter, which sees all earlier calls.
use test_orch.Base.{ℕ, ◌≡◌, refl, List, ◌∷◌, Option, none, some}
use test_orch.Base.Text.{Text}
use test_orch.Base.Result.{Result, ok, err, Exception}
use test_orch.Backend.Models.{Database}
use test_orch.Shared.Value.{Fields}

-- A directory of the host that a container sees.
pub record Volume : Type 0 where
  pub path : Text
  pub bind : Text
  pub mode : Text

pub data Event : Type 0 where
  commit flush : Event
  send_task : (name queue : Text) → (bundle : Fields) → Event
  send_poll : (correlation_id queue : Text) → Event
  release_reservation : (reservation_id : Text) → Event
  create_tables close_session : Event
  -- Of the worker's host: Docker, files, the log store, the live streams, the artifact store.
  docker_connect docker_list next_line docker_wait : Event
  docker_get docker_remove : (name : Text) → Event
  docker_run :
      (image name network_mode : Text)
      → (volumes : List Volume) → (labels : List (Text × Text)) → Event
  make_dirs list_dir : (path : Text) → Event
  write_json : (path : Text) → (config : Fields) → Event
  write_text : (path content : Text) → Event
  influx_connect influx_close : Event
  influx_write : (test_id : Text) → (line_no : ℕ) → (content : Text) → Event
  influx_query : (flux : Text) → Event
  amqp_connect amqp_close : Event
  declare_exchange : (exchange : Text) → Event
  publish : (exchange body : Text) → Event
  -- Of a socket that listens to an exchange.
  open_channel declare_queue amqp_ack amqp_reject : Event
  bind_queue : (exchange : Text) → Event
  send_text : (fragment : Text) → Event
  upload : (url path : Text) → Event

-- The newest call stands first.
pub record World : Type 0 where
  pub db : Database
  pub calls : List Event

-- The exception that a call raises, if it does.
abbrev pub Environment : Type 0
Environment = List Event → Event → Option Exception

abbrev pub Action {ℓ} : Type ℓ → Type ℓ
Action A = World → Result A × World

module _ {ℓ} {A : Type ℓ} where
  abbrev pub pure : A → Action A
  pure a w = (ok a, w)

  abbrev pub lift : Result A → Action A
  lift r w = (r, w)

  abbrev pub rescue : Result A → (Exception → Action A) → Action A
  rescue (ok a) handler w = (ok a, w)
  rescue (err e) handler w = handler e w

  -- `try: body` / `except Exception: handler`
  abbrev pub try_except : Action A → (Exception → Action A) → Action A
  try_except body handler w = let (result, after) = body w in rescue result handler after

  abbrev pub closing : Result (Unit {0}) → Result A → Result A
  closing (ok u) result = result
  closing (err e) result = err e

  -- `try: body` / `finally: last`; an exception of `last` takes the place of the outcome.
  abbrev pub try_finally : Action A → Action (Unit {0}) → Action A
  try_finally body last w =
      let (result, after) = body w in let (closed, end) = last after in (closing closed result, end)

module _ {ℓ κ} {A : Type ℓ} {B : Type κ} where
  abbrev pub and_then : Result A → (A → Action B) → Action B
  and_then (ok a) f w = f a w
  and_then (err e) f w = (err e, w)

  infixl 5 ◌>>=◌
  abbrev pub ◌>>=◌ : Action A → (A → Action B) → Action B
  m >>= f = λ w. let (result, after) = m w in and_then result f after

  and_then-ok :
      (r : Result A) (f : A → Action B) (w : World) (b : B)
      → (and_then r f w).0 ≡ ok b
      → (a : A) × (r ≡ ok a) × (and_then r f w ≡ f a w) × ((f a w).0 ≡ ok b)
  and_then-ok (ok a) f w b h = (a, refl, refl, h)
  and_then-ok (err e) f w b h = cc

  -- A chain that returns went through its first step, and the rest goes on from there.
  pub >>=-ok :
      (m : Action A) (f : A → Action B) (w : World) (b : B)
      → ((m >>= f) w).0 ≡ ok b
      → (a : A) × ((m w).0 ≡ ok a) × ((m >>= f) w ≡ f a (m w).1) × ((f a (m w).1).0 ≡ ok b)
  >>=-ok m f w b h = and_then-ok (m w).0 f (m w).1 b h

  and_then-Post :
      (Q : Result B × World → Type 0) (r : Result A) (f : A → Action B) (w : World)
      → ((e : Exception) → r ≡ err e → Q (err e, w))
      → ((a : A) → r ≡ ok a → Q (f a w))
      → Q (and_then r f w)
  and_then-Post Q (ok a) f w stop go = go a refl
  and_then-Post Q (err e) f w stop go = stop e refl

  -- A chain stops at its first step, or goes on from there.
  pub >>=-Post :
      (Q : Result B × World → Type 0) (m : Action A) (f : A → Action B) (w : World)
      → ((e : Exception) → (m w).0 ≡ err e → Q (err e, (m w).1))
      → ((a : A) → (m w).0 ≡ ok a → Q (f a (m w).1))
      → Q ((m >>= f) w)
  >>=-Post Q m f w stop go = and_then-Post Q (m w).0 f (m w).1 stop go

abbrev pub get_db : Action Database
get_db w = (ok w.db, w)

infixl 5 ◌>>◌
abbrev pub ◌>>◌ {ℓ} : {B : Type ℓ} → Action (Unit {0}) → Action B → Action B
m >> k = m >>= λ _. k

module _ (env : Environment) where
  abbrev pub call : Event → Action (Unit {0})
  call event w =
      let w' : World = record w { calls = event ∷ w.calls } in
      elim (env w.calls event) [ none ↦ (ok tt, w') | some e ↦ (err e, w') ]

  -- `db.commit()`, with the session's pending writes. If it raises nothing is written.
  abbrev pub commit_writes : (Database → Database) → Action (Unit {0})
  commit_writes write w =
      let w' : World = record w { calls = commit ∷ w.calls } in
      elim (env w.calls commit) [
        | none ↦ (ok tt, record w' { db = write w.db })
        | some e ↦ (err e, w')
      ]

-- No commit fails, whatever was called before.
abbrev pub CommitsWork : Environment → Type 0
CommitsWork env = (calls : List Event) → env calls commit ≡ none
