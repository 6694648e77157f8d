-- ===== src/Backend/Ledger/Moves.antt =====
-- Actions that move slots by the ledger alone.
use test_orch.Base.{
  ℕ, ◌≡◌, ◌≢◌, ◌∙◌, refl, sym, subst, ap, Bool, true, false, List, [], ◌∷◌, map, All, arith, Mem,
  if◌then◌else◌,
}
use test_orch.Base.Int.{ℤ}
use test_orch.Base.Result.{Result, ok, err, Exception}
use test_orch.Backend.Models.{WorkerHost, Database, set_active}
use test_orch.Backend.Models.Hosts.{NodupIds, NodupIds-set_active}
use test_orch.Backend.Effects.{
  World, Action, Environment, Event, lift, get_db, call, commit_writes, try_except, try_finally,
  rescue, and_then, ◌>>=◌,
}
use test_orch.Backend.Ledger.{
  Slots, Change, Trace, begin, move, Trace-trans, slots_of, ledger, set_active-Move,
}

-- The keys stay distinct, and the ledger of the rows comes from that of `start` by moves.
abbrev pub Follows : List WorkerHost → List WorkerHost → Type 0
Follows start hosts = NodupIds hosts × Trace (ledger start) (ledger hosts)

pub Follows-start : (hosts : List WorkerHost) → NodupIds hosts → Follows hosts hosts
Follows-start hosts u = (u, begin)

pub Follows-write :
    (start : List WorkerHost) (host : WorkerHost) (n : ℤ) (hosts : List WorkerHost)
    → Follows start hosts
    → Mem host hosts
    → Change (slots_of host) (record (slots_of host) { used = n })
    → Follows start (set_active host.id n hosts)
Follows-write start host n hosts (u, t) m c =
    (NodupIds-set_active host.id n hosts u, move t (set_active-Move host n hosts u m c))

-- Whether the action returns or raises, it moves slots by the ledger.
pub record Moves {A : Type 0} (m : Action A) : Type 0 where
  pub moved : (w : World) → NodupIds w.db.hosts → Follows w.db.hosts (m w).1.db.hosts

Follows-trans : (a b c : List WorkerHost) → Follows a b → (NodupIds b → Follows b c) → Follows a c
Follows-trans a b c (u, t) next = let (v, t') = next u in (v, Trace-trans t t')

module _ {A : Type 0} where
  pub Moves-same : (m : Action A) → ((w : World) → (m w).1.db.hosts ≡ w.db.hosts) → Moves m
  Moves-same m same = record {
    moved = λ w u. subst (Follows w.db.hosts) (sym (same w)) (Follows-start w.db.hosts u);
  }

  pub Moves-lift : (r : Result A) → Moves (lift r)
  Moves-lift r = Moves-same (lift r) (λ w. refl)

  rescue-Follows :
      (start : List WorkerHost) (r : Result A) (handler : Exception → Action A) (w : World)
      → Follows start w.db.hosts
      → ((e : Exception) → Moves (handler e))
      → Follows start (rescue r handler w).1.db.hosts
  rescue-Follows start (ok a) handler w f k = f
  rescue-Follows start (err e) handler w f k = Follows-trans _ _ _ f ((k e).moved w)

  pub Moves-try_except :
      (body : Action A) (handler : Exception → Action A)
      → Moves body
      → ((e : Exception) → Moves (handler e))
      → Moves (try_except body handler)
  Moves-try_except body handler h k = record {
    moved = λ w u. rescue-Follows w.db.hosts (body w).0 handler (body w).1 (h.moved w u) k;
  }

  pub Moves-try_finally :
      (body : Action A) (last : Action (Unit {0}))
      → Moves body
      → Moves last
      → Moves (try_finally body last)
  Moves-try_finally body last h k = record {
    moved = λ w u. Follows-trans _ _ _ (h.moved w u) (k.moved (body w).1);
  }

module _ {A B : Type 0} where
  and_then-Follows :
      (start : List WorkerHost) (r : Result A) (f : A → Action B) (w : World)
      → Follows start w.db.hosts
      → ((a : A) → Moves (f a))
      → Follows start (and_then r f w).1.db.hosts
  and_then-Follows start (ok a) f w h k = Follows-trans _ _ _ h ((k a).moved w)
  and_then-Follows start (err e) f w h k = h

  pub Moves->>= :
      (m : Action A) (f : A → Action B) → Moves m → ((a : A) → Moves (f a)) → Moves (m >>= f)
  Moves->>= m f h k = record {
    moved = λ w u. and_then-Follows w.db.hosts (m w).0 f (m w).1 (h.moved w u) k;
  }

pub Moves-call : (env : Environment) (event : Event) → Moves (call env event)
Moves-call env event = Moves-same (call env event) (λ w. ground arith)

pub Moves-get_db : Moves get_db
Moves-get_db = Moves-same get_db (λ w. refl)

pub Moves-if :
    {A : Type 0} (b : Bool) {m n : Action A} → Moves m → Moves n → Moves (if b then m else n)
Moves-if true h k = h
Moves-if false h k = k

pub ruleset moves =
    (Moves->>=, Moves-lift, Moves-try_except, Moves-try_finally, Moves-call, Moves-get_db, Moves-if)

-- A commit that writes other tables.
pub Moves-commit :
    (env : Environment) (f : Database → Database)
    → ((d : Database) → (f d).hosts ≡ d.hosts)
    → Moves (commit_writes env f)
Moves-commit env f same = Moves-same (commit_writes env f) (λ w. ground (arith, same w.db))

absent-map :
    (k : ℕ) (f : WorkerHost → WorkerHost) (hosts : List WorkerHost)
    → ((h : WorkerHost) → slots_of (f h) ≡ slots_of h)
    → All (λ h. h.id ≢ k) hosts
    → All (λ h. h.id ≢ k) (map f hosts)
absent-map k f [] same a = tt
absent-map k f (h ∷ hosts) same a =
    (λ e. a.0 (sym (ap (λ (s : Slots). s.host) (same h)) ∙ e), absent-map k f hosts same a.1)

NodupIds-map :
    (f : WorkerHost → WorkerHost) (hosts : List WorkerHost)
    → ((h : WorkerHost) → slots_of (f h) ≡ slots_of h)
    → NodupIds hosts
    → NodupIds (map f hosts)
NodupIds-map f [] same u = tt
NodupIds-map f (h ∷ hosts) same u = (
  subst (λ k. All (λ x. x.id ≢ k) (map f hosts)) (sym (ap (λ (s : Slots). s.host) (same h)))
      (absent-map h.id f hosts same u.0),
  NodupIds-map f hosts same u.1,
)

ledger-map :
    (f : WorkerHost → WorkerHost) (hosts : List WorkerHost)
    → ((h : WorkerHost) → slots_of (f h) ≡ slots_of h)
    → ledger (map f hosts) ≡ ledger hosts
ledger-map f [] same = refl
ledger-map f (h ∷ hosts) same = rw (same h, ledger-map f hosts same) refl

-- A change of the rows that keeps every row's slots.
pub Follows-map :
    (f : WorkerHost → WorkerHost) (hosts : List WorkerHost)
    → ((h : WorkerHost) → slots_of (f h) ≡ slots_of h)
    → NodupIds hosts
    → Follows hosts (map f hosts)
Follows-map f hosts same u = (
  NodupIds-map f hosts same u,
  subst (Trace (ledger hosts)) (sym (ledger-map f hosts same)) begin,
)
