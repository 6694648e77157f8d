-- ===== src/Backend/Auth/Sessions.antt =====
-- Which tokens resolve, and that a login's token does.
use test_orch.Base.{
  ◌≡◌, refl, ◌↔◌, true, false, List, [], ◌∷◌, ◌++◌, Option, none, some, ◌==◌, nat_eq, find-snoc,
  arith, ==_refl, if◌then◌else◌, Bool-cases, inl, inr,
}
use test_orch.Base.Int.{◌≤ℤ◌, ltb_ℤ}
use test_orch.Base.Text.{Text, text_eq, is_empty}
use test_orch.Base.Result.{ok}
use test_orch.Backend.Models.{Datetime, User, UserSession, Database}
use test_orch.Backend.Clock.{lt_datetime, as_utc}
use test_orch.Backend.Auth.{session_by_token, user_of, resolve_session}

-- The token names a session that has not expired, and the user is its owner.
pub record Resolves (db : Database) (token : Option Text) (now : Datetime) (user : User)
    : Type 0 where
  pub name : Text
  pub given : token ≡ some name
  pub not_blank : is_empty name ≡ false
  pub session : UserSession
  pub listed : session_by_token name db.sessions ≡ some session
  pub current : now.micros ≤ℤ session.expires_at.micros
  pub owner : user_of session db.users ≡ some user

lt_datetime-as_utc :
    (t now : Datetime)
    → now.aware ≡ true
    → lt_datetime (as_utc t) now ≡ ok (ltb_ℤ t.micros now.micros)
unfolding lt_datetime
lt_datetime-as_utc t now aware = ground arith

-- What a session says, once it is found.
resolve_listed :
    (db : Database) (name : Text) (now : Datetime) (user : User)
    → now.aware ≡ true
    → is_empty name ≡ false
    → (found : Option UserSession) → session_by_token name db.sessions ≡ found
    → resolve_session db (some name) now ≡ ok (some user)
    → Resolves db (some name) now user
unfolding resolve_session
resolve_listed db name now user aware solid none found h = ground arith
resolve_listed db name now user aware solid (some sess) found h = record {
  name = name;
  given = refl;
  not_blank = solid;
  session = sess;
  listed = found;
  current = ground (arith, lt_datetime-as_utc sess.expires_at now aware);
  owner = ground (arith, lt_datetime-as_utc sess.expires_at now aware);
}

resolve_session→Resolves :
    (db : Database) (token : Option Text) (now : Datetime) (user : User)
    → now.aware ≡ true
    → resolve_session db token now ≡ ok (some user)
    → Resolves db token now user
resolve_session→Resolves db none now user aware h = unfold resolve_session in ground arith
resolve_session→Resolves db (some name) now user aware h = elim (Bool-cases (is_empty name)) [
  | inl blank ↦ unfold resolve_session in ground arith
  | inr solid ↦
      resolve_listed db name now user aware solid (session_by_token name db.sessions) refl h
]

Resolves→resolve_session :
    (db : Database) (token : Option Text) (now : Datetime) (user : User)
    → now.aware ≡ true
    → Resolves db token now user
    → resolve_session db token now ≡ ok (some user)
unfolding resolve_session
Resolves→resolve_session db token now user aware r =
    ground (arith, lt_datetime-as_utc r.session.expires_at now aware)

-- At a time in UTC, a token resolves to a user exactly if it is not empty and names a session that
-- has not expired and that belongs to this user.
pub resolve_session_iff :
    (db : Database) (token : Option Text) (now : Datetime) (user : User)
    → now.aware ≡ true
    → (resolve_session db token now ≡ ok (some user)) ↔ Resolves db token now user
resolve_session_iff db token now user aware = (
  resolve_session→Resolves db token now user aware,
  Resolves→resolve_session db token now user aware,
)

-- At a time in UTC the resolution of a token never raises, naive expiry times included.
pub resolve_session_total :
    (db : Database) (token : Option Text) (now : Datetime)
    → now.aware ≡ true
    → (user : Option User) × (resolve_session db token now ≡ ok user)
unfolding resolve_session
resolve_session_total db none now aware = (none, refl)
resolve_session_total db (some name) now aware = go (session_by_token name db.sessions) refl
  where
    go :
        (found : Option UserSession)
        → session_by_token name db.sessions ≡ found
        → (user : Option User) × (resolve_session db (some name) now ≡ ok user)
    go none e = (none, ground arith)
    go (some sess) e =
        let expired = ltb_ℤ sess.expires_at.micros now.micros in
        (
          if is_empty name then none else if expired then none else user_of sess db.users,
          ground (arith, lt_datetime-as_utc sess.expires_at now aware),
        )

-- The session that a login adds is the one that its token names, if no session had the token.
pub session_by_token-snoc :
    (name : Text) (sessions : List UserSession) (sess : UserSession)
    → sess.token ≡ name
    → session_by_token name sessions ≡ none
    → session_by_token name (sessions ++ (sess ∷ [])) ≡ some sess
unfolding session_by_token
session_by_token-snoc name sessions sess same absent =
    find-snoc (λ s. s.token == name) sessions sess absent (rw same (==_refl name))

pub user_of-snoc :
    (users : List User) (user : User) (sess : UserSession)
    → sess.user_id ≡ user.id
    → user_of sess users ≡ none
    → user_of sess (users ++ (user ∷ [])) ≡ some user
unfolding user_of
user_of-snoc users user sess same absent =
    find-snoc (λ u. u.id == sess.user_id) users user absent (rw same (==_refl user.id))
