-- ===== src/Backend/Auth.antt =====
-- backend/auth/ldap_auth.py: login against the directory, and the sessions that it mints.
pub mod Sessions
pub mod Login
pub mod Bind
mod Examples
use test_orch.Base.{
  ℕ, Bool, true, false, List, [], ◌∷◌, ◌++◌, Option, none, some, ◌==◌, nat_eq, find, if◌then◌else◌,
}
use test_orch.Base.Int.{ℤ, pos}
use test_orch.Base.Text.{Text, text_eq, is_empty}
use test_orch.Base.Result.{Result, ok}
use test_orch.Base.Result as Result
use test_orch.Shared.Value.{str}
use test_orch.Shared.Validation.{require_non_empty_str}
use test_orch.Backend.Models.{Datetime, User, UserSession, Database}
use test_orch.Backend.Clock.{lt_datetime, as_utc, plus}
use test_orch.Backend.Effects.{
  Environment, Action, pure, lift, get_db, call, commit_writes, flush, ◌>>=◌, ◌>>◌,
}

-- `SESSION_TTL`, in microseconds.
abbrev pub session_ttl : ℤ
session_ttl = pos 43200000000

-- What the directory says of a user.
pub record Profile : Type 0 where
  pub display_name : Text
  pub email : Option Text

-- `filter_by(username=…).one_or_none()`, where the column is unique.
unfoldable pub user_by_name : Text → List User → Option User
user_by_name name users = find (λ user. user.username == name) users

-- `filter_by(token=…).one_or_none()`, where the column is unique.
unfoldable pub session_by_token : Text → List UserSession → Option UserSession
session_by_token token sessions = find (λ sess. sess.token == token) sessions

-- The relation `sess.user`.
unfoldable pub user_of : UserSession → List User → Option User
user_of sess users = find (λ user. user.id == sess.user_id) users

-- `now` is the clock, in UTC.
unfoldable pub resolve_session : Database → Option Text → Datetime → Result (Option User)
unfolding lt_datetime session_by_token user_of
resolve_session db none now = ok none
resolve_session db (some token) now =
    if is_empty token then ok none else elim (session_by_token token db.sessions) [
      | none ↦ ok none
      | some sess ↦
          Result.◌>>=◌ (lt_datetime (as_utc sess.expires_at) now)
            λ expired. ok (if expired then none else user_of sess db.users)
    ]

-- `ldap_bind` is the directory; `fresh_id` is the key that the database gives to a new row, and
-- `token` the random token.
module _ (ldap_bind : Text → Text → Result Profile) (env : Environment) (fresh_id : ℕ) where
  -- The user's row, and what the session has to add for it.
  unfoldable pub find_or_add_user : Text → Profile → Action (User × List User)
  unfolding user_by_name
  find_or_add_user username attrs = do
    db ← get_db
    elim (user_by_name username db.users) [
      | some user ↦ pure (user, [])
      | none ↦
          let user : User = record {
            id = fresh_id;
            username = username;
            display_name = some attrs.display_name;
            email = attrs.email;
          } in
          call env flush >> pure (user, user ∷ [])
    ]

  -- The session is added, with the user if it is new, and both are committed.
  add_session : Text → Datetime → User × List User → Action (User × UserSession)
  add_session token now (user, added) = do
    let session : UserSession = record {
      token = token;
      user_id = user.id;
      expires_at = plus now session_ttl;
    }
    commit_writes env
        (λ d. record d { users = d.users ++ added; sessions = d.sessions ++ (session ∷ []) })
    pure (user, session)

  unfoldable pub authenticate_ldap : Text → Datetime → Text → Text → Action (User × UserSession)
  unfolding find_or_add_user add_session
  authenticate_ldap token now username password = do
    name ← lift (require_non_empty_str (str username))
    secret ← lift (require_non_empty_str (str password))
    attrs ← lift (ldap_bind username password)
    found ← find_or_add_user username attrs
    add_session token now found
