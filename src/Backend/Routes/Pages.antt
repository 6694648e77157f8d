-- ===== src/Backend/Routes/Pages.antt =====
-- backend/main.py: the pages for a user who is logged in, the login form's answer, and who may read
-- a live log.
pub mod Fragments
pub mod Dashboard
pub mod Entry
pub mod Watch
pub mod Fanout
mod Examples
use test_orch.Base.{
  ℕ, Bool, true, false, not, List, [], ◌∷◌, ◌++◌, ◌*◌, Option, none, some, ◌==◌, nat_eq, keep, take,
  if◌then◌else◌,
}
use test_orch.Base.Int.{ℤ, pos}
use test_orch.Base.Text.{Text, text, is_empty}
use test_orch.Base.Result.{
  Result, ok, err, Exception, type_error, value_error, ldap_auth_error, ◌>>=◌,
}
use test_orch.Backend.Models.{
  Datetime, User, UserSession, WorkerHost, TestExecution, Database, execution_by_id,
}
use test_orch.Backend.Effects.{World, Environment, Action, pure, lift}
use test_orch.Backend.Auth.{Profile, authenticate_ldap, resolve_session}
use test_orch.Backend.Render.{escape}
use test_orch.Backend.Routes.{
  Response, redirect, runs_page, hosts_page, login_page, login_failed, signed_in,
}

-- `cookie` is the cookie `session_token`.
abbrev pub current_user : Database → Option Text → Datetime → Result (Option User)
current_user db cookie now = resolve_session db cookie now

abbrev pub own_runs : User → List TestExecution → List TestExecution
own_runs user runs = keep (λ run. run.user_id == user.id) runs

-- `newest_first` is the database's `ORDER BY created_at DESC`.
unfoldable pub dashboard :
    (List TestExecution → List TestExecution) → Database → Option User → Response
dashboard newest_first db none = redirect (text "/login")
dashboard newest_first db (some user) =
    runs_page user (take 50 (newest_first (own_runs user db.executions)))

-- `by_name` is the database's `ORDER BY host_id`.
unfoldable pub admin : (List WorkerHost → List WorkerHost) → Database → Option User → Response
admin by_name db none = redirect (text "/login")
admin by_name db (some user) = hosts_page user (by_name db.hosts)

-- The lifetime of the cookie, in seconds.
abbrev pub cookie_age : ℤ
cookie_age = pos (12 * 3600)

-- `except (LDAPAuthError, ValueError, TypeError)`, and the answer of a login that worked.
abbrev pub answer_login : Result (User × UserSession) → Result Response
answer_login (ok (user, session)) = ok (signed_in session.token cookie_age)
answer_login (err ldap_auth_error) = ok login_failed
answer_login (err value_error) = ok login_failed
answer_login (err type_error) = ok login_failed
answer_login (err e) = err e

module _ (ldap_bind : Text → Text → Result Profile) (env : Environment) (fresh_id : ℕ) where
  unfoldable pub login_submit : Text → Datetime → Text → Text → Action Response
  login_submit token now username password w =
      let (outcome, after) =
        authenticate_ldap ldap_bind env fresh_id token now username password w in
      (answer_login outcome, after)

-- What a live-log socket does once it is accepted.
pub data LogSocket : Type 0 where
  closed : (code : ℕ) → LogSocket
  streams : (exchange : Text) → LogSocket

unfoldable pub log_exchange_for : Text → Text
log_exchange_for test_id = text "test_logs." ++ test_id

abbrev pub owner_of : Option TestExecution → Option ℕ
owner_of none = none
owner_of (some row) = some row.user_id

-- The two checks that follow the lookups.
abbrev pub admit : Text → Option ℕ → Option User → LogSocket
admit test_id owner_id none = closed 4401
admit test_id none (some user) = streams (log_exchange_for test_id)
admit test_id (some owner_id) (some user) =
    if not (owner_id == user.id) then closed 4403 else streams (log_exchange_for test_id)

unfoldable pub ws_logs : Database → Option Text → Datetime → Text → Result LogSocket
ws_logs db cookie now test_id = resolve_session db cookie now >>= λ user.
    ok (admit test_id (owner_of (execution_by_id test_id db.executions)) user)

-- The fragment for one line.
unfoldable pub render_line : Text → Text
unfolding escape
render_line line =
    text "<div id=\"terminal\" hx-swap-oob=\"beforeend\">"
    ++ (text "<div class=\"log-line\">" ++ (escape line ++ text "</div></div>"))

-- The login page, with no error.
abbrev pub login_form : Response
login_form = login_page
