-- ===== src/Backend/Routes/Pages/Entry.antt =====
-- Who gets in: through the login form, and to a live log.
use test_orch.Base.{
  ℕ, ◌≡◌, ◌≢◌, refl, sym, subst, ap, ◌∙◌, ◌↔◌, inl, inr, true, false, Option, none, some, arith,
  find, nat_eq, ◌==◌,
}
use test_orch.Base.Int.{ℤ, pos, ◌≤ℤ◌, ◌+ℤ◌, ◌*ℤ◌}
use test_orch.Base.Text.{Text, is_empty}
use test_orch.Base.Keys.{NodupKeys}
use test_orch.Base.Result.{
  Result, ok, err, Exception, Result-cases, >>=-eq-ok, ldap_auth_error, value_error, type_error,
}
use test_orch.Shared.Value.{str}
use test_orch.Shared.Validation.{require_non_empty_str}
use test_orch.Backend.Models.{Datetime, User, UserSession, TestExecution, Database, execution_by_id}
use test_orch.Backend.Effects.{World, Environment}
use test_orch.Backend.Auth.{
  session_ttl, Profile, session_by_token, resolve_session, authenticate_ldap,
}
use test_orch.Backend.Auth.Login.{login, login_parts, authenticate_ldap-Resolves}
use test_orch.Backend.Auth.Bind.{Directory, ldap_bind, ldap_bind-err}
use test_orch.Backend.Routes.{signed_in}
use test_orch.Backend.Routes.Pages.{
  current_user, cookie_age, answer_login, login_submit, streams, log_exchange_for, owner_of, admit,
  ws_logs,
}

-- The checks let a user read the stream exactly if no one else owns the run.
admit-streams :
    (test_id exchange : Text) (found : Option TestExecution) (user : Option User)
    → (admit test_id (owner_of found) user ≡ streams exchange) ↔ (
        (u : User) × (user ≡ some u)
        × (exchange ≡ log_exchange_for test_id)
        × ((run : TestExecution) → found ≡ some run → run.user_id ≡ u.id))
admit-streams test_id exchange found none = (λ h. ground arith, λ (u, e, _, _). ground arith)
admit-streams test_id exchange none (some user) =
    (λ h. (user, refl, ground arith, λ run e. ground arith), λ (u, e, same, _). ground arith)
admit-streams test_id exchange (some row) (some user) = (
  λ h. (user, refl, ground arith, λ run e. ground arith),
  λ (u, e, same, owns). ground (arith, owns row refl),
)

-- A live log streams exactly if the cookie resolves to a user and the run, if it is there at all, is
-- this user's; the stream is the one of the run.
pub ws_logs_iff :
    (db : Database) (cookie : Option Text) (now : Datetime) (test_id exchange : Text)
    → (ws_logs db cookie now test_id ≡ ok (streams exchange)) ↔ (
        (user : User) × (resolve_session db cookie now ≡ ok (some user))
        × (exchange ≡ log_exchange_for test_id)
        × ((run : TestExecution)
            → execution_by_id test_id db.executions ≡ some run
            → run.user_id ≡ user.id))
unfolding ws_logs
ws_logs_iff db cookie now test_id exchange =
    let found = execution_by_id test_id db.executions in
    (
      λ h.
          let (o, resolved, streamed) = >>=-eq-ok (resolve_session db cookie now) _ h in
          let (user, e, same, owns) = (admit-streams test_id exchange found o).0 (ground arith) in
          (user, resolved ∙ ap ok e, same, owns),
      λ (user, resolved, same, owns).
          rw resolved
            (ap ok ((admit-streams test_id exchange found (some user)).1 (user, refl, same, owns))),
    )

answer_login-signed_in :
    (r : Result (User × UserSession)) (t : Text) (age : ℤ)
    → answer_login r ≡ ok (signed_in t age)
    → (user : User) × (sess : UserSession) × (r ≡ ok (user, sess))
      × (t ≡ sess.token)
      × (age ≡ cookie_age)
answer_login-signed_in (ok (user, sess)) t age h = (user, sess, refl, ground arith, ground arith)
answer_login-signed_in (err ldap_auth_error) t age h = cc
answer_login-signed_in (err value_error) t age h = cc
answer_login-signed_in (err type_error) t age h = cc
answer_login-signed_in (err e) t age h = cc

cookie_age-eq : cookie_age *ℤ pos 1000000 ≡ session_ttl
unfolding ◌*ℤ◌
cookie_age-eq = refl

module _ (ldap_bind : Text → Text → Result Profile) (env : Environment) (fresh_id : ℕ) where
  -- A login that is answered with a cookie has set the new token, and the user of that name is the
  -- current user of every request that carries the cookie, at every time in UTC until the cookie's
  -- lifetime, in seconds, is over. The token is new and not empty, the users' keys are distinct and
  -- the key for a new row is not in use.
  pub login_submit-current_user :
      (token : Text) (now : Datetime) (username password : Text) (w : World) (cookie : Text)
      (age : ℤ)
      → is_empty token ≡ false
      → session_by_token token w.db.sessions ≡ none
      → NodupKeys (λ (u : User). u.id) w.db.users
      → find (λ (u : User). u.id == fresh_id) w.db.users ≡ none
      → (login_submit ldap_bind env fresh_id token now username password w).0
        ≡ ok (signed_in cookie age)
      → (cookie ≡ token)
        × (user : User) × (user.username ≡ username)
        × ((later : Datetime)
            → later.aware ≡ true
            → later.micros ≤ℤ now.micros +ℤ age *ℤ pos 1000000
            → current_user
                (login_submit ldap_bind env fresh_id token now username password w).1.db
                (some cookie)
                later
              ≡ ok (some user))
  unfolding login_submit
  login_submit-current_user token now username password w cookie age solid unused u fresh h =
      let (user, sess, came, t, lifetime) =
        answer_login-signed_in (login ldap_bind env fresh_id token now username password w).0 cookie
          age h in
      let (added, who, mint, named, after) =
        login_parts ldap_bind env fresh_id token now username password w user sess came in
      let same : cookie ≡ token = t ∙ ap (λ s. s.token) mint in
      (
        same,
        user,
        named,
        λ later aware soon.
            subst
              (λ c.
                current_user (login ldap_bind env fresh_id token now username password w).1.db
                  (some c) later
                ≡ ok (some user))
              (sym same)
              (authenticate_ldap-Resolves ldap_bind env fresh_id token now username password w user
                sess solid unused u fresh came later aware
                (subst (λ a. later.micros ≤ℤ now.micros +ℤ a)
                  (ap (λ a. a *ℤ pos 1000000) lifetime ∙ cookie_age-eq) soon)),
      )

  -- Whatever the reason for which the bind raises.
  login_submit-unbound :
      (token : Text) (now : Datetime) (username password : Text) (w : World) (e : Exception)
      → ldap_bind username password ≡ err e
      → ((cookie : Text) (age : ℤ)
          → (login_submit ldap_bind env fresh_id token now username password w).0
            ≢ ok (signed_in cookie age))
        × ((login_submit ldap_bind env fresh_id token now username password w).1 ≡ w)
  unfolding login_submit authenticate_ldap
  login_submit-unbound token now username password w e refused =
      elim (Result-cases (require_non_empty_str (str username))) [
        | inr (x, blank) ↦ (λ cookie age h. ground (arith, h), ground (arith, blank))
        | inl (name, named) ↦ elim (Result-cases (require_non_empty_str (str password))) [
          | inr (x, blank) ↦ (λ cookie age h. ground (arith, h), ground (arith, named, blank))
          | inl (secret, given) ↦
              (λ cookie age h. ground (arith, h), ground (arith, named, given, refused))
        ]
      ]

-- Unless the directory takes the name and the password, the form signs nobody in: nothing is
-- written, no service is called, and the answer is no cookie.
pub login_submit-refuses :
    (d : Directory) (env : Environment) (fresh_id : ℕ) (token : Text) (now : Datetime)
    (username password : Text) (w : World) (e : Exception)
    → d.connect (d.user_dn username) password ≡ err e
    → ((cookie : Text) (age : ℤ)
        → (login_submit (ldap_bind d) env fresh_id token now username password w).0
          ≢ ok (signed_in cookie age))
      × ((login_submit (ldap_bind d) env fresh_id token now username password w).1 ≡ w)
login_submit-refuses d env fresh_id token now username password w e refused =
    let (x, raised) = ldap_bind-err d username password e refused in
    login_submit-unbound (ldap_bind d) env fresh_id token now username password w x raised
