-- ===== src/Backend/Auth/Login.antt =====
-- A login and the session that it mints, together.
use mathlib.Core.List.{append-nil}
use test_orch.Base.{
  ℕ, sym, subst, true, false, ◌≡◌, refl, ◌∙◌, ap, List, [], ◌∷◌, ◌++◌, Option, none, some, ◌==◌,
  nat_eq, find, find-passes, arith, ◌⊎◌, inl, inr,
}
use test_orch.Base.Int.{◌≤ℤ◌, ◌+ℤ◌}
use test_orch.Base.Text.{Text, text_eq, is_empty}
use test_orch.Base.Keys.{NodupKeys, find-key}
use test_orch.Base.Result.{Result, ok}
use test_orch.Shared.Value.{str}
use test_orch.Shared.Validation.{require_non_empty_str}
use test_orch.Shared.Validation.Laws.{IsNonBlank, require_non_empty_str-ok}
use test_orch.Backend.Models.{Datetime, User, UserSession, Database}
use test_orch.Backend.Clock.{plus}
use test_orch.Backend.Effects.{Event, commit, flush, World, Environment, lift, >>=-ok}
use test_orch.Backend.Auth.{
  session_ttl, Profile, user_by_name, session_by_token, user_of, resolve_session, find_or_add_user,
  add_session, authenticate_ldap,
}
use test_orch.Backend.Auth.Sessions.{resolve_session_iff, session_by_token-snoc, user_of-snoc}

user_by_name-named :
    (username : Text) (user : User) (users : List User)
    → user_by_name username users ≡ some user
    → user.username ≡ username
unfolding user_by_name
user_by_name-named username user users h =
    (text_eq.test_iff user.username username).0
      (find-passes (λ (u : User). u.username == username) user users h)

module _ (ldap_bind : Text → Text → Result Profile) (env : Environment) (fresh_id : ℕ) where
  abbrev pub minted : Text → Datetime → User → UserSession
  minted token now user = record {
    token = token;
    user_id = user.id;
    expires_at = plus now session_ttl;
  }

  -- The user was there, or is added with the new key; the database is not written yet.
  find_or_add_user-cases :
      (username : Text) (attrs : Profile) (w : World) (user : User) (added : List User)
      → (find_or_add_user ldap_bind env fresh_id username attrs w).0 ≡ ok (user, added)
      → (((user_by_name username w.db.users ≡ some user) × (added ≡ []))
          ⊎ ((user.id ≡ fresh_id) × (added ≡ user ∷ [])))
        × ((find_or_add_user ldap_bind env fresh_id username attrs w).1.db ≡ w.db)
        × (user.username ≡ username)
  unfolding find_or_add_user
  find_or_add_user-cases username attrs w user added h = go (user_by_name username w.db.users) refl
    where
      go :
          (o : Option User)
          → user_by_name username w.db.users ≡ o
          → (((user_by_name username w.db.users ≡ some user) × (added ≡ []))
              ⊎ ((user.id ≡ fresh_id) × (added ≡ user ∷ [])))
            × ((find_or_add_user ldap_bind env fresh_id username attrs w).1.db ≡ w.db)
            × (user.username ≡ username)
      go none e = ground arith
      go (some u) e = ground (arith, user_by_name-named username u w.db.users e)

  add_session-ok :
      (token : Text) (now : Datetime) (found : User × List User) (w : World) (user : User)
      (sess : UserSession)
      → (add_session ldap_bind env fresh_id token now found w).0 ≡ ok (user, sess)
      → (found.0 ≡ user)
        × (sess ≡ minted token now user)
        × ((add_session ldap_bind env fresh_id token now found w).1.db ≡ record w.db {
          users = w.db.users ++ found.1;
          sessions = w.db.sessions ++ (sess ∷ []);
        })
  unfolding add_session
  add_session-ok token now found w user sess h = ground arith

  abbrev pub login : Text → Datetime → Text → Text → World → Result (User × UserSession) × World
  login token now username password w =
      authenticate_ldap ldap_bind env fresh_id token now username password w

  -- The table of users that a login leaves, whose session it minted, and the user's name.
  pub login_parts :
      (token : Text) (now : Datetime) (username password : Text) (w : World) (user : User)
      (sess : UserSession)
      → (login token now username password w).0 ≡ ok (user, sess)
      → (added : List User) × (((user_by_name username w.db.users ≡ some user) × (added ≡ []))
          ⊎ ((user.id ≡ fresh_id) × (added ≡ user ∷ [])))
        × (sess ≡ minted token now user)
        × (user.username ≡ username)
        × ((login token now username password w).1.db
            ≡ record w.db { users = w.db.users ++ added; sessions = w.db.sessions ++ (sess ∷ []) })
  unfolding authenticate_ldap
  login_parts token now username password w user sess h =
      let r : User × UserSession = (user, sess) in
      let (name, _, run0, h0) = >>=-ok (lift (require_non_empty_str (str username))) _ w r h in
      let (secret, _, run1, h1) = >>=-ok (lift (require_non_empty_str (str password))) _ w r h0 in
      let (attrs, _, run2, h2) = >>=-ok (lift (ldap_bind username password)) _ w r h1 in
      let (found, e3, run3, h3) =
        >>=-ok (find_or_add_user ldap_bind env fresh_id username attrs) _ w r h2 in
      let w' = (find_or_add_user ldap_bind env fresh_id username attrs w).1 in
      let (same, mint, after) = add_session-ok token now found w' user sess h3 in
      let (who, kept, named) =
        find_or_add_user-cases username attrs w user found.1
          (e3 ∙ ap (λ u. ok (u, found.1)) same) in
      (
        found.1,
        who,
        mint,
        named,
        ap (λ x. x.1.db) (run0 ∙ run1 ∙ run2 ∙ run3)
            ∙ after
            ∙ ap
                (λ (d : Database). record d {
                  users = d.users ++ found.1;
                  sessions = d.sessions ++ (sess ∷ []);
                })
                kept,
      )

  user_of-cases :
      (username : Text) (users added : List User) (user : User) (sess : UserSession)
      → NodupKeys (λ (u : User). u.id) users
      → find (λ (u : User). u.id == fresh_id) users ≡ none
      → sess.user_id ≡ user.id
      → (((user_by_name username users ≡ some user) × (added ≡ []))
          ⊎ ((user.id ≡ fresh_id) × (added ≡ user ∷ [])))
      → user_of sess (users ++ added) ≡ some user
  unfolding user_of user_by_name
  user_of-cases username users added user sess u fresh same (inl (found, e)) =
      rw (e, append-nil users, same)
        (find-key (λ (x : User). x.id) (λ x. x.username == username) user users u found)
  user_of-cases username users added user sess u fresh same (inr (new, e)) =
      rw e (user_of-snoc users user sess same (rw (same, new) fresh))

  -- A login that returns leaves a session whose token resolves to the user, at every time in UTC
  -- up to twelve hours later. The token is new and not empty, the users' keys are distinct and the
  -- key for a new row is not in use.
  pub authenticate_ldap-Resolves :
      (token : Text) (now : Datetime) (username password : Text) (w : World) (user : User)
      (sess : UserSession)
      → is_empty token ≡ false
      → session_by_token token w.db.sessions ≡ none
      → NodupKeys (λ (u : User). u.id) w.db.users
      → find (λ (u : User). u.id == fresh_id) w.db.users ≡ none
      → (authenticate_ldap ldap_bind env fresh_id token now username password w).0 ≡ ok (user, sess)
      → (later : Datetime) → later.aware ≡ true
      → later.micros ≤ℤ now.micros +ℤ session_ttl
      → resolve_session
          (authenticate_ldap ldap_bind env fresh_id token now username password w).1.db
          (some token)
          later
        ≡ ok (some user)
  authenticate_ldap-Resolves token now username password w user sess solid unused u fresh h later
        aware soon =
      let (added, who, mint, named, after) =
        login_parts token now username password w user sess h in
      rw after (
        (resolve_session_iff _ (some token) later user aware).1 record {
          name = token;
          given = refl;
          not_blank = solid;
          session = sess;
          listed = session_by_token-snoc token w.db.sessions sess (ap (λ s. s.token) mint) unused;
          current = subst (λ s. later.micros ≤ℤ s.expires_at.micros) (sym mint) soon;
          owner =
              user_of-cases username w.db.users added user sess u fresh (ap (λ s. s.user_id) mint)
                who;
        })

  -- A login returns a user and a session, if the name and the password are not blank, the directory
  -- takes them, and no call of the database raises.
  pub authenticate_ldap_total :
      (token : Text) (now : Datetime) (username password : Text) (attrs : Profile) (w : World)
      → IsNonBlank username
      → IsNonBlank password
      → ldap_bind username password ≡ ok attrs
      → ((calls : List Event) (event : Event) → env calls event ≡ none)
      → (r : User × UserSession) × ((authenticate_ldap ldap_bind env fresh_id token now username
            password w).0
          ≡ ok r)
  unfolding authenticate_ldap find_or_add_user add_session
  authenticate_ldap_total token now username password attrs w named secret bound calm =
      go (user_by_name username w.db.users) refl
    where
      n : require_non_empty_str (str username) ≡ ok username
      n = (require_non_empty_str-ok (str username) username).1 (refl, named)

      s : require_non_empty_str (str password) ≡ ok password
      s = (require_non_empty_str-ok (str password) password).1 (refl, secret)

      go :
          (found : Option User)
          → user_by_name username w.db.users ≡ found
          → (r : User × UserSession) × ((authenticate_ldap ldap_bind env fresh_id token now username
                password w).0
              ≡ ok r)
      go none e =
          let user : User = record {
            id = fresh_id;
            username = username;
            display_name = some attrs.display_name;
            email = attrs.email;
          } in
          (
            (user, minted token now user),
            ground (arith, n, s, bound, e, calm w.calls flush, calm (flush ∷ w.calls) commit),
          )
      go (some user) e =
          ((user, minted token now user), ground (arith, n, s, bound, e, calm w.calls commit))
