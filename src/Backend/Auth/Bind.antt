-- ===== src/Backend/Auth/Bind.antt =====
-- backend/auth/ldap_auth.py: `_ldap_bind`, with the LDAP client as a parameter.
use test_orch.Base.{◌≡◌, refl, List, [], ◌∷◌, ◌++◌, Option, none, some, if◌then◌else◌}
use test_orch.Base.Text.{Text, text, is_empty}
use test_orch.Base.Result.{Result, ok, err, Exception, ldap_error, ldap_auth_error, ◌>>=◌}
use test_orch.Backend.Auth.{Profile}

-- An entry of the answer, with the attributes that it has, as texts.
pub record Entry : Type 0 where
  pub cn : Option Text
  pub mail : Option Text

-- The directory and the settings for it. `user_dn` is the template with the name put in; `connect`
-- binds with a DN and a password; `ldap_error` stands for an `LDAPException`.
pub record Directory : Type 0 where
  pub user_dn : Text → Text
  pub base_dn : Text
  pub connect : Text → Text → Result (Unit {0})
  pub search : Text → Text → Result (List Entry)
  pub unbind : Result (Unit {0})

-- `except LDAPException as exc: raise LDAPAuthError(…)`
abbrev as_auth_error : Exception → Exception
as_auth_error ldap_error = ldap_auth_error
as_auth_error e = e

abbrev pub wrap : Result (Unit {0}) → Result (Unit {0})
wrap (ok u) = ok u
wrap (err e) = err (as_auth_error e)

-- `x or None`
abbrev non_empty : Option Text → Option Text
non_empty none = none
non_empty (some t) = if is_empty t then none else some t

abbrev or_name : Text → Option Text → Text
or_name username none = username
or_name username (some t) = t

-- The profile, from the first entry if there is one.
abbrev pub profile_of : Text → List Entry → Profile
profile_of username [] = record { display_name = username; email = none }
profile_of username (entry ∷ entries) = record {
  display_name = or_name username entry.cn;
  email = non_empty entry.mail;
}

-- `finally: conn.unbind()`
abbrev finally_unbind : Result (Unit {0}) → Result Profile → Result Profile
finally_unbind (ok u) found = found
finally_unbind (err e) found = err e

module _ (d : Directory) where
  unfoldable pub ldap_bind : Text → Text → Result Profile
  ldap_bind username password = wrap (d.connect (d.user_dn username) password) >>= λ _.
      finally_unbind d.unbind (
        d.search d.base_dn (text "(uid=" ++ (username ++ text ")")) >>= λ entries.
        ok (profile_of username entries))

  -- A bind that the directory refuses raises.
  pub ldap_bind-err :
      (username password : Text) (e : Exception)
      → d.connect (d.user_dn username) password ≡ err e
      → (x : Exception) × (ldap_bind username password ≡ err x)
  unfolding ldap_bind
  ldap_bind-err username password e h = (as_auth_error e, rw h refl)
