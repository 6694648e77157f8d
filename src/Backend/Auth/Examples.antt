-- ===== src/Backend/Auth/Examples.antt =====
-- Logins and tokens at concrete inputs.
use test_orch.Base.{◌≡◌, refl, ◌↔◌, none, some, nat_eq, ◌==◌, if◌then◌else◌}
use test_orch.Base.Int.{pos, ◌+ℤ◌}
use test_orch.Base.Text.{Text, text, text_eq, is_space, strip, lstrip}
use test_orch.Base.Result.{Result, ok, err, ldap_auth_error}
use test_orch.Shared.Validation.{require_non_empty_str}
use test_orch.Backend.Models.{User, UserSession}
use test_orch.Backend.Effects.{World}
use test_orch.Backend.Samples.{calm, at, world}
use test_orch.Backend.Clock.{lt_datetime, plus}
use test_orch.Backend.Auth.{
  session_ttl, Profile, user_by_name, session_by_token, user_of, resolve_session, authenticate_ldap,
}
use test_orch.Backend.Auth.Sessions.{Resolves, resolve_session_iff}

-- A directory that takes one password.
unfoldable bind : Text → Text → Result Profile
unfolding text_eq
bind username password =
    if password == text "pw"
    then ok (record { display_name = username; email = none })
    else err ldap_auth_error

abbrev ann : User
ann = record { id = 1; username = text "ann"; display_name = some (text "ann"); email = none }

abbrev after : World
after = (authenticate_ldap bind calm 1 (text "tok") (at (pos 0)) (text "ann") (text "pw") world).1

abbrev session : UserSession
session = record { token = text "tok"; user_id = 1; expires_at = plus (at (pos 0)) session_ttl }

program : Unit {0}
unfolding bind authenticate_ldap user_by_name session_by_token user_of resolve_session lt_datetime
    require_non_empty_str strip lstrip is_space text_eq ◌+ℤ◌
program = tt

login_run :
    (authenticate_ldap bind calm 1 (text "tok") (at (pos 0)) (text "ann") (text "pw") world).0
    ≡ ok (ann, session)
unfolding program
login_run = refl

-- Twelve hours and a microsecond later.
expired_run : resolve_session after.db (some (text "tok")) (at (pos 43200000001)) ≡ ok none
unfolding program
expired_run = refl

resolve_session_iff_example :
    (resolve_session after.db (some (text "tok")) (at (pos 500)) ≡ ok (some ann))
    ↔ Resolves after.db (some (text "tok")) (at (pos 500)) ann
resolve_session_iff_example =
    resolve_session_iff after.db (some (text "tok")) (at (pos 500)) ann refl
