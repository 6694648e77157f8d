-- ===== src/Backend/Routes/Pages/Examples.antt =====
-- The pages at concrete inputs.
use test_orch.Base.{
  ℕ, ◌≡◌, ◌≢◌, refl, ◌↔◌, ◌⊎◌, inl, inr, true, List, [], ◌∷◌, ◌++◌, none, some, arith, All, All-imp,
  Mem, nat_eq, if◌then◌else◌, Bool-cases,
}
use test_orch.Base.Int.{ℤ, pos, ◌≤ℤ◌, leb_ℤ, ◌+ℤ◌, ◌*ℤ◌}
use test_orch.Base.Text.{Text, text, text_eq, is_space, strip, lstrip}
use test_orch.Base.Result.{Result, ok, err, ldap_error, ldap_auth_error}
use test_orch.Shared.Validation.{require_non_empty_str}
use test_orch.Backend.Models.{Datetime, User, TestExecution, Database, execution_by_id}
use test_orch.Backend.Clock.{lt_datetime}
use test_orch.Backend.Effects.{World}
use test_orch.Backend.Samples.{at, calm, world, database}
use test_orch.Backend.Auth.{
  Profile, user_by_name, session_by_token, user_of, resolve_session, authenticate_ldap,
}
use test_orch.Backend.Auth.Bind.{Directory, ldap_bind}
use test_orch.Backend.Routes.{signed_in, runs_page, pending_row}
use test_orch.Backend.Routes.Pages.Fragments.{tags_of, render_line-tags}
use test_orch.Backend.Routes.Pages.{
  render_line, current_user, dashboard, login_submit, streams, log_exchange_for, ws_logs,
}
use test_orch.Backend.Routes.Pages.Dashboard.{NewestFirst, Orders, IsPage, dashboard-IsPage}
use test_orch.Backend.Routes.Pages.Entry.{
  ws_logs_iff, login_submit-current_user, login_submit-refuses,
}

-- Insertion by the time of creation, the newest first.
insert : TestExecution → List TestExecution → List TestExecution
insert x [] = x ∷ []
insert x (y ∷ ys) =
    let rest = insert x ys in
    if leb_ℤ y.created_at.micros x.created_at.micros then x ∷ y ∷ ys else y ∷ rest

newest_first : List TestExecution → List TestExecution
newest_first [] = []
newest_first (x ∷ xs) = insert x (newest_first xs)

Mem-insert :
    (x run : TestExecution) (xs : List TestExecution)
    → Mem run (insert x xs) ↔ ((run ≡ x) ⊎ Mem run xs)
unfolding insert
Mem-insert x run [] = (λ m. m, λ m. m)
Mem-insert x run (y ∷ ys) = elim (Bool-cases (leb_ℤ y.created_at.micros x.created_at.micros)) [
  | inl before ↦ rw before (λ m. m, λ m. m)
  | inr after ↦ rw after (ground (arith, Mem-insert x run ys))
]

All-insert :
    (P : TestExecution → Type 0) (x : TestExecution) (xs : List TestExecution)
    → P x
    → All P xs
    → All P (insert x xs)
unfolding insert
All-insert P x [] h k = (h, tt)
All-insert P x (y ∷ ys) h k = elim (Bool-cases (leb_ℤ y.created_at.micros x.created_at.micros)) [
  | inl before ↦ rw before (h, k)
  | inr after ↦ rw after (k.0, All-insert P x ys h k.1)
]

NewestFirst-insert :
    (x : TestExecution) (xs : List TestExecution) → NewestFirst xs → NewestFirst (insert x xs)
unfolding insert
NewestFirst-insert x [] h = (tt, tt)
NewestFirst-insert x (y ∷ ys) h =
    elim (Bool-cases (leb_ℤ y.created_at.micros x.created_at.micros)) [
      | inl before ↦ rw before (
        (
          ground arith,
          All-imp _ (λ z. z.created_at.micros ≤ℤ x.created_at.micros) ys (λ z older. ground arith)
              h.0,
        ),
        h,
      )
      | inr after ↦ rw after (All-insert _ x ys (ground arith) h.0, NewestFirst-insert x ys h.1)
    ]

newest_first-Orders : Orders newest_first
unfolding newest_first
newest_first-Orders = record { same = λ runs run. same runs run; sorted = λ runs. sorted runs }
  where
    same :
        (runs : List TestExecution) (run : TestExecution)
        → Mem run (newest_first runs) ↔ Mem run runs
    same [] run = (λ m. m, λ m. m)
    same (x ∷ xs) run = ground (arith, Mem-insert x run (newest_first xs), same xs run)

    sorted : (runs : List TestExecution) → NewestFirst (newest_first runs)
    sorted [] = tt
    sorted (x ∷ xs) = NewestFirst-insert x (newest_first xs) (sorted xs)

abbrev ann : User
ann = record { id = 7; username = text "ann"; display_name = none; email = none }

abbrev run : Text → ℕ → TestExecution
run name time = pending_row name ann (text "pytest") (text "img") (at (pos time))

abbrev history : Database
history = record database {
  users = ann ∷ [];
  executions =
      run (text "t1") 5 ∷ record (run (text "t2") 9) { user_id = 8 } ∷ run (text "t3") 7 ∷ [];
}

abbrev ann_runs : List TestExecution
ann_runs = run (text "t3") 7 ∷ run (text "t1") 5 ∷ []

dashboard_run : dashboard newest_first history (some ann) ≡ runs_page ann ann_runs
unfolding dashboard newest_first insert
dashboard_run = refl

dashboard-IsPage_example :
    (runs : List TestExecution) × (dashboard newest_first history (some ann) ≡ runs_page ann runs)
    × IsPage ann history runs
dashboard-IsPage_example = dashboard-IsPage newest_first history ann newest_first-Orders

-- A directory that takes one password.
unfoldable bind : Text → Text → Result Profile
unfolding text_eq
bind username password =
    if text_eq.test password (text "pw")
    then ok (record { display_name = username; email = none })
    else err ldap_auth_error

program : Unit {0}
unfolding bind login_submit authenticate_ldap user_by_name session_by_token user_of resolve_session
    lt_datetime require_non_empty_str strip lstrip is_space text_eq execution_by_id ws_logs
    log_exchange_for ◌+ℤ◌ ◌*ℤ◌
program = tt

login_run :
    (login_submit bind calm 1 (text "tok") (at (pos 0)) (text "ann") (text "pw") world).0
    ≡ ok (signed_in (text "tok") (pos 43200))
unfolding program
login_run = refl

abbrev after : World
after = (login_submit bind calm 1 (text "tok") (at (pos 0)) (text "ann") (text "pw") world).1

login_submit-current_user_example :
    (text "tok" ≡ text "tok")
    × (user : User) × (user.username ≡ text "ann")
    × ((later : Datetime)
        → later.aware ≡ true
        → later.micros ≤ℤ pos 0 +ℤ pos 43200 *ℤ pos 1000000
        → current_user after.db (some (text "tok")) later ≡ ok (some user))
login_submit-current_user_example =
    login_submit-current_user bind calm 1 (text "tok") (at (pos 0)) (text "ann") (text "pw") world
      (text "tok") (pos 43200) refl (unfold program in refl) tt refl login_run

-- It knows one name, and one password.
abbrev directory : Directory
directory = record {
  user_dn = λ name. text "uid=" ++ (name ++ text ",ou=people");
  base_dn = text "ou=people";
  connect = λ dn password. if text_eq.test password (text "pw") then ok tt else err ldap_error;
  search = λ base filter. ok (record { cn = some (text "Ann"); mail = some (text "") } ∷ []);
  unbind = ok tt;
}

bind_run :
    ldap_bind directory (text "ann") (text "pw")
    ≡ ok (record { display_name = text "Ann"; email = none })
unfolding ldap_bind text_eq
bind_run = refl

login_submit-refuses_example :
    ((cookie : Text) (age : ℤ)
      → (login_submit
          (ldap_bind directory)
          calm
          1
          (text "tok")
          (at (pos 0))
          (text "ann")
          (text "no")
          world).0
        ≢ ok (signed_in cookie age))
    × ((login_submit
          (ldap_bind directory)
          calm
          1
          (text "tok")
          (at (pos 0))
          (text "ann")
          (text "no")
          world).1
        ≡ world)
login_submit-refuses_example =
    login_submit-refuses directory calm 1 (text "tok") (at (pos 0)) (text "ann") (text "no") world
      ldap_error (unfold text_eq in refl)

ws_logs_iff_example :
    (ws_logs after.db (some (text "tok")) (at (pos 500)) (text "t9")
      ≡ ok (streams (text "test_logs.t9")))
    ↔ ((user : User) × (resolve_session after.db (some (text "tok")) (at (pos 500))
          ≡ ok (some user))
        × (text "test_logs.t9" ≡ log_exchange_for (text "t9"))
        × ((run : TestExecution)
            → execution_by_id (text "t9") after.db.executions ≡ some run
            → run.user_id ≡ user.id))
ws_logs_iff_example =
    ws_logs_iff after.db (some (text "tok")) (at (pos 500)) (text "t9") (text "test_logs.t9")

-- A run that is not there yet may be read by whoever is logged in.
ws_logs_run :
    ws_logs after.db (some (text "tok")) (at (pos 500)) (text "t9")
    ≡ ok (streams (text "test_logs.t9"))
unfolding program
ws_logs_run = refl

render_line-tags_example : tags_of (render_line (text "<b>&</b>")) ≡ text "<><><><>"
render_line-tags_example = render_line-tags (text "<b>&</b>")
