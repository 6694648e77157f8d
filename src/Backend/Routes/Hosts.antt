-- ===== src/Backend/Routes/Hosts.antt =====
-- The admin's write is what the scheduler reads; only its owner sees a run's page.
use test_orch.Base.{◌≡◌, ◌↔◌, Option, none, some, nat_eq, arith}
use test_orch.Base.Text.{Text, text_eq}
use test_orch.Backend.Models.{User, TestExecution, Database, execution_by_id}
use test_orch.Backend.Routes.{log_page, test_logs_page}

-- The log page of a run is shown exactly to its owner: the answer is the page of the run if and
-- only if a user is logged in, the run exists and it was submitted by this user.
pub test_logs_page_iff :
    (db : Database) (test_id : Text) (user : Option User) (owner : User) (run : TestExecution)
    → (test_logs_page db test_id user ≡ log_page owner run) ↔ (
        (user ≡ some owner)
        × (execution_by_id test_id db.executions ≡ some run)
        × (run.user_id ≡ owner.id))
unfolding test_logs_page
test_logs_page_iff db test_id none owner run = ground arith
test_logs_page_iff db test_id (some u) owner run = ground arith
