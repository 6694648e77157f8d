-- ===== src/Backend/Database.antt =====
-- backend/database.py: the engine's settings, the creation of the tables, and the session of a
-- request. SQLAlchemy is a library: what the engine is given is a record.
use test_orch.Base.{ℕ, Bool, true}
use test_orch.Base.Text.{Text}
use test_orch.Backend.Config.{Settings, sqlalchemy_url}
use test_orch.Backend.Effects.{Environment, Action, call, create_tables, close_session, try_finally}

pub record Engine : Type 0 where
  pub url : Text
  pub pool_pre_ping : Bool
  pub pool_size : ℕ
  pub max_overflow : ℕ

unfoldable pub engine : Settings → Engine
engine settings = record {
  url = sqlalchemy_url settings;
  pool_pre_ping = true;
  pool_size = 10;
  max_overflow = 20;
}

unfoldable pub init_db : Environment → Action (Unit {0})
init_db env = call env create_tables

-- `get_db` as a context for what the request does between the `yield` and its end.
unfoldable pub with_db {ℓ} : {A : Type ℓ} → Environment → Action A → Action A
with_db env request = try_finally request (call env close_session)
