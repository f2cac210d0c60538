-- ===== src/Db/Engine.antt =====
-- app/db/session.py: the options of the engine and the creation of the tables. SQLAlchemy's `create_all`
-- is a parameter.
use text.Mathlib.Text.{starts_with}
use what_a_secure_app_should.Base.{Bool, true, false, String, if◌then◌else◌}

-- The keyword arguments of `create_engine`.
pub data EngineOptions : Type 0 where
  connect_args : (check_same_thread : Bool) → EngineOptions
  pool_pre_ping : Bool → EngineOptions

unfoldable pub engine_kwargs : String → EngineOptions
engine_kwargs url = if starts_with url "sqlite" then connect_args false else pool_pre_ping true
