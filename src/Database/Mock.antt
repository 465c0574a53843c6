-- ===== src/Database/Mock.antt =====
-- internal/database/mock.go: a client that accepts each call without a server.
use dbaas_controller.Prelude.{String, ℤ, pos, refl}
use dbaas_controller.Go.{Result, ok}
use dbaas_controller.Database.{RelationalDatabaseInfo}
use dbaas_controller.Cluster.{Env}
use dbaas_controller.Request.Serving.{ClientServes}

abbrev mock_info : RelationalDatabaseInfo
mock_info = record { username = "user"; password = "pass"; dbname = "db" }

abbrev mock_ping : String → String → Result (Unit {0})
mock_ping dsn kind = ok tt

abbrev mock_version : String → String → Result String
mock_version dsn kind = ok "5.7.34"

abbrev mock_initialize : String → String → Result (Unit {0})
mock_initialize dsn kind = ok tt

abbrev mock_create_database :
    String → String → String → String → String → Result RelationalDatabaseInfo
mock_create_database dsn name namespace kind username = ok mock_info

abbrev mock_drop_database : String → String → String → String → Result (Unit {0})
mock_drop_database dsn name namespace kind = ok tt

abbrev mock_get_database_info : String → String → String → String → Result RelationalDatabaseInfo
mock_get_database_info dsn name namespace kind = ok mock_info

abbrev mock_set_database_info :
    String → String → String → String → RelationalDatabaseInfo → Result (Unit {0})
mock_set_database_info dsn name namespace kind i = ok tt

abbrev mock_load : String → String → Result ℤ
mock_load dsn kind = ok (pos 10)

-- The cluster with this client
abbrev pub mocked : Env → Env
mocked env = record env {
  ping = λ h. mock_ping;
  version = λ h. mock_version;
  load = λ h. mock_load;
  initialize = λ h. mock_initialize;
  create_database = λ h. mock_create_database;
  drop_database = λ h. mock_drop_database;
  get_database_info = λ h. mock_get_database_info;
  set_database_info = λ h. mock_set_database_info;
}

pub mocked-Serves : (env : Env) → ClientServes (mocked env)
mocked-Serves env = record {
  load = λ dsn type. record { value = λ h. pos 10; given = λ h. refl; holds = λ h. refl };
  created = λ dsn name namespace type user. record {
    value = λ h. mock_info;
    given = λ h. refl;
    holds = λ h. tt;
  };
  known = λ dsn name namespace type. record {
    value = λ h. mock_info;
    given = λ h. refl;
    holds = λ h. tt;
  };
}
