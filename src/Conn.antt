-- ===== src/Conn.antt =====
-- `reldbConn` of internal/controller/relationaldatabaseprovider_controller.go and its DSN.
use dbaas_controller.Prelude.{String, ◌<>◌, ◌==◌, Bool, List, ℤ, if◌then◌else◌}
use dbaas_controller.Prelude.Texts.{itoa}

pub record ReldbConn : Type 0 where
  pub db_type : String
  pub name : String
  pub hostname : String
  pub replica_hostnames : List String
  pub password : String
  pub port : ℤ
  pub username : String
  pub enabled : Bool

unfoldable pub get_dsn : ReldbConn → Bool → String
unfolding itoa
get_dsn rc use_database =
    if rc.db_type == "mysql"
    then (rc.username
        <> ":"
        <> rc.password
        <> "@tcp("
        <> rc.hostname
        <> ":"
        <> itoa rc.port
        <> ")/")
      <> (if use_database then rc.name else "")
    else if rc.db_type == "postgres"
    then ("host="
        <> rc.hostname
        <> " port="
        <> itoa rc.port
        <> " user="
        <> rc.username
        <> " password="
        <> rc.password
        <> " sslmode=disable")
      <> (if use_database then " dbname=" <> rc.name else " dbname=" <> "postgres")
    else ""
