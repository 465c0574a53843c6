-- ===== src/Database/Monitor.antt =====
-- `Ping`, `Version`, `Load` and `Initialize` of internal/database/database.go.
use dbaas_controller.Prelude.{◌/◌, ℤ, pos, String, ◌<>◌, ◌==◌, ◌||◌, [], if◌then◌else◌, nat_eq}
use dbaas_controller.Go.{Error, ErrorKind, mysql_error, postgres_error, new_error, wrap}
use dbaas_controller.Cluster.{Call, Exec, pure, raise, attempt, ◌>>=◌, ◌>>◌, wrapping}
use dbaas_controller.Database.{mysql, postgres}
use dbaas_controller.Database.Server.{
  Handle, Sql, World, serve, exec, query_text, query_number, get_connection,
}

-- What the error of a driver says of the cause, by its number or its code
unfoldable pub cause : String → ErrorKind → String
cause type (mysql_error n) =
    if type == mysql
    then (if nat_eq n 1044 || nat_eq n 1045
        then "due to invalid credentials"
        else if nat_eq n 1049
        then "due to database does not exist"
        else "")
    else ""
cause type (postgres_error code) =
    if type == postgres
    then (if code == "28P01"
        then "due to invalid credentials"
        else if code == "3D000"
        then "due to database does not exist"
        else "")
    else ""
cause type _ = ""

-- The text before the error of the driver
abbrev pub with_cause : String → String → String
with_cause type because =
    "failed to ping "
    <> type
    <> " database"
    <> (if because == "" then "" else " " <> because)
    <> ": "

unfoldable pub ping_error : String → Error → Error
unfolding cause
ping_error type e = wrap (with_cause type (cause type e.kind)) e

abbrev pub unsupported : String → String → Error
unsupported prefix type = new_error (prefix <> type <> " database: unsupported dbType")

abbrev pub mysql_users : String
mysql_users =
    "\n\t\tCREATE TABLE IF NOT EXISTS users (\n\t\t\tid INT AUTO_INCREMENT PRIMARY KEY,\n\t\t\tname VARCHAR(255) NOT NULL,\n\t\t\tnamespace VARCHAR(255) NOT NULL,\n\t\t\tusername VARCHAR(16) NOT NULL UNIQUE,\n\t\t\tpassword VARCHAR(255) NOT NULL,\n\t\t\tdbname VARCHAR(255) NOT NULL UNIQUE,\n\t\t\tCONSTRAINT unique_name_namespace UNIQUE (name, namespace)\n\t\t) ENGINE=InnoDB"

abbrev pub postgres_users : String
postgres_users =
    "\n\t\tCREATE TABLE IF NOT EXISTS dbaas_controller.users (\n\t\t\tid SERIAL PRIMARY KEY,\n\t\t\tname VARCHAR(255) NOT NULL,\n\t\t\tnamespace VARCHAR(255) NOT NULL,\n\t\t\tusername VARCHAR(16) NOT NULL UNIQUE,\n\t\t\tpassword VARCHAR(255) NOT NULL,\n\t\t\tdbname VARCHAR(255) NOT NULL UNIQUE,\n\t\t\tCONSTRAINT unique_name_namespace UNIQUE (name, namespace)\n\t\t)"

module _ {S : Type 0} (sql : Sql S) where
  unfoldable pub ping : String → String → Exec (World S) (Unit {0})
  ping dsn type = do
    h ← wrapping ("ping failed to open " <> type <> " database: ") (get_connection sql dsn type)
    attempt (serve sql (Call.sql_ping h.dsn) (sql.ping h)) (λ e. raise (ping_error type e)) pure

  unfoldable pub version : String → String → Exec (World S) String
  version dsn type = do
    h ← wrapping ("version failed to open " <> type <> " database: ") (get_connection sql dsn type)
    wrapping ("version failed to get " <> type <> " database version: ")
        (query_text sql h "SELECT VERSION()")

  -- The number of bytes is scanned as a float64. Its divisions by 1024 are exact, and the conversion to
  -- an int cuts the fraction off.
  unfoldable pub measure : Handle → String → String → Exec (World S) ℤ
  measure h type statement = do
    total_load ←
        wrapping ("load failed to get " <> type <> " database load: ")
          (query_number sql h statement)
    pure (pos (total_load / 1024 / 1024))

  unfoldable pub load : String → String → Exec (World S) ℤ
  load dsn type = do
    h ← wrapping ("load failed to open " <> type <> " database: ") (get_connection sql dsn type)
    if type == mysql
        then measure h type "SELECT data_length + index_length FROM information_schema.tables"
        else if type == postgres
        then measure h type "SELECT pg_database_size(current_database())"
        else raise (unsupported "load failed to get " type)

  unfoldable pub initialize_mysql : Handle → String → Exec (World S) (Unit {0})
  initialize_mysql h type = do
    wrapping ("initialize failed to create " <> type <> " database: ")
        (exec sql h "CREATE DATABASE IF NOT EXISTS dbaas_controller" [])
    wrapping ("initialize failed to use " <> type <> " database: ")
        (exec sql h "USE dbaas_controller" [])
    wrapping ("initialize failed to create " <> type <> " table: ") (exec sql h mysql_users [])

  unfoldable pub initialize_postgres : Handle → String → Exec (World S) (Unit {0})
  initialize_postgres h type = do
    wrapping ("initialize failed to create " <> type <> " database: ")
        (exec sql h "CREATE SCHEMA IF NOT EXISTS dbaas_controller" [])
    wrapping ("initialize failed to create " <> type <> " table: ") (exec sql h postgres_users [])

  unfoldable pub initialize : String → String → Exec (World S) (Unit {0})
  initialize dsn type = do
    h ←
        wrapping ("initialize failed to open " <> type <> " database: ")
          (get_connection sql dsn type)
    if type == mysql
        then initialize_mysql h type
        else if type == postgres
        then initialize_postgres h type
        else raise (unsupported "initialize failed to initialize " type)
