-- ===== src/Database/Databases.antt =====
-- `CreateDatabase` and `DropDatabase` of internal/database/database.go.
use dbaas_controller.Prelude.{String, ◌<>◌, ◌==◌, Bool, false, [], if◌then◌else◌, nat_eq}
use dbaas_controller.Go.{ErrorKind, postgres_error, wrap}
use dbaas_controller.Cluster.{Exec, pure, raise, attempt, ◌>>=◌, ◌>>◌, wrapping}
use dbaas_controller.Database.{RelationalDatabaseInfo, mysql, postgres}
use dbaas_controller.Database.Server.{
  Handle, Sql, World, is_no_rows, exec, query_number, get_connection,
}
use dbaas_controller.Database.Monitor.{unsupported}
use dbaas_controller.Database.Users.{database_info_mysql, database_info_postgres}

abbrev pub create_mysql_database : RelationalDatabaseInfo → String
create_mysql_database i = "CREATE DATABASE IF NOT EXISTS `" <> i.dbname <> "`"

abbrev pub create_mysql_user : RelationalDatabaseInfo → String
create_mysql_user i =
    "CREATE USER IF NOT EXISTS '" <> i.username <> "'@'%' IDENTIFIED BY '" <> i.password <> "'"

abbrev pub grant_mysql : RelationalDatabaseInfo → String
grant_mysql i =
    "GRANT SELECT, INSERT, UPDATE, DELETE, CREATE, DROP, REFERENCES, INDEX, ALTER, CREATE TEMPORARY TABLES, LOCK TABLES, EXECUTE, CREATE VIEW, SHOW VIEW, CREATE ROUTINE, ALTER ROUTINE, EVENT, TRIGGER ON `"
    <> i.dbname <> "`.* TO '" <> i.username <> "'@'%'"

abbrev pub flush_privileges : String
flush_privileges = "FLUSH PRIVILEGES"

abbrev pub select_role : RelationalDatabaseInfo → String
select_role i = "SELECT 1 FROM pg_roles WHERE rolname='" <> i.username <> "'"

abbrev pub create_postgres_user : RelationalDatabaseInfo → String
create_postgres_user i =
    "CREATE USER \"" <> i.username <> "\" WITH ENCRYPTED PASSWORD '" <> i.password <> "'"

abbrev pub grant_postgres : RelationalDatabaseInfo → String → String
grant_postgres i provider = "GRANT \"" <> i.username <> "\" TO \"" <> provider <> "\";"

abbrev pub create_postgres_database : RelationalDatabaseInfo → String
create_postgres_database i = "CREATE DATABASE \"" <> i.dbname <> "\" OWNER \"" <> i.username <> "\""

abbrev pub drop_mysql_database : RelationalDatabaseInfo → String
drop_mysql_database i = "DROP DATABASE IF EXISTS `" <> i.dbname <> "`"

abbrev pub drop_mysql_user : RelationalDatabaseInfo → String
drop_mysql_user i = "DROP USER IF EXISTS '" <> i.username <> "'@'%'"

abbrev pub disconnect_users : RelationalDatabaseInfo → String
disconnect_users i =
    "SELECT pg_terminate_backend(pg_stat_activity.pid) FROM pg_stat_activity WHERE pg_stat_activity.datname = '"
    <> i.dbname <> "' AND pid <> pg_backend_pid()"

abbrev pub drop_postgres_database : RelationalDatabaseInfo → String
drop_postgres_database i = "DROP DATABASE IF EXISTS \"" <> i.dbname <> "\""

abbrev pub drop_postgres_user : RelationalDatabaseInfo → String
drop_postgres_user i = "DROP USER IF EXISTS \"" <> i.username <> "\""

abbrev pub is_duplicate_database : ErrorKind → Bool
is_duplicate_database (postgres_error code) = code == "42P04"
is_duplicate_database _ = false

module _ {S : Type 0} (sql : Sql S) where
  unfoldable pub create_mysql :
      Handle → String → String → String → Exec (World S) RelationalDatabaseInfo
  create_mysql h dsn name namespace = do
    i ←
        wrapping ("create " <> mysql <> " database failed to get database info: ")
          (database_info_mysql sql dsn name namespace)
    wrapping
        ("create " <> mysql <> " database error in creating the database `" <> i.dbname <> "`: ")
        (exec sql h (create_mysql_database i) [])
    wrapping ("create " <> mysql <> " database error creating user `" <> i.username <> "`: ")
        (exec sql h (create_mysql_user i) [])
    wrapping
        ("create " <> mysql <> " database error granting privileges to user `" <> i.username
          <> "` on database `" <> i.dbname <> "`: ")
        (exec sql h (grant_mysql i) [])
    wrapping ("create " <> mysql <> " database error flushing privileges: ")
        (exec sql h flush_privileges [])
    pure i

  -- The role, unless there is one
  unfoldable pub ensure_role : Handle → RelationalDatabaseInfo → Exec (World S) (Unit {0})
  ensure_role h i = do
    user_exists ←
        attempt (query_number sql h (select_role i))
          (λ e.
            if is_no_rows e
            then pure 0
            else raise (
                wrap
                  ("create " <> postgres <> " database error in check if user exists in database `"
                    <> i.dbname <> "`: ")
                  e))
          pure
    if nat_eq user_exists 0
        then wrapping
            ("create " <> postgres <> " database error in create user in database `" <> i.dbname
              <> "`: ")
            (exec sql h (create_postgres_user i) [])
        else pure tt

  -- The database; that it exists already is no error.
  unfoldable pub ensure_database : Handle → RelationalDatabaseInfo → Exec (World S) (Unit {0})
  ensure_database h i =
      attempt (exec sql h (create_postgres_database i) [])
        (λ e.
          if is_duplicate_database e.kind
          then pure tt
          else raise (
              wrap
                ("create " <> postgres <> " database error in creating the database `" <> i.dbname
                  <> "`: ")
                e))
        pure

  unfoldable pub create_postgres :
      Handle → String → String → String → String → Exec (World S) RelationalDatabaseInfo
  create_postgres h dsn name namespace provider_username = do
    i ←
        wrapping ("create database failed to get " <> postgres <> " database info: ")
          (database_info_postgres sql dsn name namespace)
    ensure_role h i
    wrapping
        ("create " <> postgres <> " database error in grant user access to `" <> i.username
          <> "`: ")
        (exec sql h (grant_postgres i provider_username) [])
    ensure_database h i
    pure i

  unfoldable pub create_database :
      String → String → String → String → String → Exec (World S) RelationalDatabaseInfo
  create_database dsn name namespace type provider_username = do
    h ←
        wrapping ("create database failed to open " <> type <> " database: ")
          (get_connection sql dsn type)
    if type == mysql
        then create_mysql h dsn name namespace
        else if type == postgres
        then create_postgres h dsn name namespace provider_username
        else raise (unsupported "create database failed to create " type)

  unfoldable pub drop_mysql : Handle → String → String → String → Exec (World S) (Unit {0})
  drop_mysql h dsn name namespace = do
    i ←
        wrapping "drop database failed to get database info: "
          (database_info_mysql sql dsn name namespace)
    wrapping ("drop database failed to drop " <> mysql <> " database: ")
        (exec sql h (drop_mysql_database i) [])
    wrapping "drop database failed to drop user: " (exec sql h (drop_mysql_user i) [])
    wrapping "drop database failed to flush privileges: " (exec sql h flush_privileges [])

  unfoldable pub drop_postgres : Handle → String → String → String → Exec (World S) (Unit {0})
  drop_postgres h dsn name namespace = do
    i ←
        wrapping "drop database failed to get database info: "
          (database_info_postgres sql dsn name namespace)
    wrapping ("drop database failed to disconnect users from " <> postgres <> " database: ")
        (exec sql h (disconnect_users i) [])
    wrapping ("drop database failed to drop " <> postgres <> " database: ")
        (exec sql h (drop_postgres_database i) [])
    wrapping "drop database failed to drop user: " (exec sql h (drop_postgres_user i) [])

  unfoldable pub drop_database : String → String → String → String → Exec (World S) (Unit {0})
  drop_database dsn name namespace type = do
    h ←
        wrapping ("drop database failed to open " <> type <> " database: ")
          (get_connection sql dsn type)
    if type == mysql
        then drop_mysql h dsn name namespace
        else if type == postgres
        then drop_postgres h dsn name namespace
        else raise (unsupported "drop database failed to drop " type)
