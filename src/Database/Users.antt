-- ===== src/Database/Users.antt =====
-- The table of the users: `databaseInfoMySQL`, `databaseInfoPostgreSQL`, `insertUserInfoIntoMysql`,
-- `insertUserInfoIntoPostgreSQL`, `GetDatabaseInfo` and `SetDatabaseInfo` of
-- internal/database/database.go.
use dbaas_controller.Prelude.{String, ◌<>◌, ◌==◌, List, [], ◌∷◌, if◌then◌else◌}
use dbaas_controller.Go.{wrap}
use dbaas_controller.Cluster.{Exec, pure, raise, attempt, ◌>>=◌, ◌>>◌, wrapping}
use dbaas_controller.Database.{RelationalDatabaseInfo, mysql, postgres}
use dbaas_controller.Database.Server.{
  Handle, Sql, World, is_no_rows, exec, query_user, fresh_info, get_connection,
}
use dbaas_controller.Database.Monitor.{unsupported}

abbrev pub use_controller : String
use_controller = "USE dbaas_controller"

abbrev pub select_mysql : String
select_mysql = "SELECT username, password, dbname FROM users WHERE name = ? AND namespace = ?"

abbrev pub insert_mysql : String
insert_mysql =
    "INSERT INTO users (name, namespace, username, password, dbname) VALUES (?, ?, ?, ?, ?)"

abbrev pub insert_ignore_mysql : String
insert_ignore_mysql =
    "INSERT IGNORE INTO users (name, namespace, username, password, dbname) VALUES (?, ?, ?, ?, ?)"

abbrev pub select_postgres : String
select_postgres =
    "SELECT username, password, dbname FROM dbaas_controller.users WHERE name = $1 AND namespace = $2"

abbrev pub insert_postgres : String
insert_postgres =
    "INSERT INTO dbaas_controller.users (name, namespace, username, password, dbname) VALUES ($1, $2, $3, $4, $5)"

abbrev pub insert_ignore_postgres : String
insert_ignore_postgres =
    "INSERT INTO dbaas_controller.users (name, namespace, username, password, dbname) VALUES ($1, $2, $3, $4, $5) ON CONFLICT DO NOTHING"

-- The arguments of an insertion
abbrev pub row_of : String → String → RelationalDatabaseInfo → List String
row_of name namespace i = name ∷ namespace ∷ i.username ∷ i.password ∷ i.dbname ∷ []

module _ {S : Type 0} (sql : Sql S) where
  -- New credentials, inserted
  unfoldable pub register :
      Handle → String → String → String → Exec (World S) RelationalDatabaseInfo
  register h insert name namespace = do
    i ← fresh_info namespace
    wrapping "failed to insert user into users table: "
        (exec sql h insert (row_of name namespace i))
    pure i

  -- The row of the table, or a new one
  unfoldable pub find_user :
      Handle → String → String → String → String → String → Exec (World S) RelationalDatabaseInfo
  find_user h type select insert name namespace =
      attempt (query_user sql h select (name ∷ namespace ∷ []))
        (λ e.
          if is_no_rows e
          then register h insert name namespace
          else raise (wrap ("failed " <> type <> " to query users table: ") e))
        pure

  unfoldable pub database_info_mysql :
      String → String → String → Exec (World S) RelationalDatabaseInfo
  database_info_mysql dsn name namespace = do
    h ←
        wrapping ("create database failed to open " <> mysql <> " database: ")
          (get_connection sql dsn mysql)
    wrapping "failed to select database: " (exec sql h use_controller [])
    find_user h mysql select_mysql insert_mysql name namespace

  unfoldable pub database_info_postgres :
      String → String → String → Exec (World S) RelationalDatabaseInfo
  database_info_postgres dsn name namespace = do
    h ←
        wrapping ("create database failed to open " <> postgres <> " database: ")
          (get_connection sql dsn postgres)
    find_user h postgres select_postgres insert_postgres name namespace

  unfoldable pub insert_user_mysql :
      String → String → String → RelationalDatabaseInfo → Exec (World S) (Unit {0})
  insert_user_mysql dsn name namespace i = do
    h ←
        wrapping ("set database info failed to open " <> mysql <> " database: ")
          (get_connection sql dsn mysql)
    wrapping "failed to select database: " (exec sql h use_controller [])
    wrapping "failed to insert user into users table: "
        (exec sql h insert_ignore_mysql (row_of name namespace i))

  unfoldable pub insert_user_postgres :
      String → String → String → RelationalDatabaseInfo → Exec (World S) (Unit {0})
  insert_user_postgres dsn name namespace i = do
    h ←
        wrapping ("set database info failed to open " <> postgres <> " database: ")
          (get_connection sql dsn postgres)
    wrapping "failed to insert user into users table: "
        (exec sql h insert_ignore_postgres (row_of name namespace i))

  unfoldable pub get_database_info :
      String → String → String → String → Exec (World S) RelationalDatabaseInfo
  get_database_info dsn name namespace type =
      if type == mysql
      then database_info_mysql dsn name namespace
      else if type == postgres
      then database_info_postgres dsn name namespace
      else raise (unsupported "get database failed to get " type)

  -- A type that is not supported is no error.
  unfoldable pub set_database_info :
      String → String → String → String → RelationalDatabaseInfo → Exec (World S) (Unit {0})
  set_database_info dsn name namespace type i =
      if type == mysql
      then insert_user_mysql dsn name namespace i
      else if type == postgres
      then insert_user_postgres dsn name namespace i
      else pure tt
