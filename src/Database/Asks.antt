-- ===== src/Database/Asks.antt =====
-- Each call to a server in the operations on the users and the monitoring goes to the dsn that was given.
use dbaas_controller.Prelude.{◌≡◌, String}
use dbaas_controller.Cluster.{History}
use dbaas_controller.Cluster.Triple.{Keeps, triple_rules}
use dbaas_controller.Database.{RelationalDatabaseInfo}
use dbaas_controller.Database.Server.{Handle, Sql}
use dbaas_controller.Database.Monitor.{
  ping, version, measure, load, initialize_mysql, initialize_postgres, initialize,
}
use dbaas_controller.Database.Users.{
  register, find_user, database_info_mysql, database_info_postgres, insert_user_mysql,
  insert_user_postgres, get_database_info, set_database_info,
}
use dbaas_controller.Database.Cache.{Talks, serve-Talks, connected-Talks, fresh_info-Talks}

module _ {S : Type 0} (sql : Sql S) (dsn : String) (g : History) where
  pub ping-Talks : (type : String) → Keeps (Talks dsn g) (ping sql dsn type)
  unfolding ping
  ping-Talks type =
      connected-Talks sql dsn g _ type _ (λ h e. search (triple_rules, serve-Talks) depth 9)

  pub version-Talks : (type : String) → Keeps (Talks dsn g) (version sql dsn type)
  unfolding version
  version-Talks type =
      connected-Talks sql dsn g _ type _ (λ h e. search (triple_rules, serve-Talks) depth 9)

  measure-Talks :
      (h : Handle) (type statement : String)
      → h.dsn ≡ dsn
      → Keeps (Talks dsn g) (measure sql h type statement)
  unfolding measure
  measure-Talks h type statement e = search (triple_rules, serve-Talks) depth 9

  pub load-Talks : (type : String) → Keeps (Talks dsn g) (load sql dsn type)
  unfolding load
  load-Talks type =
      connected-Talks sql dsn g _ type _ (λ h e. search (triple_rules, measure-Talks) depth 9)

  initialize_mysql-Talks :
      (h : Handle) (type : String) → h.dsn ≡ dsn → Keeps (Talks dsn g) (initialize_mysql sql h type)
  unfolding initialize_mysql
  initialize_mysql-Talks h type e = search (triple_rules, serve-Talks) depth 12

  initialize_postgres-Talks :
      (h : Handle) (type : String)
      → h.dsn ≡ dsn
      → Keeps (Talks dsn g) (initialize_postgres sql h type)
  unfolding initialize_postgres
  initialize_postgres-Talks h type e = search (triple_rules, serve-Talks) depth 12

  pub initialize-Talks : (type : String) → Keeps (Talks dsn g) (initialize sql dsn type)
  unfolding initialize
  initialize-Talks type =
      connected-Talks sql dsn g _ type _
        (λ h e. search (triple_rules, initialize_mysql-Talks, initialize_postgres-Talks) depth 9)

  register-Talks :
      (h : Handle) (insert name namespace : String)
      → h.dsn ≡ dsn
      → Keeps (Talks dsn g) (register sql h insert name namespace)
  unfolding register
  register-Talks h insert name namespace e =
      search (triple_rules, fresh_info-Talks, serve-Talks) depth 12

  find_user-Talks :
      (h : Handle) (type select insert name namespace : String)
      → h.dsn ≡ dsn
      → Keeps (Talks dsn g) (find_user sql h type select insert name namespace)
  unfolding find_user
  find_user-Talks h type select insert name namespace e =
      search (triple_rules, serve-Talks, register-Talks) depth 9

  pub database_info_mysql-Talks :
      (name namespace : String) → Keeps (Talks dsn g) (database_info_mysql sql dsn name namespace)
  unfolding database_info_mysql
  database_info_mysql-Talks name namespace =
      connected-Talks sql dsn g _ _ _
        (λ h e. search (triple_rules, serve-Talks, find_user-Talks) depth 12)

  pub database_info_postgres-Talks :
      (name namespace : String)
      → Keeps (Talks dsn g) (database_info_postgres sql dsn name namespace)
  unfolding database_info_postgres
  database_info_postgres-Talks name namespace =
      connected-Talks sql dsn g _ _ _ (λ h e. find_user-Talks h _ _ _ name namespace e)

  insert_user_mysql-Talks :
      (name namespace : String) (i : RelationalDatabaseInfo)
      → Keeps (Talks dsn g) (insert_user_mysql sql dsn name namespace i)
  unfolding insert_user_mysql
  insert_user_mysql-Talks name namespace i =
      connected-Talks sql dsn g _ _ _ (λ h e. search (triple_rules, serve-Talks) depth 12)

  insert_user_postgres-Talks :
      (name namespace : String) (i : RelationalDatabaseInfo)
      → Keeps (Talks dsn g) (insert_user_postgres sql dsn name namespace i)
  unfolding insert_user_postgres
  insert_user_postgres-Talks name namespace i =
      connected-Talks sql dsn g _ _ _ (λ h e. search (triple_rules, serve-Talks) depth 12)

  pub get_database_info-Talks :
      (name namespace type : String)
      → Keeps (Talks dsn g) (get_database_info sql dsn name namespace type)
  unfolding get_database_info
  get_database_info-Talks name namespace type =
      search (triple_rules, database_info_mysql-Talks, database_info_postgres-Talks) depth 9

  pub set_database_info-Talks :
      (name namespace type : String) (i : RelationalDatabaseInfo)
      → Keeps (Talks dsn g) (set_database_info sql dsn name namespace type i)
  unfolding set_database_info
  set_database_info-Talks name namespace type i =
      search (triple_rules, insert_user_mysql-Talks, insert_user_postgres-Talks) depth 9
