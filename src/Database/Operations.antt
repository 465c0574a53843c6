-- ===== src/Database/Operations.antt =====
-- The operations of `RelationalDatabaseInterface`, one after the other.
use dbaas_controller.Prelude.{ℕ, String, List, [], ◌∷◌}
use dbaas_controller.Cluster.{Run, Exec, History, pure, ◌>>◌}
use dbaas_controller.Database.{RelationalDatabaseInfo}
use dbaas_controller.Database.Credentials.{Draws}
use dbaas_controller.Database.Server.{Sql, World}
use dbaas_controller.Database.Monitor
use dbaas_controller.Database.Users
use dbaas_controller.Database.Databases

pub data Operation : Type 0 where
  ping version load initialize : Operation
  create_database : String → String → String → Operation
  drop_database get_database_info : String → String → Operation
  set_database_info : String → String → RelationalDatabaseInfo → Operation

-- An operation with its dsn and its type
pub record Order : Type 0 where
  pub operation : Operation
  pub dsn : String
  pub type : String

-- `New()`, with servers and random numbers
abbrev pub new_client : {S : Type 0} → S → (ℕ → Draws) → World S
new_client servers draws = record { cache = []; servers = servers; draws = draws; used = 0 }

module _ {S : Type 0} (sql : Sql S) where
  abbrev done : {A : Type 0} → Exec (World S) A → Exec (World S) (Unit {0})
  done m = do m; pure tt

  unfoldable pub perform : Operation → String → String → Exec (World S) (Unit {0})
  perform ping dsn type = Monitor.ping sql dsn type
  perform version dsn type = done (Monitor.version sql dsn type)
  perform load dsn type = done (Monitor.load sql dsn type)
  perform initialize dsn type = Monitor.initialize sql dsn type
  perform (create_database name namespace user) dsn type =
      done (Databases.create_database sql dsn name namespace type user)
  perform (drop_database name namespace) dsn type =
      Databases.drop_database sql dsn name namespace type
  perform (get_database_info name namespace) dsn type =
      done (Users.get_database_info sql dsn name namespace type)
  perform (set_database_info name namespace i) dsn type =
      Users.set_database_info sql dsn name namespace type i

  -- However the operations end, the next ones go on from there.
  unfoldable pub perform_all : List Order → Run (World S) → Run (World S)
  perform_all [] s = s
  perform_all (o ∷ os) s = perform_all os (perform o.operation o.dsn o.type s).1

  -- The state that a new client reaches by the operations
  abbrev pub reached : S → (ℕ → Draws) → History → List Order → Run (World S)
  reached servers draws h os =
      perform_all os (record { object = new_client servers draws; history = h })
