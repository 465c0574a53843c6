-- ===== src/Database/Unsupported.antt =====
-- Types of servers that the client does not support.
use dbaas_controller.Prelude.{◌≡◌, ◌≢◌, String, ◌==◌, Bool, true, false, false-is-not-true}
use dbaas_controller.Go.{ok}
use dbaas_controller.Cluster.{Run}
use dbaas_controller.Cluster.Failing.{Fails, Failed-NotOk, Fails-raise, Fails-attempt, Fails-first}
use dbaas_controller.Database.{mysql, postgres}
use dbaas_controller.Database.Server.{Sql, World}
use dbaas_controller.Database.Monitor.{load, initialize}
use dbaas_controller.Database.Users.{get_database_info}
use dbaas_controller.Database.Databases.{create_database, drop_database}
use dbaas_controller.Database.Operations.{Operation, perform}

-- The operations whose statements depend on the type, and that return an error for an unknown one
abbrev pub by_type : Operation → Bool
by_type Operation.ping = false
by_type Operation.version = false
by_type (Operation.set_database_info name namespace i) = false
by_type _ = true

module _ {S : Type 0} (sql : Sql S) (dsn type : String) (no_mysql : (type == mysql) ≡ false)
    (no_postgres : (type == postgres) ≡ false) where
  load-Fails : Fails (load sql dsn type)
  unfolding load
  load-Fails = Fails-attempt _ _ _ Fails-raise (λ h. rw no_mysql (rw no_postgres (Fails-raise _)))

  initialize-Fails : Fails (initialize sql dsn type)
  unfolding initialize
  initialize-Fails =
      Fails-attempt _ _ _ Fails-raise (λ h. rw no_mysql (rw no_postgres (Fails-raise _)))

  get_database_info-Fails : (n m : String) → Fails (get_database_info sql dsn n m type)
  unfolding get_database_info
  get_database_info-Fails n m = rw no_mysql (rw no_postgres (Fails-raise _))

  create_database-Fails : (n m user : String) → Fails (create_database sql dsn n m type user)
  unfolding create_database
  create_database-Fails n m user =
      Fails-attempt _ _ _ Fails-raise (λ h. rw no_mysql (rw no_postgres (Fails-raise _)))

  drop_database-Fails : (n m : String) → Fails (drop_database sql dsn n m type)
  unfolding drop_database
  drop_database-Fails n m =
      Fails-attempt _ _ _ Fails-raise (λ h. rw no_mysql (rw no_postgres (Fails-raise _)))

  perform-Fails : (o : Operation) → by_type o ≡ true → Fails (perform sql o dsn type)
  unfolding perform
  perform-Fails Operation.ping e = absurd (false-is-not-true e)
  perform-Fails Operation.version e = absurd (false-is-not-true e)
  perform-Fails (Operation.set_database_info n m i) e = absurd (false-is-not-true e)
  perform-Fails Operation.load e = Fails-first _ _ _ Fails-raise load-Fails
  perform-Fails Operation.initialize e = initialize-Fails
  perform-Fails (Operation.create_database n m user) e =
      Fails-first _ _ _ Fails-raise (create_database-Fails n m user)
  perform-Fails (Operation.drop_database n m) e = drop_database-Fails n m
  perform-Fails (Operation.get_database_info n m) e =
      Fails-first _ _ _ Fails-raise (get_database_info-Fails n m)

  -- For a type that is neither mysql nor postgres, no operation but `Ping`, `Version` and `SetDatabaseInfo`
  -- returns without an error, whatever the servers answer.
  pub perform_unsupported :
      (o : Operation) (s : Run (World S)) → by_type o ≡ true → (perform sql o dsn type s).0 ≢ ok tt
  perform_unsupported o s e = Failed-NotOk _ tt ((perform-Fails o e).at s)
