-- ===== src/Database/Talk.antt =====
-- The operations of the client keep the cache and call no other server.
use dbaas_controller.Prelude.{◌≡◌, ℕ, String, none-is-not-some, List, [], ◌∷◌}
use dbaas_controller.Api.{lookup}
use dbaas_controller.Cluster.{Run, History}
use dbaas_controller.Cluster.Triple.{Keeps, Keeps-run, triple_rules}
use dbaas_controller.Cluster.Order.{Only, Only-refl}
use dbaas_controller.Database.{RelationalDatabaseInfo}
use dbaas_controller.Database.Credentials.{Draws}
use dbaas_controller.Database.Server.{Handle, Sql, World}
use dbaas_controller.Database.Databases.{
  create_mysql, ensure_role, ensure_database, create_postgres, create_database, drop_mysql,
  drop_postgres, drop_database,
}
use dbaas_controller.Database.Operations.{Operation, Order, reached, perform, perform_all}
use dbaas_controller.Database.Cache.{IsCache, AtDsn, Talks, serve-Talks, connected-Talks}
use dbaas_controller.Database.Asks.{
  ping-Talks, version-Talks, load-Talks, initialize-Talks, database_info_mysql-Talks,
  database_info_postgres-Talks, get_database_info-Talks, set_database_info-Talks,
}

module _ {S : Type 0} (sql : Sql S) (dsn : String) (g : History) where
  create_mysql-Talks :
      (h : Handle) (name namespace : String)
      → h.dsn ≡ dsn
      → Keeps (Talks dsn g) (create_mysql sql h dsn name namespace)
  unfolding create_mysql
  create_mysql-Talks h name namespace e =
      search (triple_rules, database_info_mysql-Talks sql dsn g, serve-Talks) depth 20

  ensure_role-Talks :
      (h : Handle) (i : RelationalDatabaseInfo)
      → h.dsn ≡ dsn
      → Keeps (Talks dsn g) (ensure_role sql h i)
  unfolding ensure_role
  ensure_role-Talks h i e = search (triple_rules, serve-Talks) depth 12

  ensure_database-Talks :
      (h : Handle) (i : RelationalDatabaseInfo)
      → h.dsn ≡ dsn
      → Keeps (Talks dsn g) (ensure_database sql h i)
  unfolding ensure_database
  ensure_database-Talks h i e = search (triple_rules, serve-Talks) depth 12

  create_postgres-Talks :
      (h : Handle) (name namespace user : String)
      → h.dsn ≡ dsn
      → Keeps (Talks dsn g) (create_postgres sql h dsn name namespace user)
  unfolding create_postgres
  create_postgres-Talks h name namespace user e =
      search
        (
          triple_rules,
          database_info_postgres-Talks sql dsn g,
          ensure_role-Talks,
          ensure_database-Talks,
          serve-Talks,
        )
        depth 20

  create_database-Talks :
      (name namespace type user : String)
      → Keeps (Talks dsn g) (create_database sql dsn name namespace type user)
  unfolding create_database
  create_database-Talks name namespace type user =
      connected-Talks sql dsn g _ type _
        (λ h e. search (triple_rules, create_mysql-Talks, create_postgres-Talks) depth 9)

  drop_mysql-Talks :
      (h : Handle) (name namespace : String)
      → h.dsn ≡ dsn
      → Keeps (Talks dsn g) (drop_mysql sql h dsn name namespace)
  unfolding drop_mysql
  drop_mysql-Talks h name namespace e =
      search (triple_rules, database_info_mysql-Talks sql dsn g, serve-Talks) depth 20

  drop_postgres-Talks :
      (h : Handle) (name namespace : String)
      → h.dsn ≡ dsn
      → Keeps (Talks dsn g) (drop_postgres sql h dsn name namespace)
  unfolding drop_postgres
  drop_postgres-Talks h name namespace e =
      search (triple_rules, database_info_postgres-Talks sql dsn g, serve-Talks) depth 20

  drop_database-Talks :
      (name namespace type : String)
      → Keeps (Talks dsn g) (drop_database sql dsn name namespace type)
  unfolding drop_database
  drop_database-Talks name namespace type =
      connected-Talks sql dsn g _ type _
        (λ h e. search (triple_rules, drop_mysql-Talks, drop_postgres-Talks) depth 9)

  perform-Talks : (o : Operation) (type : String) → Keeps (Talks dsn g) (perform sql o dsn type)
  unfolding perform
  perform-Talks Operation.ping type = ping-Talks sql dsn g type
  perform-Talks Operation.version type = search (triple_rules, version-Talks sql dsn g)
  perform-Talks Operation.load type = search (triple_rules, load-Talks sql dsn g)
  perform-Talks Operation.initialize type = initialize-Talks sql dsn g type
  perform-Talks (Operation.create_database name namespace user) type =
      search (triple_rules, create_database-Talks)
  perform-Talks (Operation.drop_database name namespace) type =
      drop_database-Talks name namespace type
  perform-Talks (Operation.get_database_info name namespace) type =
      search (triple_rules, get_database_info-Talks sql dsn g)
  perform-Talks (Operation.set_database_info name namespace i) type =
      set_database_info-Talks sql dsn g name namespace type i

module _ {S : Type 0} (sql : Sql S) where
  perform_all-IsCache :
      (os : List Order) (s : Run (World S))
      → IsCache s.object
      → IsCache (perform_all sql os s).object
  unfolding perform_all
  perform_all-IsCache [] s c = c
  perform_all-IsCache (o ∷ os) s c =
      perform_all-IsCache os _
        (Keeps-run (Talks o.dsn s.history) _ (perform-Talks sql o.dsn s.history o.operation o.type)
          s (record { cached = c; only = Only-refl (AtDsn o.dsn) s })).cached

  -- After any operations of a new client, however they ended, one more operation leaves each connection in
  -- the cache under its own dsn, and each of its calls to a server goes to the dsn that it was given.
  pub perform-AtDsn :
      (servers : S) (draws : ℕ → Draws) (h : History) (os : List Order) (o : Operation)
      (dsn type : String)
      → IsCache (perform sql o dsn type (reached sql servers draws h os)).1.object
        × Only
            (AtDsn dsn)
            (reached sql servers draws h os).history
            (perform sql o dsn type (reached sql servers draws h os)).1
  unfolding lookup
  perform-AtDsn servers draws h os o dsn type =
      let s = reached sql servers draws h os in
      let t = Keeps-run (Talks dsn s.history) _ (perform-Talks sql dsn s.history o type) s (record {
        cached = perform_all-IsCache os _ (λ d x e. absurd (none-is-not-some e));
        only = Only-refl (AtDsn dsn) s;
      }) in
      (t.cached, t.only)
