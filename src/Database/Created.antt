-- ===== src/Database/Created.antt =====
-- `CreateDatabase` against the registry of the credentials.
use dbaas_controller.Prelude.{◌≡◌, refl, ◌∙◌, String, List, [], ◌∷◌, All, nat_eq}
use dbaas_controller.Go.{Result, ok}
use dbaas_controller.Cluster.{Call, Run, Exec, raise, attempt, wrapping}
use dbaas_controller.Cluster.Triple.{
  Assertion, Triple, Keeps, After-const, After-ok, Triple-attempt, Triple-wrapping, Triple-pure,
  Triple-raise, Triple-if,
}
use dbaas_controller.Database.{RelationalDatabaseInfo, mysql, postgres}
use dbaas_controller.Database.Server.{Sql, World, serve, exec, is_no_rows}
use dbaas_controller.Database.Databases.{
  create_mysql_database, create_mysql_user, grant_mysql, flush_privileges, create_postgres_user,
  grant_postgres, create_postgres_database, is_duplicate_database, create_mysql, ensure_role,
  ensure_database, create_postgres, create_database,
}
use dbaas_controller.Database.Users.{get_database_info}
use dbaas_controller.Database.Registry.{
  Registry, Same, Ensured, known, entered, Dialect, my, pg, handle_of, IsTable, IsFor,
}
use dbaas_controller.Database.Ensure.{
  Unchanged, HasEnsured, connected-step, database_info-HasEnsured,
}

-- The statements that make a database and its user, apart from the table of the users
abbrev pub creations :
    {type : String} → Dialect type → RelationalDatabaseInfo → String → List String
creations my i user =
    create_mysql_database i ∷ create_mysql_user i ∷ grant_mysql i ∷ flush_privileges ∷ []
creations pg i user =
    create_postgres_user i ∷ grant_postgres i user ∷ create_postgres_database i ∷ []

Ensured-Same :
    {R R' R'' : Registry} {n m : String} {i : RelationalDatabaseInfo}
    → Same R' R''
    → Ensured R n m i R'
    → Ensured R n m i R''
Ensured-Same f (known e s) = known e (λ a b. f a b ∙ s a b)
Ensured-Same f (entered e s) = entered e (λ a b. f a b ∙ s a b)

module _ {S : Type 0} (sql : Sql S) (dsn : String) (rows : S → Registry) where
  -- These statements and the queries of numbers change no row of the table.
  pub record IsApart {type : String} (d : Dialect type) : Type 0 where
    pub creates :
        (i : RelationalDatabaseInfo) (user : String)
        → All
            (λ statement.
              (t : S) → Same (rows t) (rows (sql.exec (handle_of dsn type) statement [] t).0))
            (creations d i user)
    pub counts :
        (statement : String) (t : S)
        → Same (rows t) (rows (sql.query_number (handle_of dsn type) statement t).0)

  module _ (R : Registry) (n m : String) where
    serve-HasEnsured :
        {type : String} (d : Dialect type) (table : IsTable sql dsn d rows) {A : Type 0}
        (i : RelationalDatabaseInfo) (c : Call) (answer : S → S × Result A)
        → ((t : S) → Same (rows t) (rows (answer t).0))
        → Keeps (HasEnsured sql dsn d rows table R n m i) (serve sql c answer)
    unfolding attempt
    serve-HasEnsured d table i c answer keeps = record {
      at = λ s k.
          After-const (HasEnsured sql dsn d rows table R n m i) (answer s.object.servers).1 _
            (record {
              cached = k.cached;
              ensured = Ensured-Same (keeps s.object.servers) k.ensured;
            });
    }

    module _ {type : String} (d : Dialect type) (table : IsTable sql dsn d rows) where
      abbrev Entered : RelationalDatabaseInfo → Assertion (World S)
      Entered i = HasEnsured sql dsn d rows table R n m i

      then_kept :
          {A : Type 0} (i : RelationalDatabaseInfo) (m' : Exec (World S) A)
          (next : A → Exec (World S) RelationalDatabaseInfo)
          → Keeps (Entered i) m'
          → ((x : A) → Triple (Entered i) (next x) Entered (λ _. Unit))
          → Triple (Entered i) (attempt m' raise next) Entered (λ _. Unit)
      then_kept i m' next k t =
          Triple-attempt (λ _. Entered i) (Entered i) m' raise next k
            (λ e. Triple-raise e (λ s c. tt)) t (λ s c. tt)

      exec-Entered :
          (i : RelationalDatabaseInfo) (statement : String)
          → ((t : S) → Same (rows t) (rows (sql.exec (handle_of dsn type) statement [] t).0))
          → Keeps (Entered i) (exec sql (handle_of dsn type) statement [])
      exec-Entered i statement keeps = serve-HasEnsured d table i _ _ keeps

      info-Entered :
          (prefix : String) (next : RelationalDatabaseInfo → Exec (World S) RelationalDatabaseInfo)
          → ((i : RelationalDatabaseInfo) → Triple (Entered i) (next i) Entered (λ _. Unit))
          → Triple
              (Unchanged sql dsn d rows table R)
              (attempt (wrapping prefix (get_database_info sql dsn n m type)) raise next)
              Entered
              (λ _. Unit)
      info-Entered prefix next t =
          Triple-attempt Entered (Unchanged sql dsn d rows table R) _ _ _
            (Triple-wrapping prefix _ (database_info-HasEnsured sql dsn rows R n m d table))
            (λ e. Triple-raise e (λ s c. tt)) t (λ s c. tt)

    create_mysql-Entered :
        (table : IsTable sql dsn my rows)
        → IsApart my
        → Triple
            (Unchanged sql dsn my rows table R)
            (create_mysql sql (handle_of dsn mysql) dsn n m)
            (Entered my table)
            (λ _. Unit)
    unfolding create_mysql get_database_info
    create_mysql-Entered table apart = info-Entered my table _ _ λ i.
        let (database, (user, (grant, (flush, _)))) = apart.creates i "" in
        then_kept my table i _ _ (Triple-wrapping _ _ (exec-Entered my table i _ database)) λ _.
          then_kept my table i _ _ (Triple-wrapping _ _ (exec-Entered my table i _ user)) λ _.
            then_kept my table i _ _ (Triple-wrapping _ _ (exec-Entered my table i _ grant)) λ _.
              then_kept my table i _ _ (Triple-wrapping _ _ (exec-Entered my table i _ flush))
                λ _. Triple-pure i (λ s c. c)

    module _ (table : IsTable sql dsn pg rows) (apart : IsApart pg)
        (i : RelationalDatabaseInfo) where
      ensure_role-Entered : Keeps (Entered pg table i) (ensure_role sql (handle_of dsn postgres) i)
      unfolding ensure_role
      ensure_role-Entered =
          let (user, _) = apart.creates i "" in
          Triple-attempt (λ _. Entered pg table i) (Entered pg table i) _ _ _
            (Triple-attempt (λ _. Entered pg table i) (Entered pg table i) _ _ _
              (serve-HasEnsured pg table i _ _ (apart.counts _))
              (λ e.
                Triple-if (is_no_rows e) _ _ (λ _. Triple-pure 0 (λ s c. c))
                  (λ _. Triple-raise _ (λ s c. c)))
              (λ x. Triple-pure x (λ s c. c)) (λ s c. c))
            (λ e. Triple-raise e (λ s c. c))
            (λ count.
              Triple-if (nat_eq count 0) _ _
                (λ _. Triple-wrapping _ _ (exec-Entered pg table i _ user))
                (λ _. Triple-pure tt (λ s c. c)))
            (λ s c. c)

      ensure_database-Entered :
          Keeps (Entered pg table i) (ensure_database sql (handle_of dsn postgres) i)
      unfolding ensure_database
      ensure_database-Entered =
          let (_, (_, (database, _))) = apart.creates i "" in
          Triple-attempt (λ _. Entered pg table i) (Entered pg table i) _ _ _
            (exec-Entered pg table i _ database)
            (λ e.
              Triple-if (is_duplicate_database e.kind) _ _ (λ _. Triple-pure tt (λ s c. c))
                (λ _. Triple-raise _ (λ s c. c)))
            (λ x. Triple-pure x (λ s c. c)) (λ s c. c)

    create_postgres-Entered :
        (table : IsTable sql dsn pg rows) (user : String)
        → IsApart pg
        → Triple
            (Unchanged sql dsn pg rows table R)
            (create_postgres sql (handle_of dsn postgres) dsn n m user)
            (Entered pg table)
            (λ _. Unit)
    unfolding create_postgres get_database_info
    create_postgres-Entered table user apart = info-Entered pg table _ _ λ i.
        let (_, (grant, _)) = apart.creates i user in
        then_kept pg table i _ _ (ensure_role-Entered table apart i) λ _.
          then_kept pg table i _ _ (Triple-wrapping _ _ (exec-Entered pg table i _ grant)) λ _.
            then_kept pg table i _ _ (ensure_database-Entered table apart i)
              λ _. Triple-pure i (λ s c. c)

  module _ (n m : String) where
    create_database-Entered :
        (R : Registry) {type : String} (d : Dialect type) (table : IsTable sql dsn d rows)
        (user : String)
        → IsApart d
        → Triple
            (Unchanged sql dsn d rows table R)
            (create_database sql dsn n m type user)
            (HasEnsured sql dsn d rows table R n m)
            (λ _. Unit)
    unfolding create_database
    create_database-Entered R my table user apart =
        connected-step sql dsn my rows table R _ _ (λ s c. tt)
          (create_mysql-Entered R n m table apart)
    create_database-Entered R pg table user apart =
        connected-step sql dsn pg rows table R _ _ (λ s c. tt)
          (create_postgres-Entered R n m table user apart)

    -- If `CreateDatabase` returns credentials, the server at the dsn has a table of the users, the statements
    -- that make a database and its user change no row of it, and the cache has no other connection for the
    -- dsn, then they are the credentials of the name and the namespace, which were there, or were entered if
    -- there were none.
    pub create_database-Ensured :
        {type : String} (d : Dialect type) (table : IsTable sql dsn d rows) (user : String)
        (s : Run (World S)) (i : RelationalDatabaseInfo)
        → IsApart d
        → IsFor dsn type s.object
        → (create_database sql dsn n m type user s).0 ≡ ok i
        → Ensured
            (rows s.object.servers)
            n
            m
            i
            (rows (create_database sql dsn n m type user s).1.object.servers)
    create_database-Ensured d table user s i apart c e =
        (After-ok (HasEnsured sql dsn d rows table (rows s.object.servers) n m) (λ _. Unit) _ _ i e
          ((create_database-Entered (rows s.object.servers) d table user apart).at s
            (record { cached = c; same = λ a b. refl }))).ensured
