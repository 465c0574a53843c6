-- ===== src/Database/Registry.antt =====
-- What the table of the users stands for: credentials by the name and the namespace of a request. The laws
-- of a server with such a table are the documented behaviour of SELECT, INSERT, INSERT IGNORE and ON CONFLICT
-- DO NOTHING on it: a statement that fails changes nothing.
use dbaas_controller.Prelude.{
  ◌≡◌, ◌≢◌, String, ◌==◌, ◌&&◌, Option, none, some, ◌⊎◌, [], ◌∷◌, if◌then◌else◌,
}
use dbaas_controller.Go.{ok}
use dbaas_controller.Api.{lookup}
use dbaas_controller.Database.{RelationalDatabaseInfo, mysql, postgres}
use dbaas_controller.Database.Server.{Handle, Sql, World}
use dbaas_controller.Database.Users.{
  select_mysql, insert_mysql, insert_ignore_mysql, select_postgres, insert_postgres,
  insert_ignore_postgres, use_controller, row_of,
}

abbrev pub Registry : Type 0
Registry = String → String → Option RelationalDatabaseInfo

abbrev pub enter : String → String → RelationalDatabaseInfo → Registry → Registry
enter name namespace i R a b = if name == a && namespace == b then some i else R a b

abbrev pub Same : Registry → Registry → Type 0
Same R R' = (a b : String) → R' a b ≡ R a b

-- The registry gives the credentials, or takes new ones.
pub data Ensured (R : Registry) (name namespace : String) (i : RelationalDatabaseInfo)
    (R' : Registry) : Type 0 where
  known : R name namespace ≡ some i → Same R R' → Ensured R name namespace i R'
  entered :
      R name namespace ≡ none → Same (enter name namespace i R) R' → Ensured R name namespace i R'

-- The two types of servers
pub data Dialect : String → Type 0 where
  my : Dialect mysql
  pg : Dialect postgres

abbrev pub select_of : {type : String} → Dialect type → String
select_of my = select_mysql
select_of pg = select_postgres

abbrev pub insert_of : {type : String} → Dialect type → String
insert_of my = insert_mysql
insert_of pg = insert_postgres

abbrev pub insert_ignore_of : {type : String} → Dialect type → String
insert_ignore_of my = insert_ignore_mysql
insert_ignore_of pg = insert_ignore_postgres

abbrev pub handle_of : String → String → Handle
handle_of dsn type = record { db_type = type; dsn = dsn }

-- The server at the dsn has a table of the users with these rows.
pub record IsTable {S : Type 0} (sql : Sql S) (dsn : String) {type : String} (d : Dialect type)
    (rows : S → Registry) : Type 0 where
  pub used : (t : S) → Same (rows t) (rows (sql.exec (handle_of dsn type) use_controller [] t).0)
  pub reads :
      (n m : String) (t : S)
      → Same (rows t) (rows (sql.query_user (handle_of dsn type) (select_of d) (n ∷ m ∷ []) t).0)
  pub selects :
      (n m : String) (t : S) (i : RelationalDatabaseInfo)
      → (sql.query_user (handle_of dsn type) (select_of d) (n ∷ m ∷ []) t).1 ≡ ok i
      → rows t n m ≡ some i
  pub inserts :
      (n m : String) (i : RelationalDatabaseInfo) (t : S)
      → (sql.exec (handle_of dsn type) (insert_of d) (row_of n m i) t).1 ≡ ok tt
      → (rows t n m ≡ none)
        × Same
            (enter n m i (rows t))
            (rows (sql.exec (handle_of dsn type) (insert_of d) (row_of n m i) t).0)
  pub insert_fails :
      (n m : String) (i : RelationalDatabaseInfo) (t : S)
      → (sql.exec (handle_of dsn type) (insert_of d) (row_of n m i) t).1 ≢ ok tt
      → Same (rows t) (rows (sql.exec (handle_of dsn type) (insert_of d) (row_of n m i) t).0)
  pub ignores :
      (n m : String) (i : RelationalDatabaseInfo) (t : S)
      → Same (rows t) (rows (sql.exec (handle_of dsn type) (insert_ignore_of d) (row_of n m i) t).0)
        ⊎ ((rows t n m ≡ none)
            × Same
                (enter n m i (rows t))
                (rows (sql.exec (handle_of dsn type) (insert_ignore_of d) (row_of n m i) t).0))

-- A connection to the dsn in the cache is one of the type.
abbrev pub IsFor : {S : Type 0} → String → String → World S → Type 0
IsFor dsn type w = (h : Handle) → lookup dsn w.cache ≡ some h → h ≡ handle_of dsn type
