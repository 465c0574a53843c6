-- ===== src/Request/Operation.antt =====
-- `relationalDatabaseOperation` and its callers `createDatabase`, `relDBDeletion` and `relDBInfo`.
use dbaas_controller.Prelude.{
  String, ◌<>◌, ◌==◌, ◌||◌, Bool, false, Option, none, some, List, [], ◌∷◌, if◌then◌else◌,
}
use dbaas_controller.Go.{new_error, wrap}
use dbaas_controller.Api.{
  NamespacedName, DatabaseConnectionReference, DatabaseInfo, DatabaseRequest, Connection,
  RelationalDatabaseProvider,
}
use dbaas_controller.Cluster.{
  Call, Env, Exec, pure, raise, call, get_object, put_object, attempt, wrapping, ◌>>=◌, ◌>>◌,
}
use dbaas_controller.Conn.{ReldbConn, get_dsn}
use dbaas_controller.Request.Faults.{update_status, invalid_database_type}
use dbaas_controller.Request.Info.{DbInfo, empty_info}
use dbaas_controller.Request.Providers.{
  conn_of, reference_to, connection_password, find_relational_database_provider,
}

abbrev pub mysql_type : String
mysql_type = "mysql"

abbrev pub postgres_type : String
postgres_type = "postgres"

abbrev pub mongodb_type : String
mongodb_type = "mongodb"

abbrev pub drop : String
drop = "drop"

abbrev pub create : String
create = "create"

abbrev pub info : String
info = "info"

-- The cases `mysqlType, postgresType` of the switches
abbrev pub is_relational : String → Bool
is_relational type = type == mysql_type || type == postgres_type

-- The last connection with the name.
unfoldable pub find_connection : String → List Connection → Option Connection → Option Connection
find_connection name [] found = found
find_connection name (c ∷ cs) found =
    find_connection name cs (if c.name == name then some c else found)

unfoldable pub set_reference :
    Option DatabaseConnectionReference → DatabaseRequest → DatabaseRequest
set_reference ref o = record o { spec = record o.spec { database_connection_reference = ref } }

unfoldable pub set_observed_reference :
    Option DatabaseConnectionReference → DatabaseRequest → DatabaseRequest
set_observed_reference ref o = record o {
  status = record o.status { observed_database_connection_reference = ref };
}

unfoldable pub set_database_info : DatabaseInfo → DatabaseRequest → DatabaseRequest
set_database_info i o = record o { status = record o.status { database_info = some i } }

module _ (env : Env) where
  -- The beginning of the errors, "<type> db operation <operation>"
  abbrev db_operation : DatabaseRequest → String → String
  db_operation o operation = o.spec.type <> " db operation " <> operation

  -- `r.Status().Update` at the end of an operation
  unfoldable pub operation_status : String → Exec DatabaseRequest (Unit {0})
  operation_status operation =
      attempt (update_status env)
        (λ e. do
          o ← get_object
          raise (wrap (db_operation o operation <> " failed to update database request: ") e))
        pure

  unfoldable pub referenced_provider :
      String
      → DatabaseRequest
      → Option DatabaseConnectionReference
      → Exec DatabaseRequest (RelationalDatabaseProvider × String)
  referenced_provider operation o none = raise (
      new_error
        (db_operation o operation <> " failed due to missing database connection reference"))
  referenced_provider operation o (some ref) =
      let key : NamespacedName = record {
        name = ref.database_object_reference.name;
        namespace = "";
      } in
      do
        provider ←
            wrapping (db_operation o operation <> " failed to get database provider: ")
              (call (Call.get_provider key) (λ h. env.get_provider h key))
        pure (provider, ref.name)

  -- The provider and the name of the connection
  unfoldable pub provider_for :
      String → DatabaseRequest → Exec DatabaseRequest (RelationalDatabaseProvider × String)
  provider_for operation o =
      if operation == create
      then wrapping (db_operation o operation <> " failed to find database provider: ")
          (find_relational_database_provider env)
      else referenced_provider operation o o.spec.database_connection_reference

  unfoldable pub connection_for :
      String → DatabaseRequest → Option Connection → Exec DatabaseRequest ReldbConn
  connection_for operation o none =
      raise (new_error (db_operation o operation <> " failed to find database connection"))
  connection_for operation o (some c) = do
    password ←
        connection_password env
          (db_operation o operation <> " failed to get connection password from secret: ")
          (db_operation o operation <> " failed due to empty password") c.password_secret_ref
    pure (conn_of o.spec.type c password)

  -- The case `create`
  unfoldable pub create_case :
      DatabaseRequest → RelationalDatabaseProvider → ReldbConn → Exec DatabaseRequest (Unit {0})
  create_case o provider conn = do
    let dsn = get_dsn conn false
    created ← wrapping (db_operation o create <> " failed: ") (
        call (Call.create_database dsn o.meta.name o.meta.namespace o.spec.type conn.username)
          (λ h. env.create_database h dsn o.meta.name o.meta.namespace o.spec.type conn.username))
    let ref = reference_to provider conn.name
    let created_info : DatabaseInfo = record {
      username = created.username;
      databasename = created.dbname;
    }
    put_object (set_database_info created_info (set_observed_reference (some ref) o))
    operation_status create
    o' ← get_object
    put_object (set_reference (some ref) o')

  -- The case `drop`, once the database is dropped
  unfoldable pub forget_reference : DatabaseRequest → Exec DatabaseRequest (Unit {0})
  forget_reference o = do
    put_object (set_observed_reference none o)
    operation_status drop
    o' ← get_object
    put_object (set_reference none o')

  -- The case `drop`
  unfoldable pub drop_case : DatabaseRequest → ReldbConn → Exec DatabaseRequest (Unit {0})
  drop_case o conn = do
    let dsn = get_dsn conn false
    wrapping (o.spec.type <> " db opration " <> drop <> " failed: ") (
        call (Call.drop_database dsn o.meta.name o.meta.namespace o.spec.type)
          (λ h. env.drop_database h dsn o.meta.name o.meta.namespace o.spec.type))
    forget_reference o

  -- The case `info`, over what `databaseInfo` points to
  unfoldable pub info_case :
      DatabaseRequest → ReldbConn → Option DbInfo → Exec DatabaseRequest (Option DbInfo)
  info_case o conn none = raise (new_error (db_operation o info <> " failed due to missing dbInfo"))
  info_case o conn (some old) =
      let dsn = get_dsn conn false in
      do
        i ← wrapping (db_operation o info <> " failed to get database information: ") (
            call (Call.get_database_info dsn o.meta.name o.meta.namespace o.spec.type)
              (λ h. env.get_database_info h dsn o.meta.name o.meta.namespace o.spec.type))
        pure (
            some (record {
              database = i.dbname;
              host_name = conn.hostname;
              user_name = i.username;
              password = i.password;
              port = conn.port;
            }))

  unfoldable pub relational_database_operation :
      String → Option DbInfo → Exec DatabaseRequest (Option DbInfo)
  relational_database_operation operation database_info = do
    o ← get_object
    (provider, connection_name) ← provider_for operation o
    conn ←
        connection_for operation o (find_connection connection_name provider.spec.connections none)
    if operation == create
        then (do create_case o provider conn; pure database_info)
        else if operation == drop
        then (do drop_case o conn; pure database_info)
        else if operation == info
        then info_case o conn database_info
        else raise (new_error (db_operation o operation <> " failed due to invalid operation"))

  unfoldable pub require_some : {A : Type 0} → Option A → String → Exec DatabaseRequest (Unit {0})
  require_some none message = raise (new_error message)
  require_some (some a) message = pure tt

  unfoldable pub create_relational : Exec DatabaseRequest (Unit {0})
  create_relational = do
    attempt (relational_database_operation create none)
        (λ e. do o ← get_object; raise (wrap (o.spec.type <> " db creation failed: ") e))
        (λ _. pure tt)
    o ← get_object
    require_some o.spec.database_connection_reference
        (o.spec.type <> " db creation failed due to missing database connection reference")
    require_some o.status.database_info
        (o.spec.type <> " db creation failed due to missing database info")

  unfoldable pub create_database : Exec DatabaseRequest (Unit {0})
  create_database = do
    o ← get_object
    if is_relational o.spec.type
        then create_relational
        else if o.spec.type == mongodb_type
        then pure tt
        else raise (wrap "failed to create database: " invalid_database_type)

  unfoldable pub rel_db_deletion : Exec DatabaseRequest (Unit {0})
  rel_db_deletion = do
    o ← get_object
    require_some o.spec.database_connection_reference
        "relational db drop failed due to connection reference is missing"
    relational_database_operation drop none
    pure tt

  abbrev info_of : Option DbInfo → DbInfo
  info_of none = empty_info
  info_of (some i) = i

  unfoldable pub rel_db_info : Exec DatabaseRequest DbInfo
  rel_db_info = do
    i ←
        wrapping "relational db info failed: "
          (relational_database_operation info (some empty_info))
    pure (info_of i)
