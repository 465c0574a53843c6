-- ===== src/Request/Providers.antt =====
-- `findRelationalDatabaseProvider`, `seedDatabase`, `relDBTestSeedConnection` and
-- `relationalDatabaseInfoFromSeed`: the choice of a provider and of one of its connections.
use dbaas_controller.Prelude.{
  String, ◌<>◌, ◌==◌, Bool, true, false, ◌&&◌, Option, none, some, List, [], ◌∷◌, ℤ, pos, int_lt,
  int_eq, if◌then◌else◌, ◌^◌, ◌-◌,
}
use dbaas_controller.Go.{new_error}
use dbaas_controller.Api.{
  lookup, NamespacedName, SecretReference, DatabaseConnectionReference, DatabaseRequest, Connection,
  RelationalDatabaseProvider, Secret,
}
use dbaas_controller.Cluster.{
  Call, Env, Exec, pure, raise, lift, call, call_as, outcome_of_load, get_object, wrapping, ◌>>=◌,
  ◌>>◌,
}
use dbaas_controller.Conn.{ReldbConn, get_dsn}
use dbaas_controller.Request.Info.{DbInfo, db_info_from_seed}

-- The largest value of the type `int`
abbrev pub max_int : ℤ
max_int = pos (2 ^ 63 - 1)

-- `string(secret.Data["password"])`
unfoldable pub password_of : Secret → String
unfolding lookup
password_of s = elim (lookup "password" s.content) [ none ↦ "" | some p ↦ p ]

abbrev pub secret_key : SecretReference → NamespacedName
secret_key r = record { name = r.name; namespace = r.namespace }

abbrev pub conn_of : String → Connection → String → ReldbConn
conn_of db_type c password = record {
  db_type = db_type;
  name = c.name;
  hostname = c.hostname;
  replica_hostnames = [];
  password = password;
  port = c.port;
  username = c.username;
  enabled = false;
}

abbrev pub reference_to : RelationalDatabaseProvider → String → DatabaseConnectionReference
reference_to p name = record {
  name = name;
  database_object_reference = record {
    kind = p.meta.kind;
    name = p.meta.name;
    uid = p.meta.uid;
    resource_version = p.meta.resource_version;
  };
}

-- The variables of the loop: the lowest load so far, and where it was found.
pub record Best : Type 0 where
  pub load : ℤ
  pub provider : Option RelationalDatabaseProvider
  pub conn_name : String

abbrev pub no_best : Best
no_best = record { load = max_int; provider = none; conn_name = "" }

pub record SeedDatabaseInfo : Type 0 where
  pub db_info : DbInfo
  pub conn : ReldbConn
  pub database_provider_ref : DatabaseConnectionReference

unfoldable pub matches : String → String → RelationalDatabaseProvider → Bool
matches selector type p = p.spec.selector == selector && p.spec.type == type

-- The last enabled connection with the seed's host and port, over the providers that match.
abbrev pub Found : Type 0
Found = Option (Connection × DatabaseConnectionReference)

unfoldable pub seed_connection :
    DbInfo → RelationalDatabaseProvider → List Connection → Found → Found
seed_connection i p [] found = found
seed_connection i p (c ∷ cs) found = seed_connection i p cs (
    if c.enabled && c.hostname == i.host_name && int_eq c.port i.port
    then some (c, reference_to p c.name)
    else found)

unfoldable pub seed_provider :
    String → String → DbInfo → List RelationalDatabaseProvider → Found → Found
unfolding matches seed_connection
seed_provider selector type i [] found = found
seed_provider selector type i (p ∷ ps) found =
    seed_provider selector type i ps
      (if matches selector type p then seed_connection i p p.spec.connections found else found)

module _ (env : Env) where
  -- The password in the secret of a connection, refused if it is empty. The two texts begin the
  -- errors.
  unfoldable pub connection_password :
      String → String → SecretReference → Exec DatabaseRequest String
  connection_password no_secret no_password ref = do
    secret ←
        wrapping no_secret
          (call (Call.get_secret (secret_key ref)) (λ h. env.get_secret h (secret_key ref)))
    if password_of secret == "" then raise (new_error no_password) else pure (password_of secret)

  -- The body of the inner loop for an enabled connection
  unfoldable pub probe :
      String → RelationalDatabaseProvider → Connection → Best → Exec DatabaseRequest Best
  probe type p c best = do
    password ←
        connection_password
          (type <> " db find provider failed to get connection password from secret: ")
          (type <> " db find provider failed due to empty password") c.password_secret_ref
    let dsn = get_dsn (conn_of type c password) false
    db_load ←
        wrapping (type <> " db find provider failed to get load: ")
          (call_as outcome_of_load (Call.load dsn type) (λ h. env.load h dsn type))
    pure (
        if int_lt db_load best.load
        then record { load = db_load; provider = some p; conn_name = c.name }
        else best)

  unfoldable pub probe_connections :
      String → RelationalDatabaseProvider → List Connection → Best → Exec DatabaseRequest Best
  probe_connections type p [] best = pure best
  probe_connections type p (c ∷ cs) best = do
    best' ← if c.enabled then probe type p c best else pure best
    probe_connections type p cs best'

  unfoldable pub probe_providers :
      String → String → List RelationalDatabaseProvider → Best → Exec DatabaseRequest Best
  probe_providers selector type [] best = pure best
  probe_providers selector type (p ∷ ps) best = do
    best' ←
        if matches selector type p
        then probe_connections type p p.spec.connections best
        else pure best
    probe_providers selector type ps best'

  -- The test after the loops
  unfoldable pub found_provider :
      String
      → Option RelationalDatabaseProvider
      → String
      → Exec DatabaseRequest (RelationalDatabaseProvider × String)
  found_provider type none name =
      raise (new_error (type <> " db find provider failed due to provider not found"))
  found_provider type (some p) name = pure (p, name)

  unfoldable pub find_relational_database_provider :
      Exec DatabaseRequest (RelationalDatabaseProvider × String)
  find_relational_database_provider = do
    o ← get_object
    items ←
        wrapping (o.spec.type <> " db find provider failed to list database providers: ")
          (call Call.list_providers env.list_providers)
    best ← probe_providers o.spec.selector o.spec.type items no_best
    found_provider o.spec.type best.provider best.conn_name

  unfoldable pub seed_database : SecretReference → Exec DatabaseRequest DbInfo
  seed_database seed = do
    secret ←
        wrapping ("failed to get seed secret " <> seed.name <> ": ")
          (call (Call.get_secret (secret_key seed)) (λ h. env.get_secret h (secret_key seed)))
    lift (db_info_from_seed env.quote secret.content)

  unfoldable pub test_seed_connection : DbInfo → String → Exec DatabaseRequest (Unit {0})
  test_seed_connection i type =
      let dsn =
        get_dsn
          (record {
            db_type = type;
            name = i.database;
            hostname = i.host_name;
            replica_hostnames = [];
            password = i.password;
            port = i.port;
            username = i.user_name;
            enabled = false;
          })
          true in
      wrapping "relational database test connection failed: "
        (call (Call.ping dsn type) (λ h. env.ping h dsn type))

  unfoldable pub chosen_connection :
      String → Found → Exec DatabaseRequest (Connection × DatabaseConnectionReference)
  chosen_connection type none =
      raise (new_error (type <> " db find connection from seed failed due to provider not found"))
  chosen_connection type (some c) = pure c

  unfoldable pub relational_database_info_from_seed :
      SecretReference → String → String → Exec DatabaseRequest SeedDatabaseInfo
  relational_database_info_from_seed seed type selector = do
    i ←
        wrapping (type <> " db find connection from seed failed to get seed database: ")
          (seed_database seed)
    wrapping (type <> " db find connection from seed failed to test connection: ")
        (test_seed_connection i type)
    items ←
        wrapping (type <> " db find connection from seed failed to list database providers: ")
          (call Call.list_providers env.list_providers)
    (c, ref) ← chosen_connection type (seed_provider selector type i items none)
    password ←
        connection_password
          (type <> " db find connection from seed failed to get connection password from secret: ")
          (type <> " db find connection from seed failed due to empty password")
          c.password_secret_ref
    pure (record { db_info = i; conn = conn_of type c password; database_provider_ref = ref })
