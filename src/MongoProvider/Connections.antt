-- ===== src/MongoProvider/Connections.antt =====
-- The two loops of `Reconcile` over the connections of a MongoDB provider.
use dbaas_controller.Prelude.{ℕ, String, ◌<>◌, ◌==◌, Bool, true, List, [], ◌∷◌, ◌++◌, if◌then◌else◌}
use dbaas_controller.Go.{Error, new_error}
use dbaas_controller.Api.{MongoDbConnection, ConnectionStatus, MongoDbProvider, Dict}
use dbaas_controller.Cluster.{Call, Exec, pure, call, emit, attempt, ◌>>=◌, ◌>>◌}
use dbaas_controller.Mongo.{MongoDbClientOptions}
use dbaas_controller.Request.Providers.{password_of, secret_key}
use dbaas_controller.Provider.Connections.{Checks, add_name, one_if}
use dbaas_controller.MongoProvider.Faults.{MongoEnv, mongodb_connection_version, handle_error}

pub record MongoDbConn : Type 0 where
  pub options : MongoDbClientOptions
  pub enabled : Bool

-- `mongoDBConn{…}`
abbrev pub mongodb_conn : MongoDbConnection → String → MongoDbConn
mongodb_conn c password = record {
  options = record {
    name = c.name;
    hostname = c.hostname;
    port = c.port;
    username = c.username;
    password = password;
    mechanism = c.auth.mechanism;
    source = c.auth.source;
    tls = c.auth.tls;
  };
  enabled = c.enabled;
}

abbrev pub unavailable_status : MongoDbConn → ConnectionStatus
unavailable_status conn = record {
  name = conn.options.name;
  hostname = conn.options.hostname;
  database_version = "unknown";
  enabled = conn.enabled;
  status = "unavailable";
}

abbrev pub available_status : MongoDbConn → String → ConnectionStatus
available_status conn version = record {
  name = conn.options.name;
  hostname = conn.options.hostname;
  database_version = version;
  enabled = conn.enabled;
  status = "available";
}

unfoldable pub add_failure : MongoDbConn → Error → Checks → Checks
add_failure conn e k = record k {
  statuses = k.statuses ++ (unavailable_status conn ∷ []);
  errors = k.errors ++ (e ∷ []);
}

unfoldable pub add_available : MongoDbConn → String → Checks → Checks
add_available conn version k = record k {
  statuses = k.statuses ++ (available_status conn version ∷ []);
  found_enabled = if conn.enabled then true else k.found_enabled;
}

-- The label "name" has the name of the connection.
abbrev pub mongodb_version_labels : MongoDbProvider → MongoDbConn → String → Dict String
mongodb_version_labels o conn version =
    ("name", conn.options.name)
    ∷ ("selector", o.spec.selector)
    ∷ ("hostname", conn.options.hostname)
    ∷ ("username", conn.options.username)
    ∷ ("version", version)
    ∷ []

module _ (env : MongoEnv) (o : MongoDbProvider) where
  -- The first loop, over the connections that are left, with the map's keys and the slice so far
  unfoldable pub read_mongodb_connections :
      List MongoDbConnection
      → List String
      → List MongoDbConn
      → Exec MongoDbProvider (List String × List MongoDbConn)
  read_mongodb_connections [] names conns = pure (names, conns)
  read_mongodb_connections (c ∷ cs) names conns = do
    secret ←
        attempt
          (call (Call.get_secret (secret_key c.password_secret_ref))
            (λ h. env.cluster.get_secret h (secret_key c.password_secret_ref)))
          (λ e. handle_error env "get-secret" e) pure
    if password_of secret == ""
        then handle_error env "empty-password" (
            new_error (
              "password is empty for secret " <> c.password_secret_ref.namespace <> "/"
              <> c.password_secret_ref.name))
        else read_mongodb_connections cs (add_name c.name names)
            (conns ++ (mongodb_conn c (password_of secret) ∷ []))

  abbrev pub set_mongodb_version : MongoDbConn → String → ℕ → Exec MongoDbProvider (Unit {0})
  set_mongodb_version conn version n =
      emit (Call.set_gauge mongodb_connection_version (mongodb_version_labels o conn version) n)

  -- A test of the connection failed: `continue`
  unfoldable pub failure : MongoDbConn → Error → Checks → Exec MongoDbProvider Checks
  failure conn e k = do set_mongodb_version conn "" 0; pure (add_failure conn e k)

  -- The body of the second loop. The version is empty when it could not be read.
  unfoldable pub check_mongodb : MongoDbConn → Checks → Exec MongoDbProvider Checks
  check_mongodb conn k =
      attempt (call (Call.mongo_ping conn.options) (λ h. env.ping h conn.options))
        (λ e. failure conn e k)
        (λ _.
          attempt (call (Call.mongo_version conn.options) (λ h. env.version h conn.options))
            (λ e. failure conn e k)
            (λ version. do
              set_mongodb_version conn version (one_if conn.enabled)
              pure (add_available conn version k)))

  unfoldable pub check_all_mongodb : List MongoDbConn → Checks → Exec MongoDbProvider Checks
  check_all_mongodb [] k = pure k
  check_all_mongodb (conn ∷ conns) k = do k' ← check_mongodb conn k; check_all_mongodb conns k'
