-- ===== src/Provider/Connections.antt =====
-- The two loops of `Reconcile` over the connections of a provider.
use dbaas_controller.Prelude.{
  ℕ, String, ◌<>◌, ◌==◌, Bool, true, false, List, [], ◌∷◌, ◌++◌, if◌then◌else◌,
}
use dbaas_controller.Go.{Error, new_error}
use dbaas_controller.Api.{Connection, ConnectionStatus, RelationalDatabaseProvider, Dict}
use dbaas_controller.Cluster.{Call, Env, Exec, pure, call, emit, attempt, ◌>>=◌, ◌>>◌}
use dbaas_controller.Conn.{ReldbConn, get_dsn}
use dbaas_controller.Request.Providers.{password_of, secret_key}
use dbaas_controller.Provider.Faults.{connection_version, handle_error}

-- `reldbConn{…}`, with all of the connection
abbrev pub full_conn : String → Connection → String → ReldbConn
full_conn type c password = record {
  db_type = type;
  name = c.name;
  hostname = c.hostname;
  replica_hostnames = c.replica_hostnames;
  password = password;
  port = c.port;
  username = c.username;
  enabled = c.enabled;
}

unfoldable pub has_name : String → List String → Bool
has_name name [] = false
has_name name (n ∷ ns) = let rest = has_name name ns in if n == name then true else rest

-- `uniqueNames[conn.Name] = struct{}{}`: the keys of the map
unfoldable pub add_name : String → List String → List String
unfolding has_name
add_name name ns = if has_name name ns then ns else name ∷ ns

-- What the loop over the connections collects: their statuses, the errors, and whether an enabled one works
pub record Checks : Type 0 where
  pub statuses : List ConnectionStatus
  pub errors : List Error
  pub found_enabled : Bool

abbrev pub no_checks : Checks
no_checks = record { statuses = []; errors = []; found_enabled = false }

abbrev pub unavailable : ReldbConn → ConnectionStatus
unavailable conn = record {
  name = conn.name;
  hostname = conn.hostname;
  database_version = "";
  enabled = conn.enabled;
  status = "unavailable";
}

abbrev pub available : ReldbConn → String → ConnectionStatus
available conn version = record {
  name = conn.name;
  hostname = conn.hostname;
  database_version = version;
  enabled = conn.enabled;
  status = "available";
}

unfoldable pub add_fault : ReldbConn → Error → Checks → Checks
add_fault conn e k = record k {
  statuses = k.statuses ++ (unavailable conn ∷ []);
  errors = k.errors ++ (e ∷ []);
}

unfoldable pub add_success : ReldbConn → String → Checks → Checks
add_success conn version k = record k {
  statuses = k.statuses ++ (available conn version ∷ []);
  found_enabled = if conn.enabled then true else k.found_enabled;
}

abbrev pub version_labels : RelationalDatabaseProvider → String → ReldbConn → String → Dict String
version_labels o name conn version =
    ("type", o.spec.type)
    ∷ ("name", name)
    ∷ ("selector", o.spec.selector)
    ∷ ("hostname", conn.hostname)
    ∷ ("username", conn.username)
    ∷ ("version", version)
    ∷ []

abbrev pub one_if : Bool → ℕ
one_if true = 1
one_if false = 0

module _ (env : Env) where
  -- The first loop, over the connections that are left, with the map's keys and the slice so far
  unfoldable pub read_connections :
      RelationalDatabaseProvider
      → List Connection
      → List String
      → List ReldbConn
      → Exec RelationalDatabaseProvider (List String × List ReldbConn)
  read_connections o [] names conns = pure (names, conns)
  read_connections o (c ∷ cs) names conns = do
    secret ←
        attempt
          (call (Call.get_secret (secret_key c.password_secret_ref))
            (λ h. env.get_secret h (secret_key c.password_secret_ref)))
          (λ e. handle_error env "get-secret" e) pure
    if password_of secret == ""
        then handle_error env (o.spec.type <> "-empty-password") (
            new_error (
              o.spec.type <> " connection secret " <> secret.meta.name <> " in namespace "
              <> secret.meta.namespace <> " has empty password"))
        else read_connections o cs (add_name c.name names)
            (conns ++ (full_conn o.spec.type c (password_of secret) ∷ []))

  module _ (o : RelationalDatabaseProvider) (name : String) where
    -- The gauge of the version of a connection
    abbrev pub set_version : ReldbConn → String → ℕ → Exec RelationalDatabaseProvider (Unit {0})
    set_version conn version n =
        emit (Call.set_gauge connection_version (version_labels o name conn version) n)

    -- A test of the connection failed: `continue`
    unfoldable pub fault :
        ReldbConn → String → Error → Checks → Exec RelationalDatabaseProvider Checks
    fault conn version e k = do set_version conn version 0; pure (add_fault conn e k)

    -- The body of the second loop
    unfoldable pub check : ReldbConn → Checks → Exec RelationalDatabaseProvider Checks
    check conn k =
        let dsn = get_dsn conn false in
        attempt (call (Call.ping dsn o.spec.type) (λ h. env.ping h dsn o.spec.type))
          (λ e. fault conn "" e k)
          (λ _.
            attempt (call (Call.version dsn o.spec.type) (λ h. env.version h dsn o.spec.type))
              (λ e. fault conn "" e k)
              (λ version.
                attempt
                  (call (Call.initialize dsn o.spec.type) (λ h. env.initialize h dsn o.spec.type))
                  (λ e. fault conn version e k)
                  (λ _. do
                    set_version conn version (one_if conn.enabled)
                    pure (add_success conn version k))))

    unfoldable pub check_all : List ReldbConn → Checks → Exec RelationalDatabaseProvider Checks
    check_all [] k = pure k
    check_all (conn ∷ conns) k = do k' ← check conn k; check_all conns k'
