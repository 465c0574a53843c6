-- ===== src/Request/Calls.antt =====
-- Which calls the parts of the reconciler can make: an action makes calls of a sort `P` only, if `P`
-- admits the calls in its code. `P` is arbitrary, so each later statement chooses its own.
use dbaas_controller.Prelude.{String, Bool, Option, none, some, List, [], ◌∷◌, ℕ}
use dbaas_controller.Go.{Error}
use dbaas_controller.Api.{
  Dict, NamespacedName, SecretReference, DatabaseConnectionReference, DatabaseRequest, Connection,
  RelationalDatabaseProvider, Secret, Service,
}
use dbaas_controller.Database.{RelationalDatabaseInfo}
use dbaas_controller.Cluster.{Call, Env, History}
use dbaas_controller.Cluster.Triple.{Keeps}
use dbaas_controller.Cluster.Order.{Only, only_rules}
use dbaas_controller.Request.Faults.{handle_error}
use dbaas_controller.Request.Info.{DbInfo}
use dbaas_controller.Request.Providers.{
  Best, Found, chosen_connection, connection_password, probe, probe_connections, probe_providers,
  found_provider, find_relational_database_provider, seed_database, test_seed_connection,
  relational_database_info_from_seed,
}
use dbaas_controller.Request.Operation.{
  operation_status, referenced_provider, provider_for, connection_for, require_some,
}
use dbaas_controller.Request.Resources.{deref}

-- Reports of what happens, and writes of the status
pub record Reports (P : Call → Type 0) : Type 0 where
  pub inc_counter : (name : String) (labels : Dict String) → P (Call.inc_counter name labels)
  pub set_gauge : (name : String) (labels : Dict String) (n : ℕ) → P (Call.set_gauge name labels n)
  pub record_event : (type reason note : String) → P (Call.record_event type reason note)
  pub update_request_status : (o : DatabaseRequest) → P (Call.update_request_status o)

-- Calls that read
pub record Reads (P : Call → Type 0) : Type 0 where
  pub get_secret : (key : NamespacedName) → P (Call.get_secret key)
  pub get_service : (key : NamespacedName) → P (Call.get_service key)
  pub list_providers : P Call.list_providers
  pub get_provider : (key : NamespacedName) → P (Call.get_provider key)
  pub load : (dsn type : String) → P (Call.load dsn type)
  pub ping : (dsn type : String) → P (Call.ping dsn type)

-- Calls that make a database and what a client of it needs. `GetDatabaseInfo` makes a user if there
-- is none.
pub record Creates (P : Call → Type 0) : Type 0 where
  pub get_database_info :
      (dsn name namespace type : String) → P (Call.get_database_info dsn name namespace type)
  pub create_database :
      (dsn name namespace type username : String)
      → P (Call.create_database dsn name namespace type username)
  pub set_database_info :
      (dsn name namespace type : String) (i : RelationalDatabaseInfo)
      → P (Call.set_database_info dsn name namespace type i)
  pub delete_secret : (key : NamespacedName) → P (Call.delete_secret key)
  pub create_service : (s : Service) → P (Call.create_service s)
  pub update_service : (s : Service) → P (Call.update_service s)
  pub create_secret : (s : Secret) → P (Call.create_secret s)
  pub update_secret : (s : Secret) → P (Call.update_secret s)
  pub update_request : (o : DatabaseRequest) → P (Call.update_request o)

module _ (env : Env) {P : Call → Type 0} {h : History} (reports : Reports P) where
  open reports use {inc_counter, set_gauge, record_event, update_request_status}

  pub handle_error-Only :
      (p : String) (e : Error) (b : Bool) → Keeps (Only P h) (handle_error env p e b)
  unfolding handle_error
  handle_error-Only p e b =
      search (only_rules, inc_counter, set_gauge, record_event, update_request_status) depth 14

  pub operation_status-Only :
      (operation : String) → Keeps (Only P h) (operation_status env operation)
  unfolding operation_status
  operation_status-Only operation = search (only_rules, update_request_status) depth 9

module _ (env : Env) {P : Call → Type 0} {h : History}
    (get_secret : (key : NamespacedName) → P (Call.get_secret key)) where
  pub connection_password-Only :
      (a b : String) (ref : SecretReference) → Keeps (Only P h) (connection_password env a b ref)
  unfolding connection_password
  connection_password-Only a b ref = search (only_rules, get_secret) depth 9

module _ (env : Env) {P : Call → Type 0} {h : History} (reads : Reads P) where
  open reads use {get_secret, list_providers, get_provider, load, ping}

  password-Only :
      (a b : String) (ref : SecretReference) → Keeps (Only P h) (connection_password env a b ref)
  password-Only = connection_password-Only env get_secret

  probe-Only :
      (type : String) (p : RelationalDatabaseProvider) (c : Connection) (best : Best)
      → Keeps (Only P h) (probe env type p c best)
  unfolding probe
  probe-Only type p c best = search (only_rules, password-Only, load) depth 9

  probe_connections-Only :
      (type : String) (p : RelationalDatabaseProvider) (cs : List Connection) (best : Best)
      → Keeps (Only P h) (probe_connections env type p cs best)
  unfolding probe_connections
  probe_connections-Only type p [] best = search only_rules
  probe_connections-Only type p (c ∷ cs) best =
      search (only_rules, probe-Only, probe_connections-Only type p cs) depth 9

  probe_providers-Only :
      (selector type : String) (ps : List RelationalDatabaseProvider) (best : Best)
      → Keeps (Only P h) (probe_providers env selector type ps best)
  unfolding probe_providers
  probe_providers-Only selector type [] best = search only_rules
  probe_providers-Only selector type (p ∷ ps) best =
      search (only_rules, probe_connections-Only, probe_providers-Only selector type ps) depth 9

  found_provider-Only :
      (type : String) (o : Option RelationalDatabaseProvider) (name : String)
      → Keeps (Only P h) (found_provider env type o name)
  unfolding found_provider
  found_provider-Only type none name = search only_rules
  found_provider-Only type (some p) name = search only_rules

  find_relational_database_provider-Only : Keeps (Only P h) (find_relational_database_provider env)
  unfolding find_relational_database_provider
  find_relational_database_provider-Only =
      search (only_rules, list_providers, probe_providers-Only, found_provider-Only) depth 9

  referenced_provider-Only :
      (operation : String) (o : DatabaseRequest) (ref : Option DatabaseConnectionReference)
      → Keeps (Only P h) (referenced_provider env operation o ref)
  unfolding referenced_provider
  referenced_provider-Only operation o none = search only_rules
  referenced_provider-Only operation o (some ref) = search (only_rules, get_provider) depth 9

  pub provider_for-Only :
      (operation : String) (o : DatabaseRequest) → Keeps (Only P h) (provider_for env operation o)
  unfolding provider_for
  provider_for-Only operation o =
      search (only_rules, find_relational_database_provider-Only, referenced_provider-Only) depth 9

  pub connection_for-Only :
      (operation : String) (o : DatabaseRequest) (c : Option Connection)
      → Keeps (Only P h) (connection_for env operation o c)
  unfolding connection_for
  connection_for-Only operation o none = search only_rules
  connection_for-Only operation o (some c) = search (only_rules, password-Only) depth 9

  seed_database-Only : (seed : SecretReference) → Keeps (Only P h) (seed_database env seed)
  unfolding seed_database
  seed_database-Only seed = search (only_rules, get_secret) depth 9

  test_seed_connection-Only :
      (i : DbInfo) (type : String) → Keeps (Only P h) (test_seed_connection env i type)
  unfolding test_seed_connection
  test_seed_connection-Only i type = search (only_rules, ping) depth 9

  chosen_connection-Only :
      (type : String) (found : Found) → Keeps (Only P h) (chosen_connection env type found)
  unfolding chosen_connection
  chosen_connection-Only type none = search only_rules
  chosen_connection-Only type (some c) = search only_rules

  pub relational_database_info_from_seed-Only :
      (seed : SecretReference) (type selector : String)
      → Keeps (Only P h) (relational_database_info_from_seed env seed type selector)
  unfolding relational_database_info_from_seed
  relational_database_info_from_seed-Only seed type selector =
      search
        (
          only_rules, seed_database-Only, test_seed_connection-Only, list_providers,
          chosen_connection-Only, password-Only,
        )
        depth 14

  pub require_some-Only :
      {A : Type 0} (o : Option A) (message : String) → Keeps (Only P h) (require_some env o message)
  unfolding require_some
  require_some-Only none message = search only_rules
  require_some-Only (some a) message = search only_rules

  pub deref-Only : (i : Option DbInfo) → Keeps (Only P h) (deref i)
  unfolding deref
  deref-Only none = search only_rules
  deref-Only (some i) = search only_rules
