-- ===== src/Main.antt =====
-- cmd/main.go: `init` and `main`, with the `SetupWithManager` of the three reconcilers in
-- internal/controller. The package flag, the schemes, the metrics registry and the manager of
-- controller-runtime are the parameter Host.
pub mod Steps
pub mod Started
pub mod Clients
pub mod Unserved
use dbaas_controller.Prelude.{String, Bool, true, false, Option, none, some, List, [], ◌∷◌, ◌++◌}
use dbaas_controller.Prelude.{ℤ, pos, if◌then◌else◌}
use dbaas_controller.Go.{Error, Result, panic}
use dbaas_controller.Cluster.{
  Exec, raise, crash, lift, get_object, put_object, attempt, ◌>>=◌, ◌>>◌,
}
use dbaas_controller.Request.Locks.{Locks}
use dbaas_controller.Request.Faults.{reconcile_counter, reconcile_error_counter, reconcile_status}
use dbaas_controller.Provider.Faults.{provider_error_counter, provider_status, connection_version}
use dbaas_controller.MongoProvider.Faults.{
  mongodb_error_counter, mongodb_status, mongodb_connection_version,
}

pub record Flags : Type 0 where
  pub metrics_addr : String
  pub probe_addr : String
  pub enable_leader_election : Bool
  pub secure_metrics : Bool
  pub enable_http2 : Bool
  pub max_concurrent_reconciles : ℤ

-- The values of flags that are not given
abbrev pub default_flags : Flags
default_flags = record {
  metrics_addr = ":8080";
  probe_addr = ":8081";
  enable_leader_election = false;
  secure_metrics = false;
  enable_http2 = false;
  max_concurrent_reconciles = pos 10;
}

-- `tls.Config`, as far as it is written here
pub record TlsConfig : Type 0 where
  pub next_protos : List String

abbrev pub disable_http2 : TlsConfig → TlsConfig
disable_http2 c = record c { next_protos = "http/1.1" ∷ [] }

abbrev pub tls_opts : Bool → List (TlsConfig → TlsConfig)
tls_opts enable_http2 = if enable_http2 then [] else disable_http2 ∷ []

-- `ctrl.Options`, with the options of its metrics and webhook servers
pub record ManagerOptions : Type 0 where
  pub metrics_bind_address : String
  pub metrics_secure_serving : Bool
  pub metrics_tls_opts : List (TlsConfig → TlsConfig)
  pub webhook_tls_opts : List (TlsConfig → TlsConfig)
  pub health_probe_bind_address : String
  pub leader_election : Bool
  pub leader_election_id : String

abbrev pub manager_options : Flags → ManagerOptions
manager_options flags = record {
  metrics_bind_address = flags.metrics_addr;
  metrics_secure_serving = flags.secure_metrics;
  metrics_tls_opts = tls_opts flags.enable_http2;
  webhook_tls_opts = tls_opts flags.enable_http2;
  health_probe_bind_address = flags.probe_addr;
  leader_election = flags.enable_leader_election;
  leader_election_id = "7c5dfb9a.lagoon.sh";
}

-- The clients are held by pointer or interface: `R` of the relational databases, `M` of MongoDB, where
-- `none` is nil.
pub record DatabaseRequestReconciler (R : Type 0) : Type 0 where
  pub relational_database_client : Option R
  pub locks : Locks

pub record RelationalDatabaseProviderReconciler (R : Type 0) : Type 0 where
  pub rel_db_client : Option R

pub record MongoDbProviderReconciler (M : Type 0) : Type 0 where
  pub mongo_db_client : Option M

pub data Reconciler (R M : Type 0) : Type 0 where
  database_request : DatabaseRequestReconciler R → Reconciler R M
  relational_database_provider : RelationalDatabaseProviderReconciler R → Reconciler R M
  mongo_db_provider : MongoDbProviderReconciler M → Reconciler R M

-- What `ctrl.NewControllerManagedBy` builds: the reconciler, the name of its event recorder, and the
-- number of reconciliations that may run at a time. All have the event filter
-- `GenerationChangedPredicate`.
pub record Controller (R M : Type 0) : Type 0 where
  pub reconciler : Reconciler R M
  pub recorder : String
  pub max_concurrent_reconciles : ℤ

-- The process so far. The newest of a list comes first.
pub record Process (R M : Type 0) : Type 0 where
  pub schemes : List String
  pub options : Option ManagerOptions
  pub registered : List String
  pub controllers : List (Controller R M)
  pub checks : List String
  pub started : Bool

abbrev pub new_process : {R M : Type 0} → Process R M
new_process = record {
  schemes = [];
  options = none;
  registered = [];
  controllers = [];
  checks = [];
  started = false;
}

-- The libraries: each answer depends on what was done before. `C` is `rest.Config`.
pub record Host (C R M : Type 0) : Type 0 where
  pub add_to_scheme : List String → String → Result (Unit {0})
  pub parse : Flags → Flags
  pub get_config : Result C
  pub new_manager : C → ManagerOptions → Result (Unit {0})
  pub must_register : List String → List String → Result (Unit {0})
  pub complete : List (Controller R M) → Controller R M → Result (Unit {0})
  pub add_check : List String → String → Result (Unit {0})
  pub start : Process R M → Result (Unit {0})

module _ {C R M : Type 0} (host : Host C R M) where
  -- `utilruntime.Must(….AddToScheme(scheme))`
  unfoldable pub must_add : String → Exec (Process R M) (Unit {0})
  must_add group = do
    p ← get_object
    attempt (lift (host.add_to_scheme p.schemes group)) (λ _. crash)
        (λ _. put_object (record p { schemes = group ∷ p.schemes }))

  unfoldable pub init : Exec (Process R M) (Unit {0})
  init = do must_add "client-go"; must_add "crd.lagoon.sh/v1alpha1"

  -- `metrics.Registry.MustRegister`
  unfoldable pub register : List String → Exec (Process R M) (Unit {0})
  register metrics = do
    p ← get_object
    lift (host.must_register p.registered metrics)
    put_object (record p { registered = metrics ++ p.registered })

  -- What the three `SetupWithManager` have in common
  unfoldable pub set_up : List String → Controller R M → Exec (Process R M) (Unit {0})
  set_up metrics c = do
    register metrics
    p ← get_object
    lift (host.complete p.controllers c)
    put_object (record p { controllers = c ∷ p.controllers })

  abbrev pub request_metrics : List String
  request_metrics = reconcile_counter ∷ reconcile_error_counter ∷ reconcile_status ∷ []

  abbrev pub request_controller : Option R → ℤ → Controller R M
  request_controller client max = record {
    reconciler = database_request (record { relational_database_client = client; locks = [] });
    recorder = "DatabaseRequestReconciler";
    max_concurrent_reconciles = max;
  }

  abbrev pub provider_metrics : List String
  provider_metrics = provider_error_counter ∷ provider_status ∷ connection_version ∷ []

  abbrev pub provider_controller : Option R → Controller R M
  provider_controller client = record {
    reconciler = relational_database_provider (record { rel_db_client = client });
    recorder = "relationaldatabaseprovider_controller";
    max_concurrent_reconciles = pos 1;
  }

  abbrev pub mongodb_metrics : List String
  mongodb_metrics = mongodb_error_counter ∷ mongodb_status ∷ mongodb_connection_version ∷ []

  -- Nothing is given for the MongoDB client.
  abbrev pub mongodb_reconciler : MongoDbProviderReconciler M
  mongodb_reconciler = record { mongo_db_client = none }

  abbrev pub mongodb_controller : Controller R M
  mongodb_controller = record {
    reconciler = mongo_db_provider mongodb_reconciler;
    recorder = "mongodbprovider-controller";
    max_concurrent_reconciles = pos 1;
  }

  unfoldable pub make_manager : Flags → Exec (Process R M) (Unit {0})
  make_manager flags = do
    p ← get_object
    config ← lift host.get_config
    lift (host.new_manager config (manager_options flags))
    put_object (record p { options = some (manager_options flags) })

  -- `mgr.AddHealthzCheck` and `mgr.AddReadyzCheck`
  unfoldable pub add_check : String → Exec (Process R M) (Unit {0})
  add_check name = do
    p ← get_object
    lift (host.add_check p.checks name)
    put_object (record p { checks = name ∷ p.checks })

  -- `mgr.Start`, which ends with the process
  unfoldable pub start : Exec (Process R M) (Unit {0})
  start = do p ← get_object; put_object (record p { started = true }); lift (host.start p)

  -- `database.New()` gives `client`. An error ends in `os.Exit(1)`.
  unfoldable pub main : R → Exec (Process R M) (Unit {0})
  main client = do
    init
    let flags = host.parse default_flags
    make_manager flags
    set_up request_metrics (request_controller (some client) flags.max_concurrent_reconciles)
    set_up provider_metrics (provider_controller (some client))
    set_up mongodb_metrics mongodb_controller
    add_check "healthz"
    add_check "readyz"
    start
