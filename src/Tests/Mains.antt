-- ===== src/Tests/Mains.antt =====
-- `main` with libraries that accept everything, and its theorems there.
use dbaas_controller.Prelude.{String, ◌≡◌, ◌≢◌, refl, true, false, some, [], ◌∷◌}
use dbaas_controller.Go.{ok}
use dbaas_controller.Cluster.{Run, attempt}
use dbaas_controller.Mongo.Mock.{mongo_db_mock}
use dbaas_controller.MongoProvider.Connections.{
  read_mongodb_connections, failure, add_failure, add_available, check_mongodb, check_all_mongodb,
}
use dbaas_controller.MongoProvider.Reconcile.{
  set_mongodb_reconciled, conclude_mongodb, reconcile_mongodb_connections,
  reconcile_mongodb_provider, reconcile, set_mongodb_finalizers, is_mongodb_reconciled,
}
use dbaas_controller.Provider.Connections.{add_name, has_name}
use dbaas_controller.Request.Providers.{password_of}
use dbaas_controller.Main.{
  default_flags, TlsConfig, ManagerOptions, Process, new_process, Host, must_add, init,
  make_manager, register, set_up, add_check, start, main,
}
use dbaas_controller.Main.Clients.{MongoDbInterface, served}
use dbaas_controller.Main.Started.{IsComplete, configure, main-IsComplete}
use dbaas_controller.Main.Unserved.{wired, reconcile-unserved}
use dbaas_controller.Tests.MongoProviders.{mongodb_provider, mongo_cluster, key, begin}

-- The relational client is the number of its pointer.
abbrev host : Host String String MongoDbInterface
host = record {
  add_to_scheme = λ groups group. ok tt;
  parse = λ flags. flags;
  get_config = ok "config";
  new_manager = λ config o. ok tt;
  must_register = λ old new. ok tt;
  complete = λ cs c. ok tt;
  add_check = λ cs c. ok tt;
  start = λ p. ok tt;
}

abbrev process : Run (Process String MongoDbInterface)
process = (main host "client" (record { object = new_process; history = [] })).1

main_returns :
    (main host "client" (record { object = new_process {R = String}; history = [] })).0 ≡ ok tt
unfolding main init must_add make_manager set_up register add_check start attempt
main_returns = refl

main-IsComplete_example :
    ((main host "client" (record { object = new_process; history = [] })).0 ≡ ok tt
      → process.object.started ≡ true)
    × (process.object.started ≡ true
        → IsComplete host "client" default_flags process.object
          × ((host.parse default_flags).enable_http2 ≡ false
              → (o : ManagerOptions) (c : TlsConfig) → process.object.options ≡ some o
              → ((configure o.metrics_tls_opts c).next_protos ≡ "http/1.1" ∷ [])
                × ((configure o.webhook_tls_opts c).next_protos ≡ "http/1.1" ∷ [])))
main-IsComplete_example = main-IsComplete host "client"

reconcile-unserved_example :
    (reconcile (wired host (mongo_cluster mongodb_provider)) key begin).0 ≢ ok tt
unfolding is_mongodb_reconciled
reconcile-unserved_example =
    reconcile-unserved host (mongo_cluster mongodb_provider) key begin mongodb_provider refl refl
      refl

-- With the mock as its client, as in the tests of the repository, the same reconciliation succeeds.
reconcile_mocked :
    (reconcile
      (served (record { mongo_db_client = some mongo_db_mock }) (mongo_cluster mongodb_provider))
      key
      begin).0
    ≡ ok tt
unfolding reconcile served reconcile_mongodb_provider is_mongodb_reconciled
    reconcile_mongodb_connections read_mongodb_connections add_name has_name check_all_mongodb
    check_mongodb failure add_failure add_available conclude_mongodb set_mongodb_reconciled attempt
    password_of set_mongodb_finalizers
reconcile_mocked = refl
