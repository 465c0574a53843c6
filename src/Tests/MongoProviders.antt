-- ===== src/Tests/MongoProviders.antt =====
-- Runs of the reconciler of the MongoDB providers, and its theorems at concrete input.
use dbaas_controller.Prelude.{◌≡◌, refl, String, ◌==◌, not, true, pos, some, [], ◌∷◌, if◌then◌else◌}
use dbaas_controller.Go.{Error, other, ok, err}
use dbaas_controller.Api.{NamespacedName, MongoDbConnection, MongoDbProvider, at_second}
use dbaas_controller.Cluster.{Run, attempt}
use dbaas_controller.Cluster.Order.{Only}
use dbaas_controller.Cluster.Since.{Since}
use dbaas_controller.Request.Providers.{password_of}
use dbaas_controller.Provider.Connections.{add_name, has_name}
use dbaas_controller.MongoProvider.Faults.{MongoEnv}
use dbaas_controller.MongoProvider.Connections.{
  read_mongodb_connections, failure, add_failure, add_available, check_mongodb, check_all_mongodb,
}
use dbaas_controller.MongoProvider.Reconcile.{
  set_mongodb_reconciled, conclude_mongodb, reconcile_mongodb_connections, reconcile,
}
use dbaas_controller.MongoProvider.Checked.{Answers}
use dbaas_controller.MongoProvider.Ready.{DistinctNames, reconcile_mongodb_connections-Answers}
use dbaas_controller.MongoProvider.Released.{NotServer, reconcile-NotServer}
use dbaas_controller.Tests.Sample.{meta_of, request, cluster, lacks}

abbrev mongodb_connection : String → String → MongoDbConnection
mongodb_connection name hostname = record {
  name = name;
  hostname = hostname;
  replica_hostnames = [];
  password_secret_ref = record { name = "password"; namespace = "dbaas" };
  port = pos 27017;
  username = "root";
  auth = record { mechanism = "SCRAM-SHA-256"; source = "admin"; tls = true };
  enabled = true;
}

abbrev pub mongodb_provider : MongoDbProvider
mongodb_provider = record {
  meta = meta_of "mongodb" "";
  spec = record {
    selector = "development";
    connections = mongodb_connection "first" "db1" ∷ mongodb_connection "second" "db2" ∷ [];
  };
  status = record { conditions = []; connection_status = []; observed_generation = pos 0 };
}

abbrev deleted_provider : MongoDbProvider
deleted_provider = record mongodb_provider {
  meta = record mongodb_provider.meta { deletion_timestamp = some (at_second 5) };
}

abbrev refused : Error
refused = record { message = "server selection error"; kind = other }

-- The server db1 does not answer.
abbrev pub mongo_cluster : MongoDbProvider → MongoEnv
mongo_cluster o = record {
  cluster = cluster (request "mongodb");
  get_provider = λ h key. ok o;
  update_provider = λ h x. (x, ok tt);
  update_provider_status = λ h x. (x, ok tt);
  ping = λ h mop. if mop.hostname == "db1" then err refused else ok tt;
  version = λ h mop. ok "7.0.5";
  contains_finalizer = λ fs f. not (lacks f fs);
}

abbrev pub key : NamespacedName
key = record { name = "mongodb"; namespace = "" }

abbrev pub begin : Run MongoDbProvider
begin = record { object = mongodb_provider; history = [] }

mongodb_provider_works :
    (reconcile_mongodb_connections (mongo_cluster mongodb_provider) key begin).0 ≡ ok tt
unfolding reconcile_mongodb_connections read_mongodb_connections add_name has_name check_all_mongodb
    check_mongodb failure add_failure add_available conclude_mongodb set_mongodb_reconciled attempt
    password_of
mongodb_provider_works = refl

reconcile_mongodb_connections-Answers_example :
    DistinctNames mongodb_provider
    × Since
        (Answers mongodb_provider)
        []
        (reconcile_mongodb_connections (mongo_cluster mongodb_provider) key begin).1
reconcile_mongodb_connections-Answers_example =
    reconcile_mongodb_connections-Answers (mongo_cluster mongodb_provider) key begin
      mongodb_provider_works

reconcile-NotServer_example :
    Only NotServer [] (reconcile (mongo_cluster deleted_provider) key begin).1
reconcile-NotServer_example =
    reconcile-NotServer (mongo_cluster deleted_provider) key begin deleted_provider refl refl
