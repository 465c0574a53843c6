-- ===== src/Main/Clients.antt =====
-- The clients that the reconcilers are given, as a call through an interface finds them.
use dbaas_controller.Prelude.{String, Option, none, some}
use dbaas_controller.Go.{Result, panic}
use dbaas_controller.Cluster.{History}
use dbaas_controller.Mongo.{MongoDbClientOptions}
use dbaas_controller.MongoProvider.Faults.{MongoEnv}
use dbaas_controller.Main.{MongoDbProviderReconciler}

-- `MongoDBInterface`, as far as the reconciler of the providers calls it
pub record MongoDbInterface : Type 0 where
  pub ping : History → MongoDbClientOptions → Result (Unit {0})
  pub version : History → MongoDbClientOptions → Result String

-- A call through a nil interface panics.
abbrev pub ping_of : Option MongoDbInterface → History → MongoDbClientOptions → Result (Unit {0})
ping_of none h mop = panic
ping_of (some c) h mop = c.ping h mop

abbrev pub version_of : Option MongoDbInterface → History → MongoDbClientOptions → Result String
version_of none h mop = panic
version_of (some c) h mop = c.version h mop

-- What the reconciler `r` calls in the cluster `env`
unfoldable pub served : MongoDbProviderReconciler MongoDbInterface → MongoEnv → MongoEnv
served r env = record env {
  ping = ping_of r.mongo_db_client;
  version = version_of r.mongo_db_client;
}
