-- ===== src/MongoProvider/Released.antt =====
-- A MongoDB provider that is being deleted.
use dbaas_controller.Prelude.{◌≡◌, String, true}
use dbaas_controller.Go.{Error, ok}
use dbaas_controller.Api.{NamespacedName, MongoDbProvider}
use dbaas_controller.Cluster.{Call, History, Run, attempt, done}
use dbaas_controller.Cluster.Triple.{Keeps, Keeps-run}
use dbaas_controller.Cluster.Order.{Only, Only-refl, added_one, only_rules}
use dbaas_controller.Request.Reconcile.{is_deleted}
use dbaas_controller.MongoProvider.Faults.{MongoEnv, handle_error}
use dbaas_controller.MongoProvider.Reconcile.{release_mongodb_provider, reconcile}

-- Neither a call to a MongoDB server nor one for a secret
abbrev pub NotServer : Call → Type 0
NotServer (Call.mongo_ping mop) = ⊥
NotServer (Call.mongo_version mop) = ⊥
NotServer (Call.get_secret key) = ⊥
NotServer _ = Unit

module _ (env : MongoEnv) where
  handle_error-NotServer :
      {A : Type 0} {g : History} (p : String) (e : Error)
      → Keeps (Only NotServer g) (handle_error env {A = A} p e)
  unfolding handle_error
  handle_error-NotServer p e = search only_rules depth 24

  release-NotServer : {g : History} → Keeps (Only NotServer g) (release_mongodb_provider env)
  unfolding release_mongodb_provider
  release-NotServer = search (only_rules, handle_error-NotServer) depth 14

  -- The reconciliation of a MongoDB provider that is being deleted reads no secret, and neither pings a
  -- server nor asks for its version.
  pub reconcile-NotServer :
      (key : NamespacedName) (s : Run MongoDbProvider) (o : MongoDbProvider)
      → env.get_provider s.history key ≡ ok o
      → is_deleted o.meta.deletion_timestamp ≡ true
      → Only NotServer s.history (reconcile env key s).1
  unfolding reconcile attempt
  reconcile-NotServer key s o got deleted = rw got (
      rw deleted (
        Keeps-run (Only NotServer s.history) _ release-NotServer _ (
          added_one (record { call = Call.get_mongodb_provider key; outcome = done }) tt
            (Only-refl NotServer s))))
