-- ===== src/Tests/Requests.antt =====
-- Runs of the reconciler of database requests, and its theorems at concrete input.
use mathlib.Core.Path.{subst}
use dbaas_controller.Prelude.{◌≡◌, refl, true, false, [], ◌∷◌, ◌++◌, All}
use dbaas_controller.Go.{ok, ok-injective}
use dbaas_controller.Api.{NamespacedName, DatabaseRequest}
use dbaas_controller.Cluster.{Call, History, attempt}
use dbaas_controller.Cluster.Order.{Only, Follows}
use dbaas_controller.Cluster.Since.{Since}
use dbaas_controller.Request.Deletion.{delete_database, drops}
use dbaas_controller.Request.Reconcile.{is_deleted, reconcile}
use dbaas_controller.Request.Safety.{
  drops_now, NotDrop, NotCreate, NotLock, quiet, entered, reconcile-NotDrop, reconcile-NotCreate,
  reconcile_in_lock,
}
use dbaas_controller.Request.Cleared.{IsUpdate}
use dbaas_controller.Request.DeletionOrder.{Cleared, DroppedIf, delete_database-order}
use dbaas_controller.Conn.{get_dsn}
use dbaas_controller.Request.Providers.{
  password_of, matches, connection_password, probe, probe_connections, probe_providers,
  found_provider, find_relational_database_provider,
}
use dbaas_controller.Request.Lowest.{IsLowest, find_relational_database_provider-IsLowest}
use dbaas_controller.Tests.Sample.{cluster-KeepsNames, request, deleted, provider, cluster, start}

abbrev key : NamespacedName
key = record { name = "request"; namespace = "project" }

-- A request that is being deleted, and whose database is kept
abbrev retained : DatabaseRequest
retained =
    let o = deleted "mysql" in record o { spec = record o.spec { drop_database_on_delete = false } }

reconcile-NotDrop_example :
    Only NotDrop [] (reconcile (cluster retained) key (start (request ""))).1
unfolding drops
reconcile-NotDrop_example =
    reconcile-NotDrop (cluster retained) key
      (λ g o e. subst (λ x. drops_now x ≡ false) (ok-injective retained o e) refl)
      (start (request ""))

reconcile-NotCreate_example :
    Only NotCreate [] (reconcile (cluster (deleted "mysql")) key (start (request ""))).1
reconcile-NotCreate_example =
    reconcile-NotCreate (cluster (deleted "mysql")) key
      (λ g o e.
        subst (λ x. is_deleted x.meta.deletion_timestamp ≡ true)
          (ok-injective (deleted "mysql") o e) refl)
      (start (request ""))

reconcile_in_lock_example :
    (body : History) × ((reconcile (cluster (request "mysql")) key (start (request ""))).1.history
      ≡ quiet (Call.unlock "project/request") ∷ (body ++ entered key []))
    × All (λ e. NotLock e.call) body
reconcile_in_lock_example = reconcile_in_lock (cluster (request "mysql")) key (start (request ""))

delete_database-order_example :
    Since
      (Follows IsUpdate (Cleared (deleted "mysql") (DroppedIf (deleted "mysql") true)))
      []
      (delete_database (cluster (deleted "mysql")) (start (deleted "mysql"))).1
unfolding drops
delete_database-order_example =
    delete_database-order (cluster (deleted "mysql")) (cluster-KeepsNames (deleted "mysql"))
      (start (deleted "mysql"))

-- The two connections have the loads 10 and 3.
second_chosen :
    (find_relational_database_provider (cluster (request "mysql")) (start (request "mysql"))).0
    ≡ ok (provider, "second")
unfolding find_relational_database_provider probe_providers probe_connections probe
    connection_password found_provider matches attempt password_of get_dsn
second_chosen = refl

find_relational_database_provider-IsLowest_example :
    Since
      (IsLowest (cluster (request "mysql")) (request "mysql") provider "second")
      []
      (find_relational_database_provider (cluster (request "mysql")) (start (request "mysql"))).1
find_relational_database_provider-IsLowest_example =
    find_relational_database_provider-IsLowest (cluster (request "mysql")) (start (request "mysql"))
      provider "second" second_chosen
