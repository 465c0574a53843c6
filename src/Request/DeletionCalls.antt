-- ===== src/Request/DeletionCalls.antt =====
-- The calls that the deletion of a request can make.
use dbaas_controller.Prelude.{String, Bool, Option}
use dbaas_controller.Go.{Error}
use dbaas_controller.Api.{Dict, NamespacedName, DatabaseRequest}
use dbaas_controller.Cluster.{Call, Env, History}
use dbaas_controller.Cluster.Triple.{Keeps}
use dbaas_controller.Cluster.Order.{Only, only_rules}
use dbaas_controller.Conn.{ReldbConn}
use dbaas_controller.Request.Faults.{handle_error}
use dbaas_controller.Request.Info.{DbInfo}
use dbaas_controller.Request.Operation.{
  drop, forget_reference, drop_case, relational_database_operation, rel_db_deletion,
}
use dbaas_controller.Request.Deletion.{
  delete_service, delete_secret, report_deleted, remove_finalizer, delete_resources,
  delete_database,
}
use dbaas_controller.Request.Calls.{
  Reports, Reads, handle_error-Only, operation_status-Only, provider_for-Only, connection_for-Only,
  require_some-Only,
}

-- Calls that take away what a request has in the cluster
pub record Removes (P : Call → Type 0) : Type 0 where
  pub delete_service : (key : NamespacedName) → P (Call.delete_service key)
  pub delete_secret : (key : NamespacedName) → P (Call.delete_secret key)
  pub delete_gauge : (name : String) (labels : Dict String) → P (Call.delete_gauge name labels)

module _ (env : Env) {P : Call → Type 0} {h : History} where
  pub delete_service-Only :
      (p : (key : NamespacedName) → P (Call.delete_service key)) (key : NamespacedName)
      → Keeps (Only P h) (delete_service env key)
  unfolding delete_service
  delete_service-Only p key = search (only_rules, p) depth 9

  pub delete_secret-Only :
      (p : (key : NamespacedName) → P (Call.delete_secret key)) (key : NamespacedName)
      → Keeps (Only P h) (delete_secret env key)
  unfolding delete_secret
  delete_secret-Only p key = search (only_rules, p) depth 9

module _ (env : Env) {P : Call → Type 0} {h : History} (reports : Reports P) (reads : Reads P)
    (drops : (dsn name namespace type : String)
      → P (Call.drop_database dsn name namespace type)) where
  pub forget_reference-Only : (o : DatabaseRequest) → Keeps (Only P h) (forget_reference env o)
  unfolding forget_reference
  forget_reference-Only o = search (only_rules, operation_status-Only env reports) depth 14

  drop_case-Only :
      (o : DatabaseRequest) (conn : ReldbConn) → Keeps (Only P h) (drop_case env o conn)
  unfolding drop_case
  drop_case-Only o conn = search (only_rules, drops, forget_reference-Only) depth 14

  drop_operation-Only :
      (i : Option DbInfo) → Keeps (Only P h) (relational_database_operation env drop i)
  unfolding relational_database_operation
  drop_operation-Only i =
      search
        (only_rules, provider_for-Only env reads, connection_for-Only env reads, drop_case-Only)
        depth 14

  pub rel_db_deletion-Only : Keeps (Only P h) (rel_db_deletion env)
  unfolding rel_db_deletion
  rel_db_deletion-Only =
      search (only_rules, require_some-Only env reads, drop_operation-Only) depth 14

module _ (env : Env) {P : Call → Type 0} {h : History} (reports : Reports P) (removes : Removes P)
    (update_request : (o : DatabaseRequest) → P (Call.update_request o)) where
  faulty : (p : String) (e : Error) (b : Bool) → Keeps (Only P h) (handle_error env p e b)
  faulty = handle_error-Only env reports

  report_deleted-Only : Keeps (Only P h) (report_deleted env)
  unfolding report_deleted
  report_deleted-Only = search (only_rules, reports.record_event, removes.delete_gauge) depth 9

  pub remove_finalizer-Only : Keeps (Only P h) (remove_finalizer env)
  unfolding remove_finalizer
  remove_finalizer-Only = search (only_rules, update_request, faulty, report_deleted-Only) depth 9

  pub delete_resources-Only : Keeps (Only P h) (delete_resources env)
  unfolding delete_resources
  delete_resources-Only =
      search
        (
          only_rules,
          delete_service-Only env {P = P} {h = h} removes.delete_service,
          delete_secret-Only env {P = P} {h = h} removes.delete_secret,
          faulty,
          remove_finalizer-Only,
        )
        depth 12

  pub delete_database-Only :
      Reads P
      → ((dsn name namespace type : String) → P (Call.drop_database dsn name namespace type))
      → Keeps (Only P h) (delete_database env)
  unfolding delete_database
  delete_database-Only reads drops =
      search
        (only_rules, rel_db_deletion-Only env reports reads drops, faulty, delete_resources-Only)
        depth 12
