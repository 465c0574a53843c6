-- ===== src/Request/LiveCalls.antt =====
-- The calls that the reconciliation of a request that is not being deleted can make.
use dbaas_controller.Prelude.{String, Bool, true, false, Option, none, some}
use dbaas_controller.Go.{Error}
use dbaas_controller.Api.{
  SecretReference, DatabaseRequest, RelationalDatabaseProvider, Secret, Service,
}
use dbaas_controller.Cluster.{Call, Env, History}
use dbaas_controller.Cluster.Triple.{Keeps}
use dbaas_controller.Cluster.Order.{Only, only_rules}
use dbaas_controller.Conn.{ReldbConn}
use dbaas_controller.Request.Faults.{handle_error}
use dbaas_controller.Request.Info.{DbInfo}
use dbaas_controller.Request.Operation.{
  create, info, create_case, info_case, relational_database_operation, create_relational,
  create_database, rel_db_info,
}
use dbaas_controller.Request.Resources.{
  handle_seed, create_service, adjust_service, handle_service, create_secret, adjust_secret,
  handle_secret,
}
use dbaas_controller.Request.Reconcile.{
  set_ready, finish, provide, seed_failed, reconcile_seed, reconcile_info, reconcile_created,
  reconcile_current, reconcile_live, report, by_seed,
}
use dbaas_controller.Request.Calls.{
  Reports, Reads, Creates, handle_error-Only, operation_status-Only, provider_for-Only,
  connection_for-Only, relational_database_info_from_seed-Only, require_some-Only, deref-Only,
}

module _ (env : Env) {P : Call → Type 0} {h : History} (reports : Reports P) (reads : Reads P)
    (creates : Creates P) where
  open reports use {set_gauge, record_event, inc_counter, update_request_status}
  open reads use {get_secret, get_service}

  faulty : (p : String) (e : Error) (b : Bool) → Keeps (Only P h) (handle_error env p e b)
  faulty = handle_error-Only env reports

  create_case-Only :
      (o : DatabaseRequest) (p : RelationalDatabaseProvider) (conn : ReldbConn)
      → Keeps (Only P h) (create_case env o p conn)
  unfolding create_case
  create_case-Only o p conn =
      search (only_rules, creates.create_database, operation_status-Only env reports) depth 14

  create_operation-Only :
      (i : Option DbInfo) → Keeps (Only P h) (relational_database_operation env create i)
  unfolding relational_database_operation
  create_operation-Only i =
      search
        (only_rules, provider_for-Only env reads, connection_for-Only env reads, create_case-Only)
        depth 14

  info_case-Only :
      (o : DatabaseRequest) (conn : ReldbConn) (i : Option DbInfo)
      → Keeps (Only P h) (info_case env o conn i)
  unfolding info_case
  info_case-Only o conn none = search only_rules
  info_case-Only o conn (some i) = search (only_rules, creates.get_database_info) depth 9

  info_operation-Only :
      (i : Option DbInfo) → Keeps (Only P h) (relational_database_operation env info i)
  unfolding relational_database_operation
  info_operation-Only i =
      search
        (only_rules, provider_for-Only env reads, connection_for-Only env reads, info_case-Only)
        depth 14

  create_relational-Only : Keeps (Only P h) (create_relational env)
  unfolding create_relational
  create_relational-Only =
      search (only_rules, create_operation-Only, require_some-Only env reads) depth 14

  create_database-Only : Keeps (Only P h) (create_database env)
  unfolding create_database
  create_database-Only = search (only_rules, create_relational-Only) depth 9

  rel_db_info-Only : Keeps (Only P h) (rel_db_info env)
  unfolding rel_db_info
  rel_db_info-Only = search (only_rules, info_operation-Only) depth 9

  handle_seed-Only : (seed : SecretReference) → Keeps (Only P h) (handle_seed env seed)
  unfolding handle_seed
  handle_seed-Only seed =
      search
        (
          only_rules,
          relational_database_info_from_seed-Only env reads,
          creates.set_database_info,
          creates.delete_secret,
        )
        depth 14

  create_service-Only :
      (i : Option DbInfo) (o : DatabaseRequest) → Keeps (Only P h) (create_service env i o)
  unfolding create_service
  create_service-Only i o =
      search (only_rules, record_event, deref-Only env reads, creates.create_service) depth 9

  adjust_service-Only :
      (i : Option DbInfo) (o : DatabaseRequest) (s : Service)
      → Keeps (Only P h) (adjust_service env i o s)
  unfolding adjust_service
  adjust_service-Only i o s =
      search (only_rules, record_event, deref-Only env reads, creates.update_service) depth 9

  handle_service-Only : (i : Option DbInfo) → Keeps (Only P h) (handle_service env i)
  unfolding handle_service
  handle_service-Only i =
      search (only_rules, get_service, create_service-Only, adjust_service-Only) depth 9

  create_secret-Only :
      (i : Option DbInfo) (o : DatabaseRequest) → Keeps (Only P h) (create_secret env i o)
  unfolding create_secret
  create_secret-Only i o =
      search (only_rules, record_event, deref-Only env reads, creates.create_secret) depth 9

  adjust_secret-Only :
      (i : Option DbInfo) (o : DatabaseRequest) (s : Secret)
      → Keeps (Only P h) (adjust_secret env i o s)
  unfolding adjust_secret
  adjust_secret-Only i o s =
      search (only_rules, record_event, deref-Only env reads, creates.update_secret) depth 9

  handle_secret-Only : (i : Option DbInfo) → Keeps (Only P h) (handle_secret env i)
  unfolding handle_secret
  handle_secret-Only i =
      search (only_rules, get_secret, create_secret-Only, adjust_secret-Only) depth 9

  report-Only : (b : Bool) → Keeps (Only P h) (report env b)
  report-Only true = search (only_rules, record_event)
  report-Only false = search (only_rules, record_event)

  pub set_ready-Only : (b : Bool) → Keeps (Only P h) (set_ready env b)
  unfolding set_ready
  set_ready-Only b = search (only_rules, update_request_status, faulty, report-Only) depth 9

  pub finish-Only : (b : Bool) → Keeps (Only P h) (finish env b)
  unfolding finish
  finish-Only b =
      search (only_rules, set_gauge, creates.update_request, inc_counter, set_ready-Only) depth 12

  pub provide-Only : (i : Option DbInfo) → Keeps (Only P h) (provide env i)
  unfolding provide
  provide-Only i =
      search (only_rules, handle_service-Only, handle_secret-Only, faulty, finish-Only) depth 9

  seed_failed-Only : (e : Error) → Keeps (Only P h) (seed_failed env e)
  unfolding seed_failed
  seed_failed-Only e = search (only_rules, faulty)

  reconcile_seed-Only : (seed : SecretReference) → Keeps (Only P h) (reconcile_seed env seed)
  unfolding reconcile_seed
  reconcile_seed-Only seed =
      search (only_rules, handle_seed-Only, seed_failed-Only, provide-Only) depth 9

  reconcile_info-Only : Keeps (Only P h) (reconcile_info env)
  unfolding reconcile_info
  reconcile_info-Only = search (only_rules, rel_db_info-Only, faulty, provide-Only) depth 9

  reconcile_created-Only : Keeps (Only P h) (reconcile_created env)
  unfolding reconcile_created
  reconcile_created-Only =
      search (only_rules, create_database-Only, faulty, reconcile_info-Only) depth 9

  by_seed-Only : (seed : Option SecretReference) → Keeps (Only P h) (by_seed env seed)
  by_seed-Only none = reconcile_created-Only
  by_seed-Only (some seed) = reconcile_seed-Only seed

  reconcile_current-Only : Keeps (Only P h) (reconcile_current env)
  unfolding reconcile_current
  reconcile_current-Only = search (only_rules, record_event, by_seed-Only) depth 9

  pub reconcile_live-Only : Keeps (Only P h) (reconcile_live env)
  unfolding reconcile_live
  reconcile_live-Only =
      search (only_rules, creates.update_request, faulty, reconcile_current-Only) depth 9
