-- ===== src/Request/Faults.antt =====
-- `handleError`, `promLabels`, the tests of error texts, and `errTypeToEventReason` of
-- internal/controller/metrics.go.
use dbaas_controller.Prelude.{
  String, ◌<>◌, ◌==◌, Bool, ◌++◌, List, [], ◌∷◌, Option, none, some, if◌then◌else◌,
}
use dbaas_controller.Prelude.Texts.{contains, split, join}
use dbaas_controller.Go.{Error, new_error}
use dbaas_controller.Api.{Dict, Condition, DatabaseInfo, DatabaseRequest}
use dbaas_controller.Cluster.{
  Call, Env, Exec, pure, raise, call_object, get_object, put_object, emit, attempt, ◌>>=◌, ◌>>◌,
}

abbrev pub database_request_finalizer : String
database_request_finalizer = "databaserequest.crd.lagoon.sh/finalizer"

abbrev pub reconcile_counter : String
reconcile_counter = "databaserequest_reconcile_total"

abbrev pub reconcile_error_counter : String
reconcile_error_counter = "databaserequest_reconcile_error_total"

abbrev pub reconcile_status : String
reconcile_status = "databaserequest_reconcile_status"

abbrev pub invalid_database_type : Error
invalid_database_type = new_error "invalid database type"

unfoldable pub err_is_invalid_credentials : Error → Bool
unfolding contains
err_is_invalid_credentials e = contains e.message "invalid credentials"

unfoldable pub err_is_database_does_not_exist : Error → Bool
unfolding contains
err_is_database_does_not_exist e = contains e.message "database does not exist"

abbrev username_of : Option DatabaseInfo → String
username_of none = ""
username_of (some i) = i.username

abbrev databasename_of : Option DatabaseInfo → String
databasename_of none = ""
databasename_of (some i) = i.databasename

unfoldable pub prom_labels : DatabaseRequest → String → Dict String
prom_labels o with_error =
    (("name", o.meta.name)
      ∷ ("namespace", o.meta.namespace)
      ∷ ("selector", o.spec.selector)
      ∷ ("type", o.spec.type)
      ∷ ("username", username_of o.status.database_info)
      ∷ ("databasename", databasename_of o.status.database_info)
      ∷ [])
    ++ (if with_error == "" then [] else ("error", with_error) ∷ [])

abbrev pub map_title : (String → String) → List String → List String
map_title title [] = []
map_title title (w ∷ ws) = title w ∷ map_title title ws

-- The capitalised parts of a text with dashes, joined.
unfoldable pub err_type_to_event_reason : (String → String) → String → String
unfolding split join
err_type_to_event_reason title err_type = join (map_title title (split b'-' err_type))

module _ (env : Env) where
  -- `r.Status().Update(ctx, databaseRequest)` and `r.Update(ctx, databaseRequest)`
  abbrev pub update_status : Exec DatabaseRequest (Unit {0})
  update_status = call_object Call.update_request_status env.update_request_status

  abbrev pub update : Exec DatabaseRequest (Unit {0})
  update = call_object Call.update_request env.update_request

  abbrev pub ready_false : String → Error → Condition
  ready_false prom_err e = record {
    type = "Ready";
    status = "False";
    reason = err_type_to_event_reason env.title prom_err;
    message = e.message;
  }

  abbrev pub error_true : Error → Condition
  error_true e = record {
    type = "Error";
    status = "True";
    reason = "ReconcileFailed";
    message = "An error occurred during reconciliation: " <> e.message;
  }

  -- The request with the two conditions that report an error.
  unfoldable pub with_error : String → Error → DatabaseRequest → DatabaseRequest
  with_error prom_err e o =
      let ready = (env.set_status_condition o.status.conditions (ready_false prom_err e)).0 in
      record o {
        status = record o.status { conditions = (env.set_status_condition ready (error_true e)).0 };
      }

  unfoldable pub handle_error : String → Error → Bool → Exec DatabaseRequest (Unit {0})
  handle_error prom_err e ignore_error = do
    o ← get_object
    emit (Call.inc_counter reconcile_error_counter (prom_labels o prom_err))
    emit (Call.set_gauge reconcile_status (prom_labels o "") 0)
    emit (Call.record_event "Warning" "ReconcileError" e.message)
    put_object (with_error prom_err e o)
    attempt update_status
        (λ _. do
          o' ← get_object
          emit (Call.inc_counter reconcile_error_counter (prom_labels o' "update-status")))
        pure
    if ignore_error then pure tt else raise e
