-- ===== src/Provider/Faults.antt =====
-- The metrics and `handleError` of the reconciler of the relational providers.
use dbaas_controller.Prelude.{String, List, [], ◌∷◌}
use dbaas_controller.Go.{Error}
use dbaas_controller.Api.{Dict, Condition, RelationalDatabaseProvider}
use dbaas_controller.Cluster.{
  Call, Env, Exec, pure, raise, call_object, get_object, put_object, emit, attempt, ◌>>=◌, ◌>>◌,
}
use dbaas_controller.Request.Faults.{err_type_to_event_reason}

abbrev pub database_provider_finalizer : String
database_provider_finalizer = "relationaldatabaseprovider.crd.lagoon.sh/finalizer"

abbrev pub provider_error_counter : String
provider_error_counter = "relationaldatabaseprovider_reconcile_error_total"

abbrev pub provider_status : String
provider_status = "relationaldatabaseprovider_status"

abbrev pub connection_version : String
connection_version = "relationaldatabaseprovider_connection_version"

abbrev pub provider_labels : String → String → String → Dict String
provider_labels type name selector = ("type", type) ∷ ("name", name) ∷ ("selector", selector) ∷ []

abbrev pub error_labels : String → String → String → String → Dict String
error_labels type name selector error =
    ("type", type) ∷ ("name", name) ∷ ("selector", selector) ∷ ("error", error) ∷ []

unfoldable pub set_provider_conditions :
    List Condition → RelationalDatabaseProvider → RelationalDatabaseProvider
set_provider_conditions cs o = record o { status = record o.status { conditions = cs } }

module _ (env : Env) where
  abbrev pub update_provider_status : Exec RelationalDatabaseProvider (Unit {0})
  update_provider_status = call_object Call.update_provider_status env.update_provider_status

  abbrev pub update_provider : Exec RelationalDatabaseProvider (Unit {0})
  update_provider = call_object Call.update_provider env.update_provider

  abbrev pub not_ready : String → Error → Condition
  not_ready prom_err e = record {
    type = "Ready";
    status = "False";
    reason = err_type_to_event_reason env.title prom_err;
    message = e.message;
  }

  -- It always returns the error.
  unfoldable pub handle_error : {A : Type 0} → String → Error → Exec RelationalDatabaseProvider A
  handle_error {A} prom_err e = do
    o ← get_object
    emit (
        Call.inc_counter provider_error_counter
          (error_labels o.spec.type o.meta.name o.spec.selector prom_err))
    emit
        (Call.set_gauge provider_status (provider_labels o.spec.type o.meta.name o.spec.selector) 0)
    emit (Call.record_event "Warning" (err_type_to_event_reason env.title prom_err) e.message)
    put_object (
        set_provider_conditions
          (env.set_status_condition o.status.conditions (not_ready prom_err e)).0 o)
    attempt update_provider_status
        (λ _. do
          o' ← get_object
          emit (
              Call.inc_counter provider_error_counter
                (error_labels o'.spec.type o'.meta.name o'.spec.selector "update-status")))
        pure
    raise e
