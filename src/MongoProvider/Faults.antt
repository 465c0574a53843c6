-- ===== src/MongoProvider/Faults.antt =====
-- What the reconciler of the MongoDB providers calls, its metrics, and its `handleError`.
use dbaas_controller.Prelude.{String, Bool, List, [], ◌∷◌}
use dbaas_controller.Go.{Error, Result}
use dbaas_controller.Api.{Dict, Condition, NamespacedName, MongoDbProvider}
use dbaas_controller.Cluster.{
  Call, Env, Exec, History, raise, call_object, get_object, put_object, emit, attempt, ◌>>=◌, ◌>>◌,
}
use dbaas_controller.Mongo.{MongoDbClientOptions}
use dbaas_controller.Request.Faults.{err_type_to_event_reason}

-- The cluster with the MongoDB providers, and the interface `MongoDBInterface` as far as it is used here
pub record MongoEnv : Type 0 where
  pub cluster : Env
  pub get_provider : History → NamespacedName → Result MongoDbProvider
  pub update_provider : History → MongoDbProvider → MongoDbProvider × Result (Unit {0})
  pub update_provider_status : History → MongoDbProvider → MongoDbProvider × Result (Unit {0})
  pub ping : History → MongoDbClientOptions → Result (Unit {0})
  pub version : History → MongoDbClientOptions → Result String
  -- `controllerutil.ContainsFinalizer`
  pub contains_finalizer : List String → String → Bool

abbrev pub mongodb_provider_finalizer : String
mongodb_provider_finalizer = "mongodbprovider.crd.lagoon.sh/finalizer"

abbrev pub mongodb_error_counter : String
mongodb_error_counter = "mongodbprovider_reconcile_error_total"

abbrev pub mongodb_status : String
mongodb_status = "mongodbprovider_status"

abbrev pub mongodb_connection_version : String
mongodb_connection_version = "mongodbprovider_connection_version"

abbrev pub mongodb_labels : String → String → Dict String
mongodb_labels name selector = ("name", name) ∷ ("selector", selector) ∷ []

abbrev pub mongodb_error_labels : String → String → String → Dict String
mongodb_error_labels name selector error =
    ("name", name) ∷ ("selector", selector) ∷ ("error", error) ∷ []

unfoldable pub set_mongodb_conditions : List Condition → MongoDbProvider → MongoDbProvider
set_mongodb_conditions cs o = record o { status = record o.status { conditions = cs } }

module _ (env : MongoEnv) where
  abbrev pub update_mongodb_status : Exec MongoDbProvider (Unit {0})
  update_mongodb_status = call_object Call.update_mongodb_provider_status env.update_provider_status

  abbrev pub update_mongodb_provider : Exec MongoDbProvider (Unit {0})
  update_mongodb_provider = call_object Call.update_mongodb_provider env.update_provider

  abbrev pub mongodb_not_ready : String → Error → Condition
  mongodb_not_ready prom_err e = record {
    type = "Ready";
    status = "False";
    reason = err_type_to_event_reason env.cluster.title prom_err;
    message = e.message;
  }

  -- It always returns an error: that of the update of the status, or the one given.
  unfoldable pub handle_error : {A : Type 0} → String → Error → Exec MongoDbProvider A
  handle_error {A} prom_err e = do
    o ← get_object
    emit (
        Call.inc_counter mongodb_error_counter
          (mongodb_error_labels o.meta.name o.spec.selector prom_err))
    emit (Call.set_gauge mongodb_status (mongodb_labels o.meta.name o.spec.selector) 0)
    emit (
        Call.record_event "Warning" (err_type_to_event_reason env.cluster.title prom_err) e.message)
    put_object (
        set_mongodb_conditions
          (env.cluster.set_status_condition o.status.conditions (mongodb_not_ready prom_err e)).0 o)
    attempt update_mongodb_status
        (λ e'. do
          o' ← get_object
          emit (
              Call.inc_counter mongodb_error_counter
                (mongodb_error_labels o'.meta.name o'.spec.selector "update-status"))
          raise e')
        (λ _. raise e)
