-- ===== src/Request/Deletion.antt =====
-- `deleteDatabase`.
use dbaas_controller.Prelude.{
  String, ◌<>◌, ◌==◌, ◌&&◌, Bool, true, false, Option, none, some, List, [], ◌∷◌, if◌then◌else◌,
}
use dbaas_controller.Go.{is_not_found}
use dbaas_controller.Api.{NamespacedName, DatabaseRequest}
use dbaas_controller.Cluster.{
  Call, Env, Exec, pure, raise, call, emit, get_object, put_object, attempt, ◌>>=◌, ◌>>◌,
}
use dbaas_controller.Request.Faults.{
  database_request_finalizer, reconcile_status, invalid_database_type, handle_error, update,
}
use dbaas_controller.Request.Operation.{is_relational, mongodb_type, rel_db_deletion}
use dbaas_controller.Request.Resources.{service_key, own_secret_key}

abbrev pub is_nil : {A : Type 0} → Option A → Bool
is_nil none = true
is_nil (some a) = false

unfoldable pub set_finalizers : List String → DatabaseRequest → DatabaseRequest
set_finalizers fs o = record o { meta = record o.meta { finalizers = fs } }

-- The database is to be dropped with the request.
unfoldable pub drops : DatabaseRequest → Bool
drops o = is_nil o.spec.seed && o.spec.drop_database_on_delete

module _ (env : Env) where
  -- `r.Delete(…)`, where it does not matter if the object is gone already
  unfoldable pub delete_service : NamespacedName → Exec DatabaseRequest (Unit {0})
  delete_service key =
      attempt (call (Call.delete_service key) (λ h. env.delete_service h key))
        (λ e. if is_not_found e then pure tt else raise e) pure

  unfoldable pub delete_secret : NamespacedName → Exec DatabaseRequest (Unit {0})
  delete_secret key =
      attempt (call (Call.delete_secret key) (λ h. env.delete_secret h key))
        (λ e. if is_not_found e then pure tt else raise e) pure

  -- The end, once the finalizer is gone
  unfoldable pub report_deleted : Exec DatabaseRequest (Unit {0})
  report_deleted = do
    o ← get_object
    emit (
        Call.record_event "Normal" "DeletedDatabase"
          ("Deleted database " <> o.meta.namespace <> "/" <> o.meta.name))
    emit (
        Call.delete_gauge reconcile_status
          (("name", o.meta.name) ∷ ("namespace", o.meta.namespace) ∷ []))

  unfoldable pub remove_finalizer : Exec DatabaseRequest (Unit {0})
  remove_finalizer = do
    o ← get_object
    let (fs, removed) = env.remove_finalizer o.meta.finalizers database_request_finalizer
    put_object (set_finalizers fs o)
    if removed
        then attempt (update env) (λ e. handle_error env "remove-finalizer" e false)
            (λ _. report_deleted)
        else report_deleted

  -- The service, the secret and the finalizer
  unfoldable pub delete_resources : Exec DatabaseRequest (Unit {0})
  delete_resources = do
    o ← get_object
    attempt (delete_service (service_key o)) (λ e. handle_error env "delete-service" e false)
        λ _. do
          o' ← get_object
          attempt (delete_secret (own_secret_key o'))
              (λ e. handle_error env "delete-secret" e false) (λ _. remove_finalizer)

  unfoldable pub delete_database : Exec DatabaseRequest (Unit {0})
  delete_database = do
    o ← get_object
    if drops o
        then (if is_relational o.spec.type
            then attempt (rel_db_deletion env)
                (λ e. do o' ← get_object; handle_error env (o'.spec.type <> "-drop") e false)
                (λ _. delete_resources)
            else if o.spec.type == mongodb_type
            then delete_resources
            else handle_error env "invalid-database-type" invalid_database_type false)
        else delete_resources
