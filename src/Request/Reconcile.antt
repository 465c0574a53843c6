-- ===== src/Request/Reconcile.antt =====
-- `Reconcile` of the database requests.
use dbaas_controller.Prelude.{
  String, ◌<>◌, ◌&&◌, ◌||◌, Bool, true, false, Option, none, some, List, [], ◌∷◌, if◌then◌else◌,
  int_le,
}
use dbaas_controller.Go.{Error, new_error, is_not_found}
use dbaas_controller.Api.{
  NamespacedName, SecretReference, Timestamp, zero_time, at_second, Condition, DatabaseRequest,
}
use dbaas_controller.Cluster.{
  Call, Env, Exec, pure, raise, call, emit, get_object, put_object, attempt, ◌>>=◌, ◌>>◌,
}
use dbaas_controller.Request.Faults.{
  database_request_finalizer, reconcile_counter, reconcile_error_counter, reconcile_status,
  err_is_invalid_credentials, err_is_database_does_not_exist, prom_labels, handle_error, update,
  update_status,
}
use dbaas_controller.Request.Info.{DbInfo}
use dbaas_controller.Request.Providers.{SeedDatabaseInfo}
use dbaas_controller.Request.Operation.{
  is_relational, set_reference, set_observed_reference, create_database, rel_db_info,
}
use dbaas_controller.Request.Resources.{handle_seed, handle_service, handle_secret}
use dbaas_controller.Request.Deletion.{is_nil, set_finalizers, delete_database}

-- `DeletionTimestamp != nil && !DeletionTimestamp.IsZero()`
abbrev pub is_deleted : Option Timestamp → Bool
is_deleted none = false
is_deleted (some zero_time) = false
is_deleted (some (at_second n)) = true

abbrev pub has_conditions : List Condition → Bool
has_conditions [] = false
has_conditions (c ∷ cs) = true

unfoldable pub set_conditions : List Condition → DatabaseRequest → DatabaseRequest
set_conditions cs o = record o { status = record o.status { conditions = cs } }

unfoldable pub observe_generation : DatabaseRequest → DatabaseRequest
observe_generation o = record o {
  status = record o.status { observed_generation = o.meta.generation };
}

-- The request after `handleSeed`
unfoldable pub seeded : SeedDatabaseInfo → DatabaseRequest → DatabaseRequest
unfolding set_reference set_observed_reference
seeded i o =
    let o' =
      set_observed_reference (some i.database_provider_ref)
        (set_reference (some i.database_provider_ref) o) in
    record o' { spec = record o'.spec { seed = none } }

abbrev pub ready_true : Bool → Condition
ready_true true = record {
  type = "Ready";
  status = "True";
  reason = "DatabaseRequestChanged";
  message = "The database request has been changed";
}
ready_true false = record {
  type = "Ready";
  status = "True";
  reason = "DatabaseRequestCreated";
  message = "The database request has been created";
}

-- The labels are given by position: the fifth is `username`.
abbrev get_failed_labels : NamespacedName → List (String × String)
get_failed_labels key =
    ("name", key.name)
    ∷ ("namespace", key.namespace)
    ∷ ("selector", "")
    ∷ ("type", "")
    ∷ ("username", "get-dbreq")
    ∷ ("databasename", "")
    ∷ ("error", "")
    ∷ []

abbrev pub request_labels : NamespacedName → List (String × String)
request_labels key = ("name", key.name) ∷ ("namespace", key.namespace) ∷ []

abbrev pub lock_key : NamespacedName → String
lock_key key = key.namespace <> "/" <> key.name

-- `r.lock(lockKey)` and `defer r.unlock(lockKey)`: also after a panic
unfoldable pub with_lock :
    String → Exec DatabaseRequest (Unit {0}) → Exec DatabaseRequest (Unit {0})
with_lock key m s =
    let (_, s₁) = emit (Call.lock key) s in
    let (r, s₂) = m s₁ in let (_, s₃) = emit (Call.unlock key) s₂ in (r, s₃)

module _ (env : Env) where
  -- The Ready condition is true, and the generation has been observed.
  unfoldable pub is_up_to_date : DatabaseRequest → Bool
  is_up_to_date o =
      (has_conditions o.status.conditions
        && env.is_status_condition_true o.status.conditions "Ready")
      && int_le o.meta.generation o.status.observed_generation

  abbrev pub report : Bool → Exec DatabaseRequest (Unit {0})
  report true =
      emit (
        Call.record_event "Normal" "DatabaseRequestUpdated" "The database request has been updated")
  report false = emit (
      Call.record_event "Normal" "DatabaseRequestUnchanged" "The database request has been created")

  -- From `meta.RemoveStatusCondition` to the end
  unfoldable pub set_ready : Bool → Exec DatabaseRequest (Unit {0})
  set_ready has_changed = do
    o ← get_object
    let cleared = env.remove_status_condition o.status.conditions "Error"
    let (conditions, changed) = env.set_status_condition cleared (ready_true has_changed)
    put_object (set_conditions conditions o)
    if changed
        then attempt (update_status env) (λ e. handle_error env "update-status" e false)
            (λ _. report has_changed)
        else report has_changed

  -- From `promDatabaseRequestReconcileStatus` on
  unfoldable pub finish : Bool → Exec DatabaseRequest (Unit {0})
  finish has_changed = do
    o ← get_object
    emit (Call.set_gauge reconcile_status (prom_labels o "") 1)
    put_object (observe_generation o)
    attempt (update env)
        (λ e. do
          o' ← get_object
          emit (Call.inc_counter reconcile_error_counter (prom_labels o' "cr-update"))
          raise e)
        (λ _. set_ready has_changed)

  -- The service, then the secret
  unfoldable pub provide : Option DbInfo → Exec DatabaseRequest (Unit {0})
  provide db_info =
      attempt (handle_service env db_info) (λ e. handle_error env "handle-service" e false)
        λ service_changed.
          attempt (handle_secret env db_info) (λ e. handle_error env "handle-secret" e false)
            λ secret_changed. finish (service_changed || secret_changed)

  unfoldable pub seed_failed : Error → Exec DatabaseRequest (Unit {0})
  seed_failed e =
      if err_is_invalid_credentials e || err_is_database_does_not_exist e
      then handle_error env "invalid-seed" e true
      else handle_error env "handle-seed" e false

  unfoldable pub reconcile_seed : SecretReference → Exec DatabaseRequest (Unit {0})
  reconcile_seed seed =
      attempt (handle_seed env seed) seed_failed
        λ i. do o ← get_object; put_object (seeded i o); provide (some i.db_info)

  -- From the comparison with the observed reference on. The two references are compared as pointers,
  -- and the observed one is set to the other: either way they are equal after it.
  unfoldable pub reconcile_info : Exec DatabaseRequest (Unit {0})
  reconcile_info = do
    o ← get_object
    put_object (set_observed_reference o.spec.database_connection_reference o)
    if is_relational o.spec.type
        then attempt (rel_db_info env)
            (λ e. do
              o' ← get_object
              handle_error env ("get-" <> o'.spec.type <> "-database-info") e false)
            (λ i. provide (some i))
        else provide none

  unfoldable pub reconcile_created : Exec DatabaseRequest (Unit {0})
  reconcile_created = do
    o ← get_object
    if is_nil o.spec.database_connection_reference
        then attempt (create_database env) (λ e. handle_error env "create-database" e false)
            (λ _. do
              o' ← get_object
              if is_nil o'.spec.database_connection_reference
                  then handle_error env "missing-connection-reference"
                      (new_error "missing database connection reference") false
                  else reconcile_info)
        else reconcile_info

  abbrev pub by_seed : Option SecretReference → Exec DatabaseRequest (Unit {0})
  by_seed none = reconcile_created
  by_seed (some seed) = reconcile_seed seed

  -- The request has its finalizer.
  unfoldable pub reconcile_current : Exec DatabaseRequest (Unit {0})
  reconcile_current = do
    o ← get_object
    if is_up_to_date o
        then emit (Call.record_event "Normal" "ReconcileSkipped" "No updates to reconcile")
        else by_seed o.spec.seed

  -- The request is not being deleted.
  unfoldable pub reconcile_live : Exec DatabaseRequest (Unit {0})
  reconcile_live = do
    o ← get_object
    let (fs, added) = env.add_finalizer o.meta.finalizers database_request_finalizer
    put_object (set_finalizers fs o)
    if added
        then attempt (update env) (λ e. handle_error env "add-finalizer" e false)
            (λ _. reconcile_current)
        else reconcile_current

  unfoldable pub reconcile_fetched : Exec DatabaseRequest (Unit {0})
  reconcile_fetched = do
    o ← get_object
    if is_deleted o.meta.deletion_timestamp then delete_database env else reconcile_live

  -- The request cannot be read.
  unfoldable pub missed : NamespacedName → Error → Exec DatabaseRequest (Unit {0})
  missed key e =
      if is_not_found e
      then pure tt
      else do emit (Call.inc_counter reconcile_error_counter (get_failed_labels key)); raise e

  -- What runs under the lock
  unfoldable pub reconcile_locked : NamespacedName → Exec DatabaseRequest (Unit {0})
  reconcile_locked key =
      attempt (call (Call.get_request key) (λ h. env.get_request h key)) (missed key)
        (λ o. do put_object o; reconcile_fetched)

  unfoldable pub reconcile : NamespacedName → Exec DatabaseRequest (Unit {0})
  reconcile key = do
    emit (Call.inc_counter reconcile_counter (request_labels key))
    with_lock (lock_key key) (reconcile_locked key)
