-- ===== src/MongoProvider/Reconcile.antt =====
-- `Reconcile` of the MongoDB providers.
use dbaas_controller.Prelude.{
  String, ◌<>◌, Bool, ◌&&◌, not, List, [], length, nat_eq, int_le, if◌then◌else◌,
}
use dbaas_controller.Go.{new_error, is_not_found}
use dbaas_controller.Api.{NamespacedName, Condition, MongoDbProvider}
use dbaas_controller.Cluster.{
  Call, Exec, pure, raise, call, get_object, put_object, emit, attempt, ◌>>=◌, ◌>>◌,
}
use dbaas_controller.Request.Reconcile.{is_deleted, has_conditions}
use dbaas_controller.Provider.Connections.{Checks, no_checks}
use dbaas_controller.MongoProvider.Faults.{
  MongoEnv, mongodb_provider_finalizer, mongodb_error_counter, mongodb_status, mongodb_labels,
  mongodb_error_labels, set_mongodb_conditions, update_mongodb_status, update_mongodb_provider,
  handle_error,
}
use dbaas_controller.MongoProvider.Connections.{
  MongoDbConn, read_mongodb_connections, check_all_mongodb,
}

unfoldable pub set_mongodb_finalizers : List String → MongoDbProvider → MongoDbProvider
set_mongodb_finalizers fs o = record o { meta = record o.meta { finalizers = fs } }

-- The provider with the statuses of its connections
unfoldable pub observe_mongodb : Checks → MongoDbProvider → MongoDbProvider
observe_mongodb k o = record o {
  status = record o.status {
    connection_status = k.statuses;
    observed_generation = o.meta.generation;
  };
}

abbrev pub mongodb_reconciled : Condition
mongodb_reconciled = record {
  type = "Ready";
  status = "True";
  reason = "Reconciled";
  message = "MongoDBProvider reconciled";
}

module _ (env : MongoEnv) where
  unfoldable pub is_mongodb_reconciled : MongoDbProvider → Bool
  is_mongodb_reconciled o =
      (has_conditions o.status.conditions
        && env.cluster.is_status_condition_true o.status.conditions "Ready")
      && int_le o.meta.generation o.status.observed_generation

  module _ (key : NamespacedName) where
    -- From the Ready condition on
    unfoldable pub set_mongodb_reconciled : Exec MongoDbProvider (Unit {0})
    set_mongodb_reconciled = do
      o ← get_object
      put_object (
          set_mongodb_conditions
            (env.cluster.set_status_condition o.status.conditions mongodb_reconciled).0 o)
      attempt (update_mongodb_status env)
          (λ e. do
            o' ← get_object
            emit (
                Call.inc_counter mongodb_error_counter
                  (mongodb_error_labels key.name o'.spec.selector "update-status"))
            emit (Call.set_gauge mongodb_status (mongodb_labels key.name o'.spec.selector) 0)
            raise e)
          pure
      emit (Call.record_event "Normal" "Reconciled" "MongoDBProvider reconciled")
      o' ← get_object
      emit (Call.set_gauge mongodb_status (mongodb_labels key.name o'.spec.selector) 1)

    -- After the second loop
    unfoldable pub conclude_mongodb : List MongoDbConn → Checks → Exec MongoDbProvider (Unit {0})
    conclude_mongodb conns k = do
      o ← get_object
      put_object (observe_mongodb k o)
      if nat_eq (length k.errors) (length conns)
          then handle_error env "all-connections-error"
              (new_error ("all connections failed for MongoDBProvider " <> o.meta.name))
          else if not k.found_enabled
          then handle_error env "no-enabled-database"
              (new_error ("no enabled database found for MongoDBProvider " <> o.meta.name))
          else set_mongodb_reconciled

    -- From the first loop on
    unfoldable pub reconcile_mongodb_connections : Exec MongoDbProvider (Unit {0})
    reconcile_mongodb_connections = do
      o ← get_object
      (names, conns) ← read_mongodb_connections env o o.spec.connections [] []
      if not (nat_eq (length names) (length o.spec.connections))
          then handle_error env "dunique-name-error"
              (new_error ("connection names are not unique for MongoDBProvider " <> o.meta.name))
          else (do k ← check_all_mongodb env o conns no_checks; conclude_mongodb conns k)

    -- The provider is not being deleted.
    unfoldable pub reconcile_mongodb_provider : Exec MongoDbProvider (Unit {0})
    reconcile_mongodb_provider = do
      o ← get_object
      if is_mongodb_reconciled o
          then emit (Call.record_event "Normal" "ReconcileSkipped" "No updates to reconcile")
          else if not (env.contains_finalizer o.meta.finalizers mongodb_provider_finalizer)
          then (do
            put_object (
                set_mongodb_finalizers
                  (env.cluster.add_finalizer o.meta.finalizers mongodb_provider_finalizer).0 o)
            attempt (update_mongodb_provider env) (λ e. handle_error env "add-finalizer" e)
                (λ _. reconcile_mongodb_connections))
          else reconcile_mongodb_connections

  unfoldable pub release_mongodb_provider : Exec MongoDbProvider (Unit {0})
  release_mongodb_provider = do
    o ← get_object
    let (fs, removed) = env.cluster.remove_finalizer o.meta.finalizers mongodb_provider_finalizer
    put_object (set_mongodb_finalizers fs o)
    if removed
        then attempt (update_mongodb_provider env) (λ e. handle_error env "remove-finalizer" e) pure
        else pure tt

  unfoldable pub reconcile : NamespacedName → Exec MongoDbProvider (Unit {0})
  reconcile key =
      attempt (call (Call.get_mongodb_provider key) (λ h. env.get_provider h key))
        (λ e. if is_not_found e then pure tt else do
          emit (
              Call.inc_counter mongodb_error_counter
                (mongodb_error_labels key.name "" "get-mongodbprovider"))
          raise e)
        (λ o. do
          put_object o
          if is_deleted o.meta.deletion_timestamp
              then release_mongodb_provider
              else reconcile_mongodb_provider key)
