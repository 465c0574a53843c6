-- ===== src/Provider/Reconcile.antt =====
-- `Reconcile` of the relational providers.
use dbaas_controller.Prelude.{
  String, ◌<>◌, ◌&&◌, Bool, not, List, [], ◌∷◌, if◌then◌else◌, int_le, nat_eq, length,
}
use dbaas_controller.Go.{Error, new_error, is_not_found}
use dbaas_controller.Api.{NamespacedName, Condition, RelationalDatabaseProvider}
use dbaas_controller.Cluster.{
  Call, Env, Exec, pure, raise, call, emit, get_object, put_object, attempt, ◌>>=◌, ◌>>◌,
}
use dbaas_controller.Conn.{ReldbConn}
use dbaas_controller.Request.Reconcile.{is_deleted, has_conditions}
use dbaas_controller.Provider.Faults.{
  database_provider_finalizer, provider_error_counter, provider_status, provider_labels,
  error_labels, set_provider_conditions, update_provider, update_provider_status, handle_error,
}
use dbaas_controller.Provider.Connections.{Checks, no_checks, read_connections, check_all}

-- `%v` of a slice of errors
abbrev spaced : List Error → String
spaced [] = ""
spaced (e ∷ es) = let rest = spaced es in " " <> e.message <> rest

unfoldable pub show_errors : List Error → String
show_errors [] = "[]"
show_errors (e ∷ es) = "[" <> e.message <> spaced es <> "]"

unfoldable pub set_provider_finalizers :
    List String → RelationalDatabaseProvider → RelationalDatabaseProvider
set_provider_finalizers fs o = record o { meta = record o.meta { finalizers = fs } }

-- The provider with the statuses of its connections
unfoldable pub observe : Checks → RelationalDatabaseProvider → RelationalDatabaseProvider
observe k o = record o {
  status = record o.status {
    connection_status = k.statuses;
    observed_generation = o.meta.generation;
  };
}

abbrev pub reconciled : Condition
reconciled = record {
  type = "Ready";
  status = "True";
  reason = "Reconciled";
  message = "RelationalDatabaseProvider reconciled";
}

module _ (env : Env) where
  unfoldable pub is_reconciled : RelationalDatabaseProvider → Bool
  is_reconciled o =
      (has_conditions o.status.conditions
        && env.is_status_condition_true o.status.conditions "Ready")
      && int_le o.meta.generation o.status.observed_generation

  module _ (key : NamespacedName) where
    -- From the Ready condition on
    unfoldable pub set_reconciled : Exec RelationalDatabaseProvider (Unit {0})
    set_reconciled = do
      o ← get_object
      put_object
          (set_provider_conditions (env.set_status_condition o.status.conditions reconciled).0 o)
      attempt (update_provider_status env)
          (λ e. do
            o' ← get_object
            emit (
                Call.inc_counter provider_error_counter
                  (error_labels o'.spec.type key.name o'.spec.selector "update-status"))
            emit (
                Call.set_gauge provider_status
                  (provider_labels o'.spec.type key.name o'.spec.selector) 0)
            raise e)
          pure
      emit (Call.record_event "Normal" "Reconciled" "RelationalDatabaseProvider reconciled")
      o' ← get_object
      emit (
          Call.set_gauge provider_status (provider_labels o'.spec.type key.name o'.spec.selector) 1)

    -- After the second loop
    unfoldable pub conclude : List ReldbConn → Checks → Exec RelationalDatabaseProvider (Unit {0})
    conclude conns k = do
      o ← get_object
      put_object (observe k o)
      if nat_eq (length k.errors) (length conns)
          then handle_error env (o.spec.type <> "-connection-error") (
              new_error (
                "failed to connect to any of the "
                <> o.spec.type
                <> " databases: "
                <> show_errors k.errors))
          else if not k.found_enabled
          then handle_error env (o.spec.type <> "-connection-not-any-enabled")
              (new_error ("no enabled working " <> o.spec.type <> " database found"))
          else set_reconciled

    -- From the first loop on
    unfoldable pub reconcile_connections : Exec RelationalDatabaseProvider (Unit {0})
    reconcile_connections = do
      o ← get_object
      (names, conns) ← read_connections env o o.spec.connections [] []
      if not (nat_eq (length names) (length o.spec.connections))
          then handle_error env (o.spec.type <> "-unique-name-error")
              (new_error (o.spec.type <> " database connections must have unique names"))
          else (do k ← check_all env o key.name conns no_checks; conclude conns k)

    -- The provider is not being deleted.
    unfoldable pub reconcile_provider : Exec RelationalDatabaseProvider (Unit {0})
    reconcile_provider = do
      o ← get_object
      if is_reconciled o
          then emit (Call.record_event "Normal" "ReconcileSkipped" "No updates to reconcile")
          else (let (fs, added) = env.add_finalizer o.meta.finalizers database_provider_finalizer in
              do
                put_object (set_provider_finalizers fs o)
                if added
                    then attempt (update_provider env) (λ e. handle_error env "add-finalizer" e)
                        (λ _. reconcile_connections)
                    else reconcile_connections)

  unfoldable pub release_provider : Exec RelationalDatabaseProvider (Unit {0})
  release_provider = do
    o ← get_object
    let (fs, removed) = env.remove_finalizer o.meta.finalizers database_provider_finalizer
    put_object (set_provider_finalizers fs o)
    if removed
        then attempt (update_provider env) (λ e. handle_error env "remove-finalizer" e) pure
        else pure tt

  unfoldable pub reconcile : NamespacedName → Exec RelationalDatabaseProvider (Unit {0})
  reconcile key =
      attempt (call (Call.get_provider key) (λ h. env.get_provider h key))
        (λ e. if is_not_found e then pure tt else do
          emit (
              Call.inc_counter provider_error_counter
                (error_labels "" key.name "" "get-relationaldbprovider"))
          raise e)
        (λ o. do
          put_object o
          if is_deleted o.meta.deletion_timestamp then release_provider else reconcile_provider key)
