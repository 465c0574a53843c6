-- ===== src/Request/Resources.antt =====
-- `handleSeed`, `handleService` and `handleSecret`.
use dbaas_controller.Prelude.{
  String, ◌<>◌, ◌==◌, Bool, true, false, Option, none, some, [], ◌∷◌, pos, if◌then◌else◌,
}
use dbaas_controller.Go.{wrap, is_not_found}
use dbaas_controller.Api.{
  Dict, NamespacedName, SecretReference, ObjectMeta, DatabaseRequest, Secret, Service,
}
use dbaas_controller.Cluster.{
  Call, Env, Exec, pure, raise, crash, call, emit, get_object, attempt, wrapping, ◌>>=◌, ◌>>◌,
}
use dbaas_controller.Conn.{get_dsn}
use dbaas_controller.Database.{RelationalDatabaseInfo}
use dbaas_controller.Request.Info.{DbInfo, get_secret_data}
use dbaas_controller.Request.Providers.{
  SeedDatabaseInfo, secret_key, relational_database_info_from_seed,
}

-- The metadata of an object that the controller creates
abbrev pub new_meta : String → String → Dict String → ObjectMeta
new_meta name namespace labels = record {
  kind = "";
  name = name;
  namespace = namespace;
  uid = "";
  resource_version = "";
  generation = pos 0;
  deletion_timestamp = none;
  finalizers = [];
  labels = labels;
}

abbrev pub service_key : DatabaseRequest → NamespacedName
service_key o = record { name = o.spec.name; namespace = o.meta.namespace }

abbrev pub own_secret_key : DatabaseRequest → NamespacedName
own_secret_key o = record { name = o.meta.name; namespace = o.meta.namespace }

abbrev pub new_service : DatabaseRequest → DbInfo → Service
new_service o i = record {
  meta =
      new_meta o.spec.name o.meta.namespace
        (("dbaas.lagoon.sh/service", "true") ∷ ("app.kubernetes.io/instance", o.meta.name) ∷ []);
  type = "ExternalName";
  external_name = i.host_name;
}

abbrev pub secret_content : DatabaseRequest → DbInfo → Dict String
secret_content o i = get_secret_data i o.spec.name o.spec.name

abbrev pub new_secret : DatabaseRequest → DbInfo → Secret
new_secret o i = record {
  meta =
      new_meta o.meta.name o.meta.namespace
        (("dbaas.lagoon.sh/secret", "true") ∷ ("app.kubernetes.io/instance", o.meta.name) ∷ []);
  content = secret_content o i;
}

abbrev pub relational_info : DbInfo → RelationalDatabaseInfo
relational_info i = record { username = i.user_name; password = i.password; dbname = i.database }

-- A read through a `*dbInfo`, which may be nil
unfoldable pub deref : Option DbInfo → Exec DatabaseRequest DbInfo
deref none = crash
deref (some i) = pure i

module _ (env : Env) where
  unfoldable pub handle_seed : SecretReference → Exec DatabaseRequest SeedDatabaseInfo
  handle_seed seed = do
    o ← get_object
    seed_info ← relational_database_info_from_seed env seed o.spec.type o.spec.selector
    let dsn = get_dsn seed_info.conn false
    let i = relational_info seed_info.db_info
    call (Call.set_database_info dsn o.meta.name o.meta.namespace o.spec.type i)
        (λ h. env.set_database_info h dsn o.meta.name o.meta.namespace o.spec.type i)
    call (Call.delete_secret (secret_key seed)) (λ h. env.delete_secret h (secret_key seed))
    pure seed_info

  unfoldable pub create_service : Option DbInfo → DatabaseRequest → Exec DatabaseRequest Bool
  create_service db_info o = do
    emit (Call.record_event "Normal" "CreateService" "Creating service")
    i ← deref db_info
    wrapping ("failed to create service " <> o.spec.name <> ": ")
        (call (Call.create_service (new_service o i)) (λ h. env.create_service h (new_service o i)))
    pure false

  unfoldable pub adjust_service :
      Option DbInfo → DatabaseRequest → Service → Exec DatabaseRequest Bool
  adjust_service db_info o service = do
    i ← deref db_info
    if service.external_name == i.host_name then pure false else do
      emit (Call.record_event "Normal" "UpdateService" "Updating service")
      let service' = record service { external_name = i.host_name }
      wrapping ("failed to update service " <> o.spec.name <> ": ")
          (call (Call.update_service service') (λ h. env.update_service h service'))
      pure true

  unfoldable pub handle_service : Option DbInfo → Exec DatabaseRequest Bool
  handle_service db_info = do
    o ← get_object
    attempt (call (Call.get_service (service_key o)) (λ h. env.get_service h (service_key o)))
        (λ e.
          if is_not_found e
          then create_service db_info o
          else raise (wrap ("failed to get service " <> o.spec.name <> ": ") e))
        (adjust_service db_info o)

  unfoldable pub create_secret : Option DbInfo → DatabaseRequest → Exec DatabaseRequest Bool
  create_secret db_info o = do
    emit (Call.record_event "Normal" "CreateSecret" "Creating secret")
    i ← deref db_info
    wrapping ("failed to create secret " <> o.meta.name <> ": ")
        (call (Call.create_secret (new_secret o i)) (λ h. env.create_secret h (new_secret o i)))
    pure false

  unfoldable pub adjust_secret :
      Option DbInfo → DatabaseRequest → Secret → Exec DatabaseRequest Bool
  adjust_secret db_info o secret = do
    i ← deref db_info
    if env.diff secret.content (secret_content o i) == "" then pure false else do
      emit (Call.record_event "Normal" "UpdateSecret" "Updating secret")
      let secret' = record secret { content = secret_content o i }
      wrapping ("failed to update secret " <> o.meta.name <> ", ")
          (call (Call.update_secret secret') (λ h. env.update_secret h secret'))
      pure true

  unfoldable pub handle_secret : Option DbInfo → Exec DatabaseRequest Bool
  handle_secret db_info = do
    o ← get_object
    attempt (call (Call.get_secret (own_secret_key o)) (λ h. env.get_secret h (own_secret_key o)))
        (λ e.
          if is_not_found e
          then create_secret db_info o
          else raise (wrap ("failed to get secret " <> o.meta.name <> ": ") e))
        (adjust_secret db_info o)
