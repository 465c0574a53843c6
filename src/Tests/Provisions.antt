-- ===== src/Tests/Provisions.antt =====
-- A request that is provided with a database.
use dbaas_controller.Prelude.{◌⊎◌, ◌≡◌, refl, true, []}
use dbaas_controller.Go.{ok}
use dbaas_controller.Cluster.{attempt}
use dbaas_controller.Cluster.Since.{Since}
use dbaas_controller.Conn.{get_dsn}
use dbaas_controller.Request.Providers.{
  password_of, matches, connection_password, probe, probe_connections, probe_providers,
  found_provider, find_relational_database_provider,
}
use dbaas_controller.Request.Operation.{
  find_connection, set_reference, set_observed_reference, set_database_info, operation_status,
  referenced_provider, provider_for, connection_for, create_case, info_case,
  relational_database_operation, require_some, create_relational, create_database, rel_db_info,
}
use dbaas_controller.Request.Resources.{
  deref, create_service, handle_service, create_secret, handle_secret,
}
use dbaas_controller.Request.Reconcile.{
  is_up_to_date, reconcile_current, set_conditions, observe_generation, set_ready, finish, provide,
  reconcile_info, reconcile_created,
}
use dbaas_controller.Request.Skips.{IsSkipped, reconcile_current_skips}
use dbaas_controller.Request.Provision.{IsProvided, reconcile_created-IsProvided}
use dbaas_controller.Prelude.{String, some, pos}
use dbaas_controller.Prelude.Texts.{dashes_to_underscores, to_upper, itoa}
use dbaas_controller.Api.{Dict, lookup}
use dbaas_controller.Request.Info.{DbInfo, get_secret_data}
use dbaas_controller.Request.SecretData.{lookup-get_secret_data}
use dbaas_controller.Tests.Sample.{cluster-KeepsNames, request, deleted, cluster, start}
use dbaas_controller.Request.Operation.{rel_db_deletion, drop_case, forget_reference}
use dbaas_controller.Request.Deletion.{
  drops, set_finalizers, delete_service, delete_secret, remove_finalizer, report_deleted,
  delete_resources, delete_database,
}
use dbaas_controller.Request.DeletionOrder.{Cleared, DroppedIf}
use dbaas_controller.Request.DeletionDone.{delete_database-Cleared}

provided : (reconcile_created (cluster (request "mysql")) (start (request "mysql"))).0 ≡ ok tt
unfolding reconcile_created create_database create_relational relational_database_operation
    provider_for find_relational_database_provider probe_providers probe_connections probe
    connection_password found_provider matches password_of get_dsn connection_for find_connection
    create_case set_database_info set_observed_reference operation_status set_reference require_some
    reconcile_info rel_db_info referenced_provider info_case provide handle_service create_service
    deref handle_secret create_secret finish observe_generation set_ready set_conditions attempt
provided = refl

unseeded_provided :
    (reconcile_current (cluster (request "mysql")) (start (request "mysql"))).0 ≡ ok tt
unfolding reconcile_current is_up_to_date reconcile_created create_database create_relational
    relational_database_operation provider_for find_relational_database_provider probe_providers
    probe_connections probe connection_password found_provider matches password_of get_dsn
    connection_for find_connection create_case set_database_info set_observed_reference
    operation_status set_reference require_some reconcile_info rel_db_info referenced_provider
    info_case provide handle_service create_service deref handle_secret create_secret finish
    observe_generation set_ready set_conditions attempt
unseeded_provided = refl

reconcile_current_skips_example :
    IsSkipped
      (cluster (request "mysql"))
      (cluster-KeepsNames (request "mysql"))
      (start (request "mysql"))
      (reconcile_current (cluster (request "mysql")) (start (request "mysql"))).1
    ⊎ Since
        (IsProvided (request "mysql") true)
        []
        (reconcile_current (cluster (request "mysql")) (start (request "mysql"))).1
reconcile_current_skips_example =
    reconcile_current_skips (cluster (request "mysql")) (cluster-KeepsNames (request "mysql"))
      (start (request "mysql")) refl unseeded_provided

reconcile_created-IsProvided_example :
    Since
      (IsProvided (request "mysql") true)
      []
      (reconcile_created (cluster (request "mysql")) (start (request "mysql"))).1
reconcile_created-IsProvided_example =
    reconcile_created-IsProvided (cluster (request "mysql")) (cluster-KeepsNames (request "mysql"))
      (start (request "mysql")) provided

-- The deletion of the request
deleted_done : (delete_database (cluster (deleted "mysql")) (start (deleted "mysql"))).0 ≡ ok tt
unfolding delete_database delete_resources delete_service delete_secret remove_finalizer
    report_deleted rel_db_deletion relational_database_operation provider_for referenced_provider
    connection_for find_connection connection_password password_of get_dsn drop_case
    forget_reference set_observed_reference set_reference operation_status require_some drops
    set_finalizers attempt
deleted_done = refl

delete_database-Cleared_example :
    Since
      (Cleared (deleted "mysql") (DroppedIf (deleted "mysql") true))
      []
      (delete_database (cluster (deleted "mysql")) (start (deleted "mysql"))).1
unfolding drops
delete_database-Cleared_example =
    delete_database-Cleared (cluster (deleted "mysql")) (cluster-KeepsNames (deleted "mysql"))
      (start (deleted "mysql")) deleted_done

abbrev db_info : DbInfo
db_info = record {
  database = "shop_db";
  host_name = "db1";
  user_name = "shop";
  password = "p4ss";
  port = pos 3306;
}

lookup-get_secret_data_example :
    let entries : Dict String = get_secret_data db_info "mariadb-0" "mariadb-0" in
    (lookup "MARIADB_0_USERNAME" entries ≡ some "shop")
    × (lookup "MARIADB_0_PASSWORD" entries ≡ some "p4ss")
    × (lookup "MARIADB_0_DATABASE" entries ≡ some "shop_db")
    × (lookup "MARIADB_0_HOST" entries ≡ some "mariadb-0")
    × (lookup "MARIADB_0_PORT" entries ≡ some (itoa (pos 3306)))
unfolding dashes_to_underscores to_upper
lookup-get_secret_data_example = lookup-get_secret_data db_info "mariadb-0" "mariadb-0"
