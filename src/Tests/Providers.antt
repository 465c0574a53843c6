-- ===== src/Tests/Providers.antt =====
-- Runs of the reconciler of the providers, and its theorems at concrete input.
use dbaas_controller.Prelude.{◌≡◌, refl, []}
use dbaas_controller.Go.{ok}
use dbaas_controller.Api.{NamespacedName, RelationalDatabaseProvider}
use dbaas_controller.Cluster.{Run, attempt}
use dbaas_controller.Cluster.Since.{Since}
use dbaas_controller.Prelude.{List, ◌∷◌, true}
use dbaas_controller.Conn.{ReldbConn, get_dsn}
use dbaas_controller.Provider.Connections.{Checks, no_checks, full_conn, available}
use dbaas_controller.Provider.Statuses.{IsReport, conn_names, check_all-IsReport}
use dbaas_controller.Request.Providers.{password_of}
use dbaas_controller.Provider.Connections.{
  read_connections, add_name, has_name, check_all, check, add_success,
}
use dbaas_controller.Provider.Reconcile.{reconcile_connections, conclude, set_reconciled}
use dbaas_controller.Provider.Checked.{Works}
use dbaas_controller.Provider.Names.{connection_name, Distinct}
use dbaas_controller.Provider.Ready.{reconcile_connections-Works}
use dbaas_controller.Tests.Sample.{connection, provider, request, cluster}

abbrev key : NamespacedName
key = record { name = "provider"; namespace = "" }

abbrev begin : Run RelationalDatabaseProvider
begin = record { object = provider; history = [] }

provider_works : (reconcile_connections (cluster (request "mysql")) key begin).0 ≡ ok tt
unfolding reconcile_connections read_connections add_name has_name check_all check add_success
    conclude set_reconciled attempt password_of get_dsn
provider_works = refl

reconcile_connections-Works_example :
    Distinct connection_name provider.spec.connections
    × Since (Works provider) [] (reconcile_connections (cluster (request "mysql")) key begin).1
reconcile_connections-Works_example =
    reconcile_connections-Works (cluster (request "mysql")) key begin provider_works

abbrev conns : List ReldbConn
conns =
    full_conn "mysql" (connection "first" "db1") "secret"
    ∷ full_conn "mysql" (connection "second" "db2") "secret"
    ∷ []

abbrev checks : Checks
checks = record {
  statuses =
      available (full_conn "mysql" (connection "first" "db1") "secret") "8.0"
      ∷ available (full_conn "mysql" (connection "second" "db2") "secret") "8.0"
      ∷ [];
  errors = [];
  found_enabled = true;
}

conns_checked :
    (check_all (cluster (request "mysql")) provider "provider" conns no_checks begin).0 ≡ ok checks
unfolding check_all check add_success attempt get_dsn
conns_checked = refl

check_all-IsReport_example : IsReport (conn_names conns) checks
check_all-IsReport_example =
    check_all-IsReport (cluster (request "mysql")) provider "provider" conns begin checks
      conns_checked
