-- ===== src/Tests/Clients.antt =====
-- The database client at concrete input.
use dbaas_controller.Prelude.{◌≡◌, ◌≢◌, refl, List, [], ◌∷◌, ℕ, none-is-not-some}
use dbaas_controller.Go.{Error, mysql_error, ok, err}
use dbaas_controller.Api.{lookup}
use dbaas_controller.Cluster.{Env, Run, attempt}
use dbaas_controller.Cluster.Triple.{After}
use dbaas_controller.Cluster.Order.{Only}
use dbaas_controller.Request.Reconcile.{reconcile_seed}
use dbaas_controller.Database.{RelationalDatabaseInfo, mysql}
use dbaas_controller.Database.Credentials.{Draws}
use dbaas_controller.Database.Server.{
  Sql, World, get_connection, cached, open_connection, set_cache,
}
use dbaas_controller.Database.Monitor.{ping}
use dbaas_controller.Database.Users.{
  get_database_info, set_database_info, database_info_mysql, insert_user_mysql, find_user,
}
use dbaas_controller.Database.Operations.{Operation, new_client, perform, reached}
use dbaas_controller.Database.Cache.{IsCache, AtDsn}
use dbaas_controller.Database.Talk.{perform-AtDsn}
use dbaas_controller.Database.Registry.{Ensured, Same, my, IsFor}
use dbaas_controller.Database.Refines.{
  twice, set_then_get, get_database_info-refines, get_database_info_twice, set_database_info_keeps,
}
use dbaas_controller.Database.Refusals.{denied, reconcile_seed-Refusal}
use dbaas_controller.Database.Unsupported.{perform_unsupported}
use dbaas_controller.Tests.Sample.{request, start}
use dbaas_controller.Tests.Outcomes.{
  seeding, seed, seed_secret, seed_info, ok_is_not_panic, seed_is_valid,
}
use dbaas_controller.Tests.Servers.{Row, find, toy, toy-IsTable, toy-IsApart}
use dbaas_controller.Database.Databases.{create_mysql, create_database}
use dbaas_controller.Database.Created.{create_database-Ensured}

abbrev draws : ℕ → Draws
draws n i = 7

abbrev empty : Run (World (List Row))
empty = record { object = new_client [] draws; history = [] }

abbrev old : RelationalDatabaseInfo
old = record { username = "shop"; password = "p4ss"; dbname = "shop_db" }

abbrev other : RelationalDatabaseInfo
other = record { username = "user"; password = "word"; dbname = "other_db" }

abbrev row : Row
row = record { name = "request"; namespace = "project"; info = old }

abbrev full : Run (World (List Row))
full = record { object = new_client (row ∷ []) draws; history = [] }

perform-AtDsn_example :
    IsCache
      (perform toy Operation.ping "server" mysql (
        reached toy [] draws []
          (record { operation = Operation.initialize; dsn = "other"; type = mysql } ∷ []))).1.object
    × Only
        (AtDsn "server")
        (reached toy [] draws []
          (record { operation = Operation.initialize; dsn = "other"; type = mysql } ∷ [])).history
        (perform toy Operation.ping "server" mysql (
          reached toy [] draws []
            (record { operation = Operation.initialize; dsn = "other"; type = mysql } ∷ []))).1
perform-AtDsn_example =
    perform-AtDsn toy [] draws []
      (record { operation = Operation.initialize; dsn = "other"; type = mysql } ∷ []) Operation.ping
      "server" mysql

empty-IsFor : IsFor "server" mysql (new_client {S = List Row} [] draws)
unfolding lookup
empty-IsFor h e = absurd (none-is-not-some e)

full-IsFor : IsFor "server" mysql (new_client (row ∷ []) draws)
unfolding lookup
full-IsFor h e = absurd (none-is-not-some e)

get_database_info-refines_example :
    After
      (λ i t. Ensured (find []) "request" "project" i (find t.object.servers))
      (λ t. Same (find []) (find t.object.servers))
      (get_database_info toy "server" "request" "project" mysql empty).0
      (get_database_info toy "server" "request" "project" mysql empty).1
get_database_info-refines_example =
    get_database_info-refines toy "server" my find toy-IsTable "request" "project" empty empty-IsFor

two_calls :
    (twice (get_database_info toy "server" "request" "project" mysql) full).0 ≡ ok (old, old)
unfolding get_database_info database_info_mysql find_user get_connection cached open_connection
    set_cache lookup attempt
two_calls = refl

get_database_info_twice_example : old ≡ old
get_database_info_twice_example =
    get_database_info_twice toy "server" my find toy-IsTable "request" "project" full old old
      full-IsFor two_calls

set_and_get : (set_then_get toy "server" "request" "project" mysql other full).0 ≡ ok old
unfolding get_database_info database_info_mysql set_database_info insert_user_mysql find_user
    get_connection cached open_connection set_cache lookup attempt
set_and_get = refl

set_database_info_keeps_example : old ≡ old
set_database_info_keeps_example =
    set_database_info_keeps toy "server" my find toy-IsTable "request" "project" old other old full
      full-IsFor refl set_and_get

perform_unsupported_example :
    (perform toy (Operation.drop_database "request" "project") "server" "mariadb" full).0 ≢ ok tt
perform_unsupported_example =
    perform_unsupported toy "server" "mariadb" refl refl
      (Operation.drop_database "request" "project") full refl

abbrev access_denied : Error
access_denied = record { message = "Error 1045: Access denied"; kind = mysql_error 1045 }

abbrev denying : Sql (List Row)
denying = record toy { ping = λ h rows. (rows, err access_denied) }

-- The cluster whose database client works with these servers
abbrev client_env : Env
client_env = record seeding {
  get_secret = λ h k. ok seed_secret;
  ping = λ h dsn type. (ping denying dsn type empty).0;
}

reconcile_seed-Refusal_example :
    (reconcile_seed client_env seed (start (request "mysql"))).0 ≡ ok tt
reconcile_seed-Refusal_example =
    reconcile_seed-Refusal denying (λ type dsn. refl) access_denied (λ h t. refl) client_env
      (λ g o. ok_is_not_panic) (λ g. empty) (λ g dsn type. refl) seed seed_secret seed_info
      (start (request "mysql")) (λ g. refl) seed_is_valid denied

created : (create_database toy "server" "request" "project" mysql "root" full).0 ≡ ok old
unfolding create_database create_mysql get_connection cached open_connection set_cache
    database_info_mysql find_user attempt lookup
created = refl

create_database-Ensured_example :
    Ensured
      (find full.object.servers)
      "request"
      "project"
      old
      (find (create_database toy "server" "request" "project" mysql "root" full).1.object.servers)
create_database-Ensured_example =
    create_database-Ensured toy "server" find "request" "project" my toy-IsTable "root" full old
      toy-IsApart full-IsFor created
