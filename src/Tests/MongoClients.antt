-- ===== src/Tests/MongoClients.antt =====
-- The MongoDB client at concrete input.
use dbaas_controller.Prelude.{
  ◌≡◌, ◌≢◌, refl, ℕ, true, pos, [], ◌∷◌, none-is-not-some, false-is-not-true, String, ◌==◌,
}
use mathlib.Core.Path.{subst}
use dbaas_controller.Go.{ok}
use dbaas_controller.Api.{lookup}
use dbaas_controller.Cluster.{Run, attempt}
use dbaas_controller.Cluster.Triple.{After}
use dbaas_controller.Cluster.Order.{Follows}
use dbaas_controller.Cluster.Since.{Since}
use dbaas_controller.Database.Credentials.{Draws}
use dbaas_controller.Mongo.{MongoDbInfo, MongoDbClientOptions, client_options, same_options}
use dbaas_controller.Mongo.Driver.{MongoDbImpl, new_mongo_db_impl, find_client}
use dbaas_controller.Mongo.Client.{
  get_client, connect, cached_client, set_client, get_user, drop_all, drop_user_and_database,
  known_user, upsert_user, ensure_account, mongo_user_exists, create_user_and_database,
  version_text, version, has_users,
}
use dbaas_controller.Mongo.Users.{IsClientOf}
use dbaas_controller.Mongo.Growth.{Growing, HasUser}
use dbaas_controller.Mongo.Created.{
  create_user_and_database-HasUser, create_user_and_database_twice,
  create_user_and_database_then_get_user,
}
use dbaas_controller.Mongo.Drops.{IsDocumentDelete, DropDone}
use dbaas_controller.Mongo.Dropped.{drop_user_and_database-order}
use dbaas_controller.Mongo.Stuck.{IsStuck, drop_user_and_database-IsStuck}
use dbaas_controller.Tests.Documents.{
  Document, Store, find_in, has_account, toy, toy-IsCollection, toy-HasAccounts,
}

abbrev mop : MongoDbClientOptions
mop = record {
  name = "primary";
  hostname = "mongo";
  port = pos 27017;
  username = "root";
  password = "secret";
  mechanism = "SCRAM-SHA-256";
  source = "admin";
  tls = true;
}

abbrev draws : ℕ → Draws
draws n i = 7

abbrev info : MongoDbInfo
info = record { username = "shop"; password = "p4ss"; dbname = "project_shop" }

abbrev document : Document
document = record { name = "request"; namespace = "project"; info = info }

abbrev with_store : Store → Run (MongoDbImpl Store)
with_store t = record { object = new_mongo_db_impl t draws; history = [] }

-- The document is there, the account is not.
abbrev half : Run (MongoDbImpl Store)
half = with_store (record { documents = document ∷ []; accounts = [] })

abbrev whole : Run (MongoDbImpl Store)
whole = with_store (record { documents = document ∷ []; accounts = "shop" ∷ [] })

new-IsClientOf : (t : Store) → IsClientOf mop (new_mongo_db_impl t draws)
unfolding find_client
new-IsClientOf t c e = absurd (none-is-not-some e)

create_user_and_database-HasUser_example :
    After
      (HasUser toy mop find_in
        (toy-IsCollection (client_options mop))
        (find_in half.object.servers)
        "request"
        "project")
      (Growing toy mop find_in
        (toy-IsCollection (client_options mop))
        (find_in half.object.servers))
      (create_user_and_database toy mop "request" "project" half).0
      (create_user_and_database toy mop "request" "project" half).1
create_user_and_database-HasUser_example =
    create_user_and_database-HasUser toy mop find_in (toy-IsCollection (client_options mop))
      "request" "project" half (new-IsClientOf half.object.servers)

created : (create_user_and_database toy mop "request" "project" half).0 ≡ ok info
unfolding create_user_and_database get_client connect cached_client set_client known_user get_user
    upsert_user ensure_account mongo_user_exists attempt find_client lookup has_users same_options
created = refl

created_again :
    (create_user_and_database toy mop "request" "project"
      (create_user_and_database toy mop "request" "project" half).1).0
    ≡ ok info
unfolding create_user_and_database get_client connect cached_client set_client known_user get_user
    upsert_user ensure_account mongo_user_exists attempt find_client lookup has_users same_options
created_again = refl

create_user_and_database_twice_example : info ≡ info
create_user_and_database_twice_example =
    create_user_and_database_twice toy mop find_in (toy-IsCollection (client_options mop)) "request"
      "project" half info info (new-IsClientOf half.object.servers) created created_again

fetched :
    (get_user toy mop "request" "project"
      (create_user_and_database toy mop "request" "project" half).1).0
    ≡ ok info
unfolding create_user_and_database get_client connect cached_client set_client known_user get_user
    upsert_user ensure_account mongo_user_exists attempt find_client lookup has_users same_options
fetched = refl

create_user_and_database_then_get_user_example : info ≡ info
create_user_and_database_then_get_user_example =
    create_user_and_database_then_get_user toy mop find_in (toy-IsCollection (client_options mop))
      "request" "project" half info info (new-IsClientOf half.object.servers) created fetched

drop_user_and_database-order_example :
    Since
      (Follows IsDocumentDelete (DropDone toy "request" "project"))
      []
      (drop_user_and_database toy mop "request" "project" whole).1
drop_user_and_database-order_example =
    drop_user_and_database-order toy mop "request" "project" whole

dropped : (drop_user_and_database toy mop "request" "project" whole).0 ≡ ok tt
unfolding drop_user_and_database get_client connect cached_client set_client get_user drop_all
    attempt find_client same_options
dropped = refl

-- A client that has connected
abbrev connected : Run (MongoDbImpl Store)
connected = record { object = set_client mop (client_options mop) half.object; history = [] }

connected-IsStuck : IsStuck toy mop find_in has_account "request" "project" info connected
unfolding set_client find_client same_options
connected-IsStuck = record { cached = refl; document = refl; missing = refl }

own_database : info.dbname ≢ "dbaas_controller"
own_database e = false-is-not-true (subst (λ (x : String). ("project_shop" == x) ≡ true) e refl)

drop_user_and_database-IsStuck_example :
    After
      (λ _ _. ⊥)
      (IsStuck toy mop find_in has_account "request" "project" info)
      (drop_user_and_database toy mop "request" "project" connected).0
      (drop_user_and_database toy mop "request" "project" connected).1
drop_user_and_database-IsStuck_example =
    drop_user_and_database-IsStuck toy mop find_in has_account "request" "project" info
      (toy-HasAccounts mop) own_database connected connected-IsStuck

pinged : (version toy mop half).0 ≡ ok "7.0.5"
unfolding version get_client connect cached_client set_client version_text attempt find_client
    lookup
pinged = refl
