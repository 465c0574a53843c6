-- ===== src/Mongo/Mock.antt =====
-- internal/database/mongodb/mock.go: a client that accepts each call without a server.
use dbaas_controller.Prelude.{String}
use dbaas_controller.Go.{Result, ok}
use dbaas_controller.Mongo.{MongoDbInfo, MongoDbClientOptions}
use dbaas_controller.Main.Clients.{MongoDbInterface}

abbrev mongo_mock_info : MongoDbInfo
mongo_mock_info = record { username = "mock-user"; password = "mock-pw"; dbname = "mock-db" }

abbrev mongo_mock_get_user : MongoDbClientOptions → String → String → Result MongoDbInfo
mongo_mock_get_user mop name namespace = ok mongo_mock_info

abbrev mongo_mock_drop_user_and_database :
    MongoDbClientOptions → String → String → Result (Unit {0})
mongo_mock_drop_user_and_database mop name namespace = ok tt

abbrev mongo_mock_create_user_and_database :
    MongoDbClientOptions → String → String → Result MongoDbInfo
mongo_mock_create_user_and_database mop name namespace = ok mongo_mock_info

abbrev mongo_mock_version : MongoDbClientOptions → Result String
mongo_mock_version mop = ok "4.4.0"

abbrev mongo_mock_ping : MongoDbClientOptions → Result (Unit {0})
mongo_mock_ping mop = ok tt

abbrev pub mongo_db_mock : MongoDbInterface
mongo_db_mock = record { ping = λ h. mongo_mock_ping; version = λ h. mongo_mock_version }
