-- ===== src/Mongo/Client.antt =====
-- The operations of the client: `GetClient`, `GetUser`, `DropUserAndDatabase`, `CreateUserAndDatabase`,
-- `Version`, `Ping` and `mongoUserExists` of internal/database/mongodb/mongodb.go.
use dbaas_controller.Prelude.{
  String, ◌<>◌, Bool, false, [], ◌∷◌, Option, none, some, nat_eq, not, if◌then◌else◌,
}
use dbaas_controller.Go.{new_error, wrap}
use dbaas_controller.Api.{lookup}
use dbaas_controller.Cluster.{
  Call, Exec, pure, raise, call, get_object, put_object, attempt, ◌>>=◌, ◌>>◌, wrapping,
}
use dbaas_controller.Mongo.{
  MongoDbInfo, MongoDbClientOptions, ClientOptions, client_options, Collection, Command, Value,
  text, array, DriverCall,
}
use dbaas_controller.Mongo.Driver.{
  Driver, MongoDbImpl, find_client, is_no_documents, fresh_user, serve, run_command, drop_user_db,
  find_one, insert_init, find_one_and_update, delete_one,
}

abbrev pub users : ClientOptions → Collection
users client = record { client = client; database = "dbaas_controller"; name = "users" }

-- `result["version"].(string)`
unfoldable pub version_text : Option Value → Option String
version_text (some (text v)) = some v
version_text _ = none

-- `users, ok := result["users"].(primitive.A)`, and then `ok && len(users) != 0`
unfoldable pub has_users : Option Value → Bool
has_users (some (array n)) = not (nat_eq n 0)
has_users _ = false

module _ {S : Type 0} where
  unfoldable pub set_client : MongoDbClientOptions → ClientOptions → MongoDbImpl S → MongoDbImpl S
  set_client mop client w = record w { connection_cache = (mop, client) ∷ w.connection_cache }

module _ {S : Type 0} (driver : Driver S) where
  unfoldable pub connect : MongoDbClientOptions → Exec (MongoDbImpl S) ClientOptions
  connect mop = do
    let client = client_options mop
    wrapping "failed to connect to MongoDB: "
        (call (Call.mongo client DriverCall.connect) (λ h. driver.connect client))
    w ← get_object
    put_object (set_client mop client w)
    pure client

  unfoldable pub cached_client :
      Option ClientOptions → MongoDbClientOptions → Exec (MongoDbImpl S) ClientOptions
  cached_client none mop = connect mop
  cached_client (some client) mop = pure client

  unfoldable pub get_client : MongoDbClientOptions → Exec (MongoDbImpl S) ClientOptions
  unfolding find_client
  get_client mop = do w ← get_object; cached_client (find_client mop w.connection_cache) mop

  unfoldable pub get_user :
      MongoDbClientOptions → String → String → Exec (MongoDbImpl S) MongoDbInfo
  get_user mop name namespace = do
    client ← wrapping "failed to get MongoDB User: " (get_client mop)
    attempt (find_one driver (users client) (record { name = name; namespace = namespace }))
        (λ e.
          if is_no_documents e
          then raise
              (wrap ("user " <> name <> " in namespace " <> namespace <> " does not exist, ") e)
          else raise (wrap "failed to retrieve user: " e))
        pure

  -- From the drop of the user's database on
  unfoldable pub drop_all :
      ClientOptions → MongoDbInfo → String → String → Exec (MongoDbImpl S) (Unit {0})
  drop_all client user_info name namespace = do
    wrapping ("failed to drop user database " <> user_info.dbname <> ": ")
        (drop_user_db driver client user_info.dbname)
    wrapping ("failed to drop MongoDB user " <> user_info.username <> ": ")
        (run_command driver client "admin" (Command.drop_user user_info.username))
    deleted_count ←
        wrapping "failed to delete user document: "
          (delete_one driver (users client) (record { name = name; namespace = namespace }))
    if nat_eq deleted_count 0
        then raise (
            new_error
              ("no user document found with name " <> name <> " in namespace " <> namespace))
        else pure tt

  unfoldable pub drop_user_and_database :
      MongoDbClientOptions → String → String → Exec (MongoDbImpl S) (Unit {0})
  drop_user_and_database mop name namespace = do
    client ← wrapping "failed to drop user and database: " (get_client mop)
    attempt (get_user mop name namespace)
        (λ e.
          if is_no_documents e then pure tt else raise (wrap "failed to retrieve user info: " e))
        (λ user_info. drop_all client user_info name namespace)

  unfoldable pub mongo_user_exists : ClientOptions → String → Exec (MongoDbImpl S) Bool
  unfolding lookup
  mongo_user_exists client username = do
    result ←
        wrapping "failed to run usersInfo command: "
          (run_command driver client "admin" (Command.users_info username "admin"))
    pure (has_users (lookup "users" result))

  -- The user's credentials, or new ones
  unfoldable pub known_user :
      MongoDbClientOptions → String → String → Exec (MongoDbImpl S) MongoDbInfo
  known_user mop name namespace =
      attempt (get_user mop name namespace)
        (λ e.
          if is_no_documents e
          then fresh_user namespace
          else raise (wrap "failed to get user info: " e))
        pure

  -- The document of the user, found or inserted; without one before, `userInfo` stays as it is.
  unfoldable pub upsert_user :
      ClientOptions → MongoDbInfo → String → String → Exec (MongoDbImpl S) MongoDbInfo
  upsert_user client user_info name namespace =
      attempt
        (find_one_and_update driver (users client) (record { name = name; namespace = namespace })
          user_info)
        (λ e.
          if is_no_documents e
          then pure user_info
          else raise (wrap "failed to create or update user document: " e))
        pure

  -- The account of the user, if it is missing
  unfoldable pub ensure_account : ClientOptions → MongoDbInfo → Exec (MongoDbImpl S) MongoDbInfo
  ensure_account client user_info = do
    user_exists ←
        wrapping "failed to check if user exists: " (mongo_user_exists client user_info.username)
    if user_exists then pure user_info else (do
      wrapping "failed to create MongoDB user: " (
          run_command driver client "admin" (
            Command.create_user user_info.username user_info.password
              (record { role = "readWrite"; db = user_info.dbname } ∷ [])))
      pure user_info)

  unfoldable pub create_user_and_database :
      MongoDbClientOptions → String → String → Exec (MongoDbImpl S) MongoDbInfo
  create_user_and_database mop name namespace = do
    client ← wrapping "failed to create user and database: " (get_client mop)
    user_info ← known_user mop name namespace
    wrapping "failed to ensure database exists: " (
        insert_init driver (record { client = client; database = user_info.dbname; name = "init" }))
    user_info' ← upsert_user client user_info name namespace
    ensure_account client user_info'

  unfoldable pub version : MongoDbClientOptions → Exec (MongoDbImpl S) String
  unfolding lookup
  version mop = do
    client ← wrapping "failed to get version: " (get_client mop)
    result ←
        wrapping "failed to execute buildInfo command: "
          (run_command driver client "admin" Command.build_info)
    found_version (version_text (lookup "version" result))
    where
      found_version : Option String → Exec (MongoDbImpl S) String
      found_version (some v) = pure v
      found_version none = raise (new_error "version not found in buildInfo response")

  unfoldable pub ping : MongoDbClientOptions → Exec (MongoDbImpl S) (Unit {0})
  ping mop = do
    client ← wrapping "failed to ping MongoDB server: " (get_client mop)
    serve (Call.mongo client DriverCall.ping) (driver.ping client)
