-- ===== src/Mongo/Driver.antt =====
-- The MongoDB driver and the servers behind it, whose state is of any type, and the state of the client.
use dbaas_controller.Prelude.{
  ℕ, String, Bool, true, false, List, [], ◌∷◌, Option, none, some, suc, if◌then◌else◌,
}
use dbaas_controller.Go.{Error, no_documents, Result, ok, err, panic}
use dbaas_controller.Api.{Dict}
use dbaas_controller.Cluster.{Call, Exec, call_object, get_object, put_object, lift, ◌>>=◌, ◌>>◌}
use dbaas_controller.Database.Credentials.{Draws, Credentials, create_mongodb_user_info}
use dbaas_controller.Database.Bytes.{bytes_of, text_of}
use dbaas_controller.Mongo.{
  MongoDbInfo, MongoDbClientOptions, ClientOptions, same_options, Collection, Filter, Command,
  Value, DriverCall,
}

-- The functions of the driver; a cursor is decoded into a `MongoDBInfo`, and a reply into a `bson.M`.
pub record Driver (S : Type 0) : Type 0 where
  pub connect : ClientOptions → Result (Unit {0})
  pub ping : ClientOptions → S → S × Result (Unit {0})
  pub run_command : ClientOptions → String → Command → S → S × Result (Dict Value)
  pub drop : ClientOptions → String → S → S × Result (Unit {0})
  pub find_one : Collection → Filter → S → S × Result MongoDbInfo
  -- `InsertOne` of `bson.M{"init": "true"}`
  pub insert_init : Collection → S → S × Result (Unit {0})
  -- with `$setOnInsert`, an upsert, and the document before it
  pub find_one_and_update : Collection → Filter → MongoDbInfo → S → S × Result MongoDbInfo
  -- `DeletedCount`
  pub delete_one : Collection → Filter → S → S × Result ℕ

-- `MongoDBImpl`, the servers, and the random numbers: one sequence for each use
pub record MongoDbImpl (S : Type 0) : Type 0 where
  pub connection_cache : List (MongoDbClientOptions × ClientOptions)
  pub servers : S
  pub draws : ℕ → Draws
  pub used : ℕ

abbrev pub new_mongo_db_impl : {S : Type 0} → S → (ℕ → Draws) → MongoDbImpl S
new_mongo_db_impl servers draws = record {
  connection_cache = [];
  servers = servers;
  draws = draws;
  used = 0;
}

unfoldable pub find_client :
    MongoDbClientOptions → List (MongoDbClientOptions × ClientOptions) → Option ClientOptions
find_client mop [] = none
find_client mop ((k, c) ∷ cs) =
    let rest = find_client mop cs in if same_options k mop then some c else rest

-- `err == mongo.ErrNoDocuments`
abbrev pub is_no_documents : Error → Bool
is_no_documents e = elim e.kind [ no_documents ↦ true | _ ↦ false ]

abbrev mongo_info_of : Credentials → MongoDbInfo
mongo_info_of c = record {
  username = text_of c.username;
  password = text_of c.password;
  dbname = text_of c.dbname;
}

abbrev pub mongo_info_result : Result Credentials → Result MongoDbInfo
mongo_info_result (ok c) = ok (mongo_info_of c)
mongo_info_result (err e) = err e
mongo_info_result panic = panic

module _ {S : Type 0} where
  -- `createMongoDBUserInfo`, with the next random numbers
  unfoldable pub fresh_user : String → Exec (MongoDbImpl S) MongoDbInfo
  fresh_user namespace = do
    w ← get_object
    put_object (record w { used = suc w.used })
    lift (mongo_info_result (create_mongodb_user_info (w.draws w.used) 0 (bytes_of namespace)))

  -- A call that the servers answer
  abbrev pub serve : {A : Type 0} → Call → (S → S × Result A) → Exec (MongoDbImpl S) A
  serve c answer =
      call_object (λ w. c) (λ h w. let (s, r) = answer w.servers in (record w { servers = s }, r))

  module _ (driver : Driver S) where
    abbrev pub run_command : ClientOptions → String → Command → Exec (MongoDbImpl S) (Dict Value)
    run_command client db c =
        serve (Call.mongo client (DriverCall.run_command db c)) (driver.run_command client db c)

    abbrev pub drop_user_db : ClientOptions → String → Exec (MongoDbImpl S) (Unit {0})
    drop_user_db client db = serve (Call.mongo client (DriverCall.drop db)) (driver.drop client db)

    abbrev pub find_one : Collection → Filter → Exec (MongoDbImpl S) MongoDbInfo
    find_one c f =
        serve (Call.mongo c.client (DriverCall.find_one c.database c.name f)) (driver.find_one c f)

    abbrev pub insert_init : Collection → Exec (MongoDbImpl S) (Unit {0})
    insert_init c =
        serve (Call.mongo c.client (DriverCall.insert_init c.database c.name))
          (driver.insert_init c)

    abbrev pub find_one_and_update :
        Collection → Filter → MongoDbInfo → Exec (MongoDbImpl S) MongoDbInfo
    find_one_and_update c f i =
        serve (Call.mongo c.client (DriverCall.find_one_and_update c.database c.name f i))
          (driver.find_one_and_update c f i)

    abbrev pub delete_one : Collection → Filter → Exec (MongoDbImpl S) ℕ
    delete_one c f =
        serve (Call.mongo c.client (DriverCall.delete_one c.database c.name f))
          (driver.delete_one c f)
