-- ===== src/Mongo/Users.antt =====
-- What the collection of the users stands for: credentials by the name and the namespace of a request. The
-- laws are the documented behaviour of findOne, of an upsert with $setOnInsert, and of the calls that write
-- elsewhere.
use dbaas_controller.Prelude.{◌≡◌, String, true, Option, none, some}
use dbaas_controller.Go.{Error, ok, err}
use dbaas_controller.Mongo.{
  MongoDbInfo, MongoDbClientOptions, ClientOptions, client_options, Command, Filter,
}
use dbaas_controller.Mongo.Driver.{Driver, MongoDbImpl, find_client, is_no_documents}
use dbaas_controller.Mongo.Client.{users}

abbrev pub Users : Type 0
Users = String → String → Option MongoDbInfo

-- All credentials are kept.
abbrev pub Grows : Users → Users → Type 0
Grows R R' = (a b : String) (i : MongoDbInfo) → R a b ≡ some i → R' a b ≡ some i

abbrev pub named : String → String → Filter
named name namespace = record { name = name; namespace = namespace }

-- The servers behind the client have a collection of the users with these documents.
pub record IsCollection {S : Type 0} (driver : Driver S) (client : ClientOptions) (docs : S → Users)
    : Type 0 where
  pub finds :
      (n m : String) (t : S) (i : MongoDbInfo)
      → (driver.find_one (users client) (named n m) t).1 ≡ ok i
      → docs t n m ≡ some i
  pub misses :
      (n m : String) (t : S) (e : Error)
      → (driver.find_one (users client) (named n m) t).1 ≡ err e
      → is_no_documents e ≡ true
      → docs t n m ≡ none
  pub reads :
      (n m : String) (t : S)
      → Grows (docs t) (docs (driver.find_one (users client) (named n m) t).0)
  pub inserts :
      (db : String) (t : S)
      → Grows
          (docs t)
          (docs (driver.insert_init (record { client = client; database = db; name = "init" }) t).0)
  pub runs : (c : Command) (t : S) → Grows (docs t) (docs (driver.run_command client "admin" c t).0)
  -- The document before it, which stays
  pub updates :
      (n m : String) (i j : MongoDbInfo) (t : S)
      → (driver.find_one_and_update (users client) (named n m) i t).1 ≡ ok j
      → docs (driver.find_one_and_update (users client) (named n m) i t).0 n m ≡ some j
  -- There was none, and it is inserted.
  pub upserts :
      (n m : String) (i : MongoDbInfo) (t : S) (e : Error)
      → (driver.find_one_and_update (users client) (named n m) i t).1 ≡ err e
      → is_no_documents e ≡ true
      → docs (driver.find_one_and_update (users client) (named n m) i t).0 n m ≡ some i
  pub update_grows :
      (n m : String) (i : MongoDbInfo) (t : S)
      → Grows (docs t) (docs (driver.find_one_and_update (users client) (named n m) i t).0)

-- A client in the cache for the options is one for them.
abbrev pub IsClientOf : {S : Type 0} → MongoDbClientOptions → MongoDbImpl S → Type 0
IsClientOf mop w =
    (c : ClientOptions) → find_client mop w.connection_cache ≡ some c → c ≡ client_options mop
