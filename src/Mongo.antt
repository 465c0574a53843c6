-- ===== src/Mongo.antt =====
-- internal/database/mongodb/mongodb.go: the data of its client, and the calls of the driver that it makes.
pub mod Mock
pub mod Driver
pub mod Client
pub mod Users
pub mod Options
pub mod Growth
pub mod Created
pub mod Drops
pub mod Dropped
pub mod Stuck
use dbaas_controller.Prelude.{◌==◌, ◌&&◌, ◌<>◌, String, Bool, ℕ, ℤ, List, int_eq, true, false}
use dbaas_controller.Prelude.Texts.{itoa}

pub record MongoDbInfo : Type 0 where
  pub username : String
  pub password : String
  pub dbname : String

pub record MongoDbClientOptions : Type 0 where
  pub name : String
  pub hostname : String
  pub port : ℤ
  pub username : String
  pub password : String
  pub mechanism : String
  pub source : String
  pub tls : Bool

-- `options.Credential`
pub record Credential : Type 0 where
  pub auth_source : String
  pub username : String
  pub password : String
  pub auth_mechanism : String

-- `options.ClientOptions`, as far as the client sets them. A `*mongo.Client` stands for its options.
pub record ClientOptions : Type 0 where
  pub uri : String
  pub auth : Credential
  pub insecure_tls : Bool

unfoldable pub client_options : MongoDbClientOptions → ClientOptions
unfolding itoa
client_options mco = record {
  uri = "mongodb://" <> mco.hostname <> ":" <> itoa mco.port;
  auth = record {
    auth_source = mco.source;
    username = mco.username;
    password = mco.password;
    auth_mechanism = mco.mechanism;
  };
  insecure_tls = mco.tls;
}

abbrev pub same_flag : Bool → Bool → Bool
same_flag true b = b
same_flag false true = false
same_flag false false = true

-- `==` on the options, the keys of the cache
unfoldable pub same_options : MongoDbClientOptions → MongoDbClientOptions → Bool
same_options a b =
    (a.name == b.name && a.hostname == b.hostname)
    && (int_eq a.port b.port && a.username == b.username)
    && (a.password == b.password && a.mechanism == b.mechanism)
    && (a.source == b.source && same_flag a.tls b.tls)

-- `client.Database(database).Collection(name)`
pub record Collection : Type 0 where
  pub client : ClientOptions
  pub database : String
  pub name : String

-- `bson.M{"name": name, "namespace": namespace}`
pub record Filter : Type 0 where
  pub name : String
  pub namespace : String

pub record Role : Type 0 where
  pub role : String
  pub db : String

-- The commands that are run on the database admin
pub data Command : Type 0 where
  build_info : Command
  users_info : String → String → Command
  create_user : String → String → List Role → Command
  drop_user : String → Command

-- A value of a `bson.M`: a text, an array with so many elements, or another
pub data Value : Type 0 where
  text : String → Value
  array : ℕ → Value
  another : Value

-- The calls of the driver
pub data DriverCall : Type 0 where
  connect : DriverCall
  ping : DriverCall
  run_command : String → Command → DriverCall
  drop : String → DriverCall
  find_one : String → String → Filter → DriverCall
  insert_init : String → String → DriverCall
  find_one_and_update : String → String → Filter → MongoDbInfo → DriverCall
  delete_one : String → String → Filter → DriverCall
