-- ===== src/Api.antt =====
-- The types of api/v1alpha1, and of the Kubernetes objects as far as the controllers use them.
use dbaas_controller.Prelude.{String, ◌==◌, Bool, Option, none, some, List, [], ◌∷◌, ℕ}
use dbaas_controller.Prelude.{if◌then◌else◌, ℤ}

-- A map with text keys, in any order.
abbrev pub Dict : Type 0 → Type 0
Dict V = List (String × V)

unfoldable pub lookup : {V : Type 0} → String → Dict V → Option V
lookup k [] = none
lookup k ((j, v) ∷ m) = if j == k then some v else lookup k m

pub record NamespacedName : Type 0 where
  pub name : String
  pub namespace : String

-- `v1.SecretReference`
pub record SecretReference : Type 0 where
  pub name : String
  pub namespace : String

-- A `*metav1.Time` that is not nil.
pub data Timestamp : Type 0 where
  zero_time : Timestamp
  at_second : ℕ → Timestamp

-- `metav1.TypeMeta` and `metav1.ObjectMeta`
pub record ObjectMeta : Type 0 where
  pub kind : String
  pub name : String
  pub namespace : String
  pub uid : String
  pub resource_version : String
  pub generation : ℤ
  pub deletion_timestamp : Option Timestamp
  pub finalizers : List String
  pub labels : Dict String

-- `metav1.Condition`; its time and generation are the library's
pub record Condition : Type 0 where
  pub type : String
  pub status : String
  pub reason : String
  pub message : String

-- `v1.ObjectReference`
pub record ObjectReference : Type 0 where
  pub kind : String
  pub name : String
  pub uid : String
  pub resource_version : String

pub record AdditionalUser : Type 0 where
  pub type : String
  pub name : String

pub record DatabaseConnectionReference : Type 0 where
  pub database_object_reference : ObjectReference
  pub name : String

pub record DatabaseRequestSpec : Type 0 where
  pub name : String
  pub selector : String
  pub type : String
  pub seed : Option SecretReference
  pub additional_users : List AdditionalUser
  pub database_connection_reference : Option DatabaseConnectionReference
  pub drop_database_on_delete : Bool
  pub forced_reconcilation : Option Timestamp

pub record DatabaseInfo : Type 0 where
  pub username : String
  pub databasename : String

pub record DatabaseRequestStatus : Type 0 where
  pub conditions : List Condition
  pub observed_generation : ℤ
  pub observed_database_connection_reference : Option DatabaseConnectionReference
  pub database_info : Option DatabaseInfo

pub record DatabaseRequest : Type 0 where
  pub meta : ObjectMeta
  pub spec : DatabaseRequestSpec
  pub status : DatabaseRequestStatus

pub record Connection : Type 0 where
  pub name : String
  pub hostname : String
  pub replica_hostnames : List String
  pub password_secret_ref : SecretReference
  pub port : ℤ
  pub username : String
  pub enabled : Bool

pub record RelationalDatabaseProviderSpec : Type 0 where
  pub type : String
  pub selector : String
  pub connections : List Connection

pub record ConnectionStatus : Type 0 where
  pub name : String
  pub hostname : String
  pub database_version : String
  pub enabled : Bool
  pub status : String

pub record RelationalDatabaseProviderStatus : Type 0 where
  pub conditions : List Condition
  pub connection_status : List ConnectionStatus
  pub observed_generation : ℤ

pub record RelationalDatabaseProvider : Type 0 where
  pub meta : ObjectMeta
  pub spec : RelationalDatabaseProviderSpec
  pub status : RelationalDatabaseProviderStatus

-- `v1.Secret` and `v1.Service`, as far as the controllers use them
pub record Secret : Type 0 where
  pub meta : ObjectMeta
  pub content : Dict String

pub record Service : Type 0 where
  pub meta : ObjectMeta
  pub type : String
  pub external_name : String

pub record MongoDbAuth : Type 0 where
  pub mechanism : String
  pub source : String
  pub tls : Bool

pub record MongoDbConnection : Type 0 where
  pub name : String
  pub hostname : String
  pub replica_hostnames : List String
  pub password_secret_ref : SecretReference
  pub port : ℤ
  pub username : String
  pub auth : MongoDbAuth
  pub enabled : Bool

pub record MongoDbProviderSpec : Type 0 where
  pub selector : String
  pub connections : List MongoDbConnection

pub record MongoDbProviderStatus : Type 0 where
  pub conditions : List Condition
  pub connection_status : List ConnectionStatus
  pub observed_generation : ℤ

pub record MongoDbProvider : Type 0 where
  pub meta : ObjectMeta
  pub spec : MongoDbProviderSpec
  pub status : MongoDbProviderStatus
