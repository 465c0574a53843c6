-- ===== src/Database.antt =====
-- internal/database: the data that the client of the relational databases returns, and its limits.
pub mod Mock
pub mod Credentials
pub mod Lengths
pub mod Bytes
pub mod Server
pub mod Monitor
pub mod Users
pub mod Databases
pub mod Refusals
pub mod Operations
pub mod Cache
pub mod Asks
pub mod Talk
pub mod Registry
pub mod Ensure
pub mod Refines
pub mod Created
pub mod Unsupported
use dbaas_controller.Prelude.{ℕ, String}

pub record RelationalDatabaseInfo : Type 0 where
  pub username : String
  pub password : String
  pub dbname : String

abbrev pub max_username_length : ℕ
max_username_length = 16

abbrev pub max_password_length : ℕ
max_password_length = 24

abbrev pub max_database_name_length : ℕ
max_database_name_length = 63

abbrev pub mysql : String
mysql = "mysql"

abbrev pub postgres : String
postgres = "postgres"
