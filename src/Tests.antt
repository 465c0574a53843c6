-- ===== src/Tests.antt =====
-- Concrete environments, requests and providers.
pub mod Sample
pub mod Requests
pub mod Outcomes
pub mod Providers
pub mod Names
pub mod Servers
pub mod Documents
pub mod MongoClients
pub mod MongoProviders
pub mod Locks
pub mod Provisions
pub mod Clients
pub mod Mains
pub mod Served
