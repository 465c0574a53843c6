-- ===== src/MongoProvider.antt =====
-- internal/controller/mongodbprovider_controller.go: the reconciler of the MongoDB providers.
pub mod Faults
pub mod Connections
pub mod Reconcile
pub mod Checked
pub mod Ready
pub mod Released
