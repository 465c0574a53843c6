-- ===== src/Request/Serving.antt =====
-- A cluster, with its database client, that answers every call of a reconciliation.
use dbaas_controller.Prelude.{String, ◌==◌, true, false, ◌⊎◌, List, none, ◌≡◌, int_lt}
use dbaas_controller.Go.{Error, Result, ok, err, is_not_found}
use dbaas_controller.Api.{
  NamespacedName, Connection, DatabaseRequest, DatabaseRequestSpec, RelationalDatabaseProvider,
}
use dbaas_controller.Cluster.{Env, History}
use dbaas_controller.Cluster.Returning.{Answered}
use dbaas_controller.Request.Lowest.{OneOf}
use dbaas_controller.Request.Operation.{is_relational}
use dbaas_controller.Request.Providers.{max_int, secret_key, password_of, matches}

-- A read that finds the object, or tells that it is not there
abbrev pub FoundOrMissing : {A : Type 0} → Result A → Type 0
FoundOrMissing {A} r =
    ((a : A) × (r ≡ ok a)) ⊎ ((e : Error) × (r ≡ err e) × (is_not_found e ≡ true))

-- The Kubernetes API, with the providers `ps`
pub record ClusterServes (env : Env) (ps : List RelationalDatabaseProvider) : Type 0 where
  pub updates :
      (h : History) (o : DatabaseRequest)
      → ((env.update_request h o).1 ≡ ok tt) × ((env.update_request h o).0.spec ≡ o.spec)
  pub statuses :
      (h : History) (o : DatabaseRequest)
      → ((env.update_request_status h o).1 ≡ ok tt)
        × ((env.update_request_status h o).0.spec ≡ o.spec)
        × ((env.update_request_status h o).0.status ≡ o.status)
  pub lists : (h : History) → env.list_providers h ≡ ok ps
  pub gets :
      (p : RelationalDatabaseProvider)
      → OneOf p ps
      → (h : History) → env.get_provider h (record { name = p.meta.name; namespace = "" }) ≡ ok p
  pub passwords :
      (p : RelationalDatabaseProvider)
      → OneOf p ps
      → (c : Connection) → OneOf c p.spec.connections
      → Answered
          (λ h. env.get_secret h (secret_key c.password_secret_ref))
          (λ secret. (password_of secret == "") ≡ false)
  pub services : (h : History) (key : NamespacedName) → FoundOrMissing (env.get_service h key)
  pub secrets : (h : History) (key : NamespacedName) → FoundOrMissing (env.get_secret h key)
  pub service_created : (h : History) → (s : _) → env.create_service h s ≡ ok tt
  pub service_updated : (h : History) → (s : _) → env.update_service h s ≡ ok tt
  pub secret_created : (h : History) → (s : _) → env.create_secret h s ≡ ok tt
  pub secret_updated : (h : History) → (s : _) → env.update_secret h s ≡ ok tt

-- The client of the relational databases
pub record ClientServes (env : Env) : Type 0 where
  pub load :
      (dsn type : String) → Answered (λ h. env.load h dsn type) (λ n. int_lt n max_int ≡ true)
  pub created :
      (dsn name namespace type user : String)
      → Answered (λ h. env.create_database h dsn name namespace type user) (λ i. Unit)
  pub known :
      (dsn name namespace type : String)
      → Answered (λ h. env.get_database_info h dsn name namespace type) (λ i. Unit)

-- A provider of the list has room: it matches, and it has an enabled connection.
pub record HasRoom (selector type : String) (p : RelationalDatabaseProvider) : Type 0 where
  pub matching : matches selector type p ≡ true
  pub connection : Connection
  pub offered : OneOf connection p.spec.connections
  pub enabled : connection.enabled ≡ true

-- One of the providers `ps` has room for a request that asks for a relational database and has no seed and
-- no connection reference.
pub record Rooms (ps : List RelationalDatabaseProvider) (spec : DatabaseRequestSpec) : Type 0 where
  pub relational : is_relational spec.type ≡ true
  pub unseeded : spec.seed ≡ none
  pub unreferenced : spec.database_connection_reference ≡ none
  pub provider : RelationalDatabaseProvider
  pub among : OneOf provider ps
  pub room : HasRoom spec.selector spec.type provider
