-- ===== src/Database/Refusals.antt =====
-- Which errors of the drivers a seed's connection test turns into errors that are not retried.
use dbaas_controller.Prelude.{◌≡◌, refl, ◌≢◌, String, ◌<>◌, true, Option, none, some, ◌∙◌}
use dbaas_controller.Prelude.Texts.{contains-middle}
use dbaas_controller.Go.{Error, ErrorKind, mysql_error, postgres_error, ok, err, panic, wrap}
use dbaas_controller.Api.{SecretReference, DatabaseRequest, Secret, lookup}
use dbaas_controller.Cluster.{Env, Call, Run, History, attempt, raise, pure}
use dbaas_controller.Request.Faults.{err_is_invalid_credentials, err_is_database_does_not_exist}
use dbaas_controller.Request.Info.{DbInfo, db_info_from_seed}
use dbaas_controller.Request.Providers.{secret_key}
use dbaas_controller.Request.Reconcile.{reconcile_seed}
use dbaas_controller.Request.SeedFaults.{is_hopeless, or_right, reconcile_seed-hopeless}
use dbaas_controller.Database.{mysql, postgres}
use dbaas_controller.Database.Server.{
  Handle, Sql, World, serve, get_connection, cached, open_connection,
}
use dbaas_controller.Database.Monitor.{cause, ping_error, ping}

-- The servers refuse the user or do not know the database: access denied for a user to a database, access
-- denied, unknown database, invalid_password and invalid_catalog_name.
pub data Refusal : String → ErrorKind → Type 0 where
  denied_to_database : Refusal mysql (mysql_error 1044)
  denied : Refusal mysql (mysql_error 1045)
  unknown_database : Refusal mysql (mysql_error 1049)
  invalid_password : Refusal postgres (postgres_error "28P01")
  invalid_catalog_name : Refusal postgres (postgres_error "3D000")

abbrev refusal : ErrorKind → String → Error
refusal k m = record { message = m; kind = k }

Refusal-hopeless :
    {type : String} {k : ErrorKind} (m : String)
    → Refusal type k
    → is_hopeless (ping_error type (refusal k m)) ≡ true
unfolding ping_error cause wrap err_is_invalid_credentials err_is_database_does_not_exist
Refusal-hopeless m denied_to_database =
    rw (contains-middle "failed to ping mysql database due to " "invalid credentials" ": " m) refl
Refusal-hopeless m denied =
    rw (contains-middle "failed to ping mysql database due to " "invalid credentials" ": " m) refl
Refusal-hopeless m unknown_database =
    or_right _ _
      (contains-middle "failed to ping mysql database due to " "database does not exist" ": " m)
Refusal-hopeless m invalid_password =
    rw (contains-middle "failed to ping postgres database due to " "invalid credentials" ": " m)
      refl
Refusal-hopeless m invalid_catalog_name =
    or_right _ _
      (contains-middle "failed to ping postgres database due to " "database does not exist" ": " m)

module _ {S : Type 0} (sql : Sql S) (opens : (type dsn : String) → sql.open_db type dsn ≡ ok tt)
    (e : Error) (refuses : (h : Handle) (t : S) → (sql.ping h t).1 ≡ err e) where
  cached-refused :
      (o : Option Handle) (dsn type : String) (s : Run (World S))
      → (attempt
          (attempt
            (cached sql o dsn type)
            (λ x. raise (wrap ("ping failed to open " <> type <> " database: ") x))
            pure)
          raise
          (λ h.
            attempt
              (serve sql (Call.sql_ping h.dsn) (sql.ping h))
              (λ x. raise (ping_error type x))
              pure)
          s).0
        ≡ err (ping_error type e)
  unfolding cached open_connection attempt
  cached-refused none dsn type s = rw (opens type dsn) (rw (refuses _ _) refl)
  cached-refused (some h) dsn type s = rw (refuses _ _) refl

  ping-refused :
      (dsn type : String) (s : Run (World S)) → (ping sql dsn type s).0 ≡ err (ping_error type e)
  unfolding ping get_connection attempt
  ping-refused dsn type s = cached-refused (lookup dsn s.object.cache) dsn type s

  -- Reconciler and client together: if a seed's secret is complete, its connection test is the client's
  -- `Ping`, the driver opens every connection, the servers refuse them with an error that tells of wrong
  -- credentials or of an unknown database by its number or code, and no write of a status panics, then
  -- the reconciliation of the seed returns without an error, so it is not retried.
  pub reconcile_seed-Refusal :
      (env : Env)
      → ((g : History) (o : DatabaseRequest) → (env.update_request_status g o).1 ≢ panic)
      → (world : History → Run (World S))
      → ((g : History) (dsn type : String) → env.ping g dsn type ≡ (ping sql dsn type (world g)).0)
      → (seed : SecretReference) (secret : Secret) (i : DbInfo) (s : Run DatabaseRequest)
      → ((g : History) → env.get_secret g (secret_key seed) ≡ ok secret)
      → db_info_from_seed env.quote secret.content ≡ ok i
      → Refusal s.object.spec.type e.kind
      → (reconcile_seed env seed s).0 ≡ ok tt
  reconcile_seed-Refusal env written world client seed secret i s stored valid r =
      let type = s.object.spec.type in
      reconcile_seed-hopeless env written seed secret i (ping_error type e) s stored valid
        (λ g dsn. client g dsn type ∙ ping-refused dsn type (world g))
        (Refusal-hopeless e.message r)
