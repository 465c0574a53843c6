-- ===== src/Tests/Outcomes.antt =====
-- How single reconciliations end, and the theorems about it at concrete input.
use dbaas_controller.Prelude.{◌≡◌, ◌≢◌, refl, false, some, ◌==◌, [], ◌∷◌, pos, if◌then◌else◌}
use mathlib.Core.Path.{subst}
use dbaas_controller.Prelude.Texts.{atoi}
use dbaas_controller.Go.{Error, new_error, ok, err, panic}
use dbaas_controller.Api.{SecretReference, NamespacedName, Secret, lookup}
use dbaas_controller.Cluster.{Env, attempt}
use dbaas_controller.Cluster.Since.{Since}
use dbaas_controller.Request.Faults.{err_is_invalid_credentials}
use dbaas_controller.Request.Info.{DbInfo, db_info_from_seed, convert_port}
use dbaas_controller.Request.Resources.{
  handle_service, create_service, handle_secret, create_secret, deref,
}
use dbaas_controller.Request.Reconcile.{reconcile_seed, reconcile_current, is_up_to_date}
use dbaas_controller.Request.Failing.{reconcile_current-unsupported}
use dbaas_controller.Request.Seeding.{InOrder, reconcile_seed-InOrder}
use dbaas_controller.Request.SeedFaults.{reconcile_seed-hopeless}
use dbaas_controller.Request.Content.{
  HasSecret, HasService, handle_secret-HasSecret, handle_service-HasService,
}
use dbaas_controller.Tests.Sample.{meta_of, request, referring, cluster, start, password, missing}

reconcile_current-unsupported_example :
    (reconcile_current (cluster (referring "mongodb")) (start (referring "mongodb"))).0 ≢ ok tt
unfolding is_up_to_date
reconcile_current-unsupported_example =
    reconcile_current-unsupported (cluster (referring "mongodb")) (start (referring "mongodb")) refl
      refl refl

abbrev pub seed : SecretReference
seed = record { name = "seed"; namespace = "project" }

abbrev pub seed_secret : Secret
seed_secret = record {
  meta = meta_of "seed" "project";
  content =
      ("database", "shop")
      ∷ ("hostname", "db2")
      ∷ ("username", "shop")
      ∷ ("password", "p4ss")
      ∷ ("port", "3306")
      ∷ [];
}

-- The cluster with the secret of the seed
abbrev pub seeding : Env
seeding = record (cluster (request "mysql")) {
  get_secret = λ h key.
      if key.name == "password"
      then ok password
      else if key.name == "seed"
      then ok seed_secret
      else err missing;
}

reconcile_seed-InOrder_example :
    Since
      (InOrder seeding seed (request "mysql"))
      []
      (reconcile_seed seeding seed (start (request "mysql"))).1
reconcile_seed-InOrder_example = reconcile_seed-InOrder seeding seed (start (request "mysql"))

abbrev denied : Error
denied = new_error "invalid credentials"

-- The same, where each ping is refused
abbrev refusing : Env
refusing = record seeding { ping = λ h dsn type. err denied; get_secret = λ h key. ok seed_secret }

abbrev pub seed_info : DbInfo
seed_info = record {
  database = "shop";
  host_name = "db2";
  user_name = "shop";
  password = "p4ss";
  port = pos 3306;
}

pub ok_is_not_panic : ok (tt {0}) ≢ panic
ok_is_not_panic e = subst (λ r. elim r [ ok a ↦ Unit | err x ↦ Unit | panic ↦ ⊥ ]) e tt

pub seed_is_valid : db_info_from_seed refusing.quote seed_secret.content ≡ ok seed_info
unfolding db_info_from_seed lookup convert_port atoi
seed_is_valid = refl

reconcile_seed-hopeless_example : (reconcile_seed refusing seed (start (request "mysql"))).0 ≡ ok tt
unfolding err_is_invalid_credentials
reconcile_seed-hopeless_example =
    reconcile_seed-hopeless refusing (λ g o. ok_is_not_panic) seed seed_secret seed_info denied
      (start (request "mysql")) (λ g. refl) seed_is_valid (λ g dsn. refl) refl

abbrev key : NamespacedName
key = record { name = "request"; namespace = "project" }

secret_handled :
    (handle_secret (cluster (request "mysql")) (some seed_info) (start (request "mysql"))).0
    ≡ ok false
unfolding handle_secret create_secret deref attempt
secret_handled = refl

handle_secret-HasSecret_example :
    HasSecret
      (cluster (request "mysql"))
      seed_info
      (request "mysql")
      []
      (handle_secret (cluster (request "mysql")) (some seed_info) (start (request "mysql"))).1
handle_secret-HasSecret_example =
    handle_secret-HasSecret (cluster (request "mysql")) seed_info (start (request "mysql")) false
      secret_handled

service_handled :
    (handle_service (cluster (request "mysql")) (some seed_info) (start (request "mysql"))).0
    ≡ ok false
unfolding handle_service create_service deref attempt
service_handled = refl

handle_service-HasService_example :
    HasService
      (cluster (request "mysql"))
      seed_info
      (request "mysql")
      []
      (handle_service (cluster (request "mysql")) (some seed_info) (start (request "mysql"))).1
handle_service-HasService_example =
    handle_service-HasService (cluster (request "mysql")) seed_info (start (request "mysql")) false
      service_handled
