-- ===== src/Tests/Sample.antt =====
-- A small cluster with one provider, in which each call succeeds.
use dbaas_controller.Prelude.{
  refl, String, ◌==◌, ◌&&◌, not, Bool, true, false, none, some, List, [], ◌∷◌, pos, if◌then◌else◌,
}
use dbaas_controller.Go.{Error, ok, err, not_found}
use dbaas_controller.Api.{
  ObjectMeta, Condition, DatabaseConnectionReference, DatabaseRequest, Connection,
  RelationalDatabaseProvider, Secret, at_second,
}
use dbaas_controller.Cluster.{Env, Run}
use dbaas_controller.Request.Named.{KeepsNames}

abbrev pub meta_of : String → String → ObjectMeta
meta_of name namespace = record {
  kind = "";
  name = name;
  namespace = namespace;
  uid = "1";
  resource_version = "7";
  generation = pos 1;
  deletion_timestamp = none;
  finalizers = [];
  labels = [];
}

abbrev pub connection : String → String → Connection
connection name hostname = record {
  name = name;
  hostname = hostname;
  replica_hostnames = [];
  password_secret_ref = record { name = "password"; namespace = "dbaas" };
  port = pos 3306;
  username = "root";
  enabled = true;
}

abbrev pub provider : RelationalDatabaseProvider
provider = record {
  meta = meta_of "provider" "";
  spec = record {
    type = "mysql";
    selector = "development";
    connections = connection "first" "db1" ∷ connection "second" "db2" ∷ [];
  };
  status = record { conditions = []; connection_status = []; observed_generation = pos 0 };
}

abbrev pub reference : DatabaseConnectionReference
reference = record {
  name = "first";
  database_object_reference = record {
    kind = "";
    name = "provider";
    uid = "1";
    resource_version = "7";
  };
}

-- A new request of the type
abbrev pub request : String → DatabaseRequest
request type = record {
  meta = meta_of "request" "project";
  spec = record {
    name = "mariadb-0";
    selector = "development";
    type = type;
    seed = none;
    additional_users = [];
    database_connection_reference = none;
    drop_database_on_delete = true;
    forced_reconcilation = none;
  };
  status = record {
    conditions = [];
    observed_generation = pos 0;
    observed_database_connection_reference = none;
    database_info = none;
  };
}

-- The same with a reference, and being deleted
abbrev pub referring : String → DatabaseRequest
referring type =
    let o = request type in
    record o { spec = record o.spec { database_connection_reference = some reference } }

abbrev pub deleted : String → DatabaseRequest
deleted type =
    let o = referring type in
    record o { meta = record o.meta { deletion_timestamp = some (at_second 5) } }

abbrev pub has_type : String → Condition → Bool
has_type type c = c.type == type

abbrev pub without : String → List Condition → List Condition
without type [] = []
without type (c ∷ cs) = let rest = without type cs in if has_type type c then rest else c ∷ rest

abbrev pub is_true : List Condition → String → Bool
is_true [] type = false
is_true (c ∷ cs) type = if has_type type c then c.status == "True" else is_true cs type

abbrev pub lacks : String → List String → Bool
lacks f [] = true
lacks f (g ∷ gs) = not (g == f) && lacks f gs

abbrev pub missing : Error
missing = record { message = "not found"; kind = not_found }

abbrev pub password : Secret
password = record { meta = meta_of "password" "dbaas"; content = ("password", "secret") ∷ [] }

-- A cluster with the request and the provider, in which the service and the secret do not exist yet
abbrev pub cluster : DatabaseRequest → Env
cluster o = record {
  get_request = λ h key. ok o;
  update_request = λ h x. (x, ok tt);
  update_request_status = λ h x. (x, ok tt);
  get_secret = λ h key. if key.name == "password" then ok password else err missing;
  create_secret = λ h x. ok tt;
  update_secret = λ h x. ok tt;
  delete_secret = λ h key. ok tt;
  get_service = λ h key. err missing;
  create_service = λ h x. ok tt;
  update_service = λ h x. ok tt;
  delete_service = λ h key. ok tt;
  list_providers = λ h. ok (provider ∷ []);
  get_provider = λ h key. ok provider;
  update_provider = λ h p. (p, ok tt);
  update_provider_status = λ h p. (p, ok tt);
  ping = λ h dsn type. ok tt;
  version = λ h dsn type. ok "8.0";
  load = λ h dsn type. ok (if dsn == "root:secret@tcp(db2:3306)/" then pos 3 else pos 10);
  initialize = λ h dsn type. ok tt;
  create_database = λ h dsn name namespace type username.
      ok (record { username = "user"; password = "pass"; dbname = "db" });
  drop_database = λ h dsn name namespace type. ok tt;
  get_database_info = λ h dsn name namespace type.
      ok (record { username = "user"; password = "pass"; dbname = "db" });
  set_database_info = λ h dsn name namespace type i. ok tt;
  is_status_condition_true = is_true;
  set_status_condition = λ cs c. (c ∷ without c.type cs, true);
  remove_status_condition = λ cs type. without type cs;
  add_finalizer = λ fs f. if lacks f fs then (f ∷ fs, true) else (fs, false);
  remove_finalizer = λ fs f. if lacks f fs then (fs, false) else ([], true);
  diff = λ a b. "";
  title = λ s. s;
  quote = λ s. s;
}

abbrev pub start : DatabaseRequest → Run DatabaseRequest
start o = record { object = o; history = [] }

pub cluster-KeepsNames : (o : DatabaseRequest) → KeepsNames (cluster o)
cluster-KeepsNames o = record { update_request = λ h x. refl; update_request_status = λ h x. refl }
