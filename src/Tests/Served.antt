-- ===== src/Tests/Served.antt =====
-- A new request in the sample cluster with the mock as its database client.
use mathlib.Core.Path.{subst}
use dbaas_controller.Prelude.{
  ◌≡◌, refl, ap, sym, true, false, inl, inr, [], ◌∷◌, eq_refl, Bool-cases, ◌==◌,
}
use dbaas_controller.Go.{ok}
use dbaas_controller.Api.{NamespacedName, SecretReference, Connection, RelationalDatabaseProvider}
use dbaas_controller.Cluster.{Env, attempt}
use dbaas_controller.Database.Mock.{mocked, mocked-Serves}
use dbaas_controller.Request.Providers.{secret_key, matches, password_of}
use dbaas_controller.Request.Lowest.{OneOf}
use dbaas_controller.Cluster.Returning.{Answered}
use dbaas_controller.Request.Reconcile.{
  reconcile, finish, set_ready, set_conditions, observe_generation,
}
use dbaas_controller.Request.Serving.{ClusterServes, Rooms}
use dbaas_controller.Request.Succeeds.{Placed, reconcile_room}
use dbaas_controller.Request.Settled.{HasConditions, IsSettled, updated}
use dbaas_controller.Request.Observed.{finish-IsSettled}
use dbaas_controller.Tests.Sample.{request, provider, connection, cluster, missing, password, start}

abbrev env : Env
env = mocked (cluster (request "mysql"))

abbrev key : NamespacedName
key = record { name = "request"; namespace = "project" }

of_sample :
    (c : Connection) → OneOf c provider.spec.connections → c.password_secret_ref.name ≡ "password"
of_sample c (inl e) = ap (λ (x : Connection). x.password_secret_ref.name) e
of_sample c (inr (inl e)) = ap (λ (x : Connection). x.password_secret_ref.name) e
of_sample c (inr (inr n)) = absurd n

named :
    (p : RelationalDatabaseProvider)
    → OneOf p (provider ∷ [])
    → (c : Connection) → OneOf c p.spec.connections
    → c.password_secret_ref.name ≡ "password"
named p (inl same) c o =
    of_sample c (subst (λ (q : RelationalDatabaseProvider). OneOf c q.spec.connections) same o)
named p (inr n) c o = absurd n

secret_at :
    (ref : SecretReference)
    → ref.name ≡ "password"
    → Answered (λ h. env.get_secret h (secret_key ref)) (λ s. (password_of s == "") ≡ false)
unfolding password_of
secret_at ref e = record { value = λ h. password; given = λ h. rw e refl; holds = λ h. refl }

env-Serves : ClusterServes env (provider ∷ [])
unfolding password_of
env-Serves = record {
  updates = λ h o. (refl, refl);
  statuses = λ h o. (refl, refl, refl);
  lists = λ h. refl;
  gets = λ p m h. elim m [ inl same ↦ ap ok (sym same) | inr n ↦ absurd n ];
  passwords = λ p m c o. secret_at c.password_secret_ref (named p m c o);
  services = λ h k. inr (missing, refl, refl);
  secrets = λ h k. elim (Bool-cases (k.name == "password")) [
    | inl e ↦ rw e (inl (password, refl))
    | inr e ↦ rw e (inr (missing, refl, refl))
  ];
  service_created = λ h s. refl;
  service_updated = λ h s. refl;
  secret_created = λ h s. refl;
  secret_updated = λ h s. refl;
}

mysql-Rooms : Rooms (provider ∷ []) (request "mysql").spec
unfolding matches
mysql-Rooms = record {
  relational = refl;
  unseeded = refl;
  unreferenced = refl;
  provider = provider;
  among = inl refl;
  room = record {
    matching = refl;
    connection = connection "first" "db1";
    offered = inl refl;
    enabled = refl;
  };
}

reconcile_room_example :
    let (r, t) = reconcile env key (start (request "mysql")) in
    (r ≡ ok tt) × Placed env (provider ∷ []) (request "mysql").spec t.object
reconcile_room_example =
    reconcile_room env (provider ∷ []) env-Serves (mocked-Serves (cluster (request "mysql"))) key
      (request "mysql") (start (request "mysql")) refl refl mysql-Rooms

env-HasConditions : HasConditions env
env-HasConditions = record {
  sets = λ cs c e. rw (eq_refl c.type) (rw e refl);
  absent = λ type. refl;
}

finish_returns : (finish env true (start (request "mysql"))).0 ≡ ok tt
unfolding finish set_ready set_conditions observe_generation attempt
finish_returns = refl

finish-IsSettled_example :
    IsSettled env true
      (updated env (start (request "mysql")))
      []
      (finish env true (start (request "mysql"))).1
finish-IsSettled_example =
    finish-IsSettled env env-HasConditions (λ h o e. (refl, refl)) true (start (request "mysql"))
      finish_returns
