-- ===== src/Main/Unserved.antt =====
-- The MongoDB providers under the reconciler that `main` sets up.
use dbaas_controller.Prelude.{String, Bool, if◌then◌else◌, ◌≡◌, ◌≢◌, false, List, [], ◌∷◌}
use dbaas_controller.Go.{Error, ok}
use dbaas_controller.Api.{NamespacedName, MongoDbProvider}
use dbaas_controller.Cluster.{Call, done, Run, attempt, raise, put_object, ◌>>◌}
use dbaas_controller.Cluster.Failing.{
  Failed, Failed-NotOk, Fails, Fails-raise, Fails-if, Fails-attempt, Fails-first, failing_rules,
}
use dbaas_controller.Provider.Connections.{Checks, no_checks}
use dbaas_controller.Request.Reconcile.{is_deleted}
use dbaas_controller.MongoProvider.Faults.{MongoEnv, handle_error, update_mongodb_provider}
use dbaas_controller.MongoProvider.Connections.{MongoDbConn, check_mongodb, check_all_mongodb}
use dbaas_controller.MongoProvider.Reconcile.{
  is_mongodb_reconciled, conclude_mongodb, reconcile_mongodb_connections,
  reconcile_mongodb_provider, reconcile,
}
use dbaas_controller.Main.{Host, mongodb_reconciler}
use dbaas_controller.Main.Clients.{MongoDbInterface, served}

module _ {C R : Type 0} (host : Host C R MongoDbInterface) (env : MongoEnv) where
  abbrev pub wired : MongoEnv
  wired = served (mongodb_reconciler host) env

  handle_error-Fails :
      {A : Type 0} (p : String) (e : Error) → Fails (handle_error wired {A = A} p e)
  unfolding handle_error
  handle_error-Fails p e = search failing_rules depth 20

  check-Fails :
      (o : MongoDbProvider) (conn : MongoDbConn) (k : Checks) → Fails (check_mongodb wired o conn k)
  unfolding check_mongodb served attempt
  check-Fails o conn k = record { at = λ s. tt }

  conclude-Fails : (key : NamespacedName) → Fails (conclude_mongodb wired key [] no_checks)
  unfolding conclude_mongodb
  conclude-Fails key = search (failing_rules, handle_error-Fails) depth 8

  -- No connection can be checked, and with no connection there is none that works.
  checked-Fails :
      (key : NamespacedName) (o : MongoDbProvider) (conns : List MongoDbConn)
      → Fails (
          attempt
            (check_all_mongodb wired o conns no_checks)
            raise
            (conclude_mongodb wired key conns))
  unfolding check_all_mongodb attempt
  checked-Fails key o [] = record { at = (conclude-Fails key).at }
  checked-Fails key o (c ∷ cs) =
      Fails-first _ _ _ Fails-raise (Fails-first _ _ _ Fails-raise (check-Fails o c no_checks))

  connections-Fails : (key : NamespacedName) → Fails (reconcile_mongodb_connections wired key)
  unfolding reconcile_mongodb_connections
  connections-Fails key = Fails-attempt _ _ _ Fails-raise (λ o.
      Fails-attempt _ _ _ Fails-raise
        (λ (names, conns). Fails-if _ _ _ (handle_error-Fails _ _) (checked-Fails key o conns)))

  unreconciled-Fails :
      (key : NamespacedName) (b : Bool) (o : MongoDbProvider)
      → Fails (
          if b
          then put_object o
            >> attempt
                (update_mongodb_provider wired)
                (λ e. handle_error wired "add-finalizer" e)
                (λ _. reconcile_mongodb_connections wired key)
          else reconcile_mongodb_connections wired key)
  unreconciled-Fails key b o =
      Fails-if b _ _
        (Fails-attempt _ _ _ Fails-raise (λ _.
          Fails-attempt _ _ _ (handle_error-Fails "add-finalizer") (λ _. connections-Fails key)))
        (connections-Fails key)

  provider-Failed :
      (key : NamespacedName) (s : Run MongoDbProvider)
      → is_mongodb_reconciled wired s.object ≡ false
      → Failed (reconcile_mongodb_provider wired key s).0
  unfolding reconcile_mongodb_provider attempt
  provider-Failed key s stale = rw stale ((unreconciled-Fails key _ _).at s)

  -- Code and start together: with the reconciler that `main` sets up, the reconciliation of a MongoDB
  -- provider that is read, not being deleted and not yet reconciled never returns without an error,
  -- whatever the cluster and the MongoDB servers answer.
  pub reconcile-unserved :
      (key : NamespacedName) (s : Run MongoDbProvider) (o : MongoDbProvider)
      → env.get_provider s.history key ≡ ok o
      → is_deleted o.meta.deletion_timestamp ≡ false
      → is_mongodb_reconciled env o ≡ false
      → (reconcile wired key s).0 ≢ ok tt
  unfolding reconcile attempt served is_mongodb_reconciled
  reconcile-unserved key s o got live stale = Failed-NotOk _ tt (
      rw got (
        rw live (
          provider-Failed key
            (record {
              object = o;
              history = record { call = Call.get_mongodb_provider key; outcome = done } ∷ s.history;
            })
            stale)))
