-- ===== src/Request/SeedFaults.antt =====
-- Which errors of a seed are not retried: the tests of error texts, and what the wraps do to them.
use dbaas_controller.Prelude.{◌≡◌, refl, ◌≢◌, true, false, inl, inr, String, ◌||◌, Bool-cases}
use dbaas_controller.Prelude.{Bool}
use dbaas_controller.Go.{Error, ok, err, panic, contains-wrap, wrap, Result-cases}
use dbaas_controller.Api.{SecretReference, DatabaseRequest, Secret}
use dbaas_controller.Cluster.{Call, Env, Run, History, attempt, raise, pure, emit, get_object}
use dbaas_controller.Request.Faults.{
  err_is_invalid_credentials, err_is_database_does_not_exist, handle_error, update_status,
  reconcile_error_counter, prom_labels,
}
use dbaas_controller.Request.Info.{DbInfo, db_info_from_seed}
use dbaas_controller.Request.Resources.{handle_seed}
use dbaas_controller.Request.Providers.{
  secret_key, seed_database, test_seed_connection, relational_database_info_from_seed,
}
use dbaas_controller.Request.Reconcile.{seed_failed, reconcile_seed}

-- No retry would help.
abbrev pub is_hopeless : Error → Bool
is_hopeless e = err_is_invalid_credentials e || err_is_database_does_not_exist e

credentials-wrap :
    (p : String) (e : Error)
    → err_is_invalid_credentials e ≡ true
    → err_is_invalid_credentials (wrap p e) ≡ true
unfolding err_is_invalid_credentials
credentials-wrap p e h = contains-wrap p _ e h

existence-wrap :
    (p : String) (e : Error)
    → err_is_database_does_not_exist e ≡ true
    → err_is_database_does_not_exist (wrap p e) ≡ true
unfolding err_is_database_does_not_exist
existence-wrap p e h = contains-wrap p _ e h

pub or_right : (a b : Bool) → b ≡ true → (a || b) ≡ true
or_right true b e = refl
or_right false b e = e

is_hopeless-wrap : (p : String) (e : Error) → is_hopeless e ≡ true → is_hopeless (wrap p e) ≡ true
is_hopeless-wrap p e h = elim (Bool-cases (err_is_invalid_credentials e)) [
  | inl i ↦ rw (credentials-wrap p e i) refl
  | inr other ↦ or_right _ _ (existence-wrap p e (rw other at h))
]

module _ (env : Env)
    (written : (g : History) (o : DatabaseRequest)
      → (env.update_request_status g o).1 ≢ panic) where
  -- The end of `handle_error`, if the error is ignored
  ignored-ok :
      (t : Run DatabaseRequest)
      → (attempt
          (attempt
            (update_status env)
            (λ _. attempt get_object raise (λ o'.
              emit (Call.inc_counter reconcile_error_counter (prom_labels o' "update-status"))))
            pure)
          raise
          (λ _. pure tt)
          t).0
        ≡ ok tt
  unfolding attempt
  ignored-ok t = elim (Result-cases (env.update_request_status t.history t.object).1) [
    | inl (u, e) ↦ rw e refl
    | inr (inl (x, e)) ↦ rw e refl
    | inr (inr e) ↦ absurd (written _ _ e)
  ]

  handle_error-ok :
      (p : String) (e : Error) (s : Run DatabaseRequest) → (handle_error env p e true s).0 ≡ ok tt
  unfolding handle_error attempt
  handle_error-ok p e s = ignored-ok _

  seed_failed-ok :
      (e : Error) (s : Run DatabaseRequest) → is_hopeless e ≡ true → (seed_failed env e s).0 ≡ ok tt
  unfolding seed_failed
  seed_failed-ok e s h = rw h (handle_error-ok _ e s)

  -- If the secret of the seed is complete, the test of its connection is refused with an error that
  -- tells of invalid credentials or of a database that does not exist, and no write of a status panics,
  -- then the reconciliation of the seed returns without an error, so it is not retried.
  pub reconcile_seed-hopeless :
      (seed : SecretReference) (secret : Secret) (i : DbInfo) (e : Error) (s : Run DatabaseRequest)
      → ((g : History) → env.get_secret g (secret_key seed) ≡ ok secret)
      → db_info_from_seed env.quote secret.content ≡ ok i
      → ((g : History) (dsn : String) → env.ping g dsn s.object.spec.type ≡ err e)
      → is_hopeless e ≡ true
      → (reconcile_seed env seed s).0 ≡ ok tt
  unfolding reconcile_seed handle_seed relational_database_info_from_seed seed_database
      test_seed_connection attempt
  reconcile_seed-hopeless seed secret i e s stored valid refused h = rw (stored s.history) (
      rw valid
        (rw (refused _ _) (seed_failed-ok _ _ (is_hopeless-wrap _ _ (is_hopeless-wrap _ e h)))))
