-- ===== src/Request/Failing.antt =====
-- Parts of the reconciler that cannot return without an error.
use dbaas_controller.Prelude.{◌≡◌, ◌≢◌, false, none, Option, inl, inr, Bool-cases, String, ◌==◌}
use dbaas_controller.Prelude.{sym}
use mathlib.Core.Path.{subst}
use dbaas_controller.Go.{Error, ok}
use dbaas_controller.Api.{SecretReference, DatabaseRequest, Service}
use dbaas_controller.Cluster.{Env, Run, attempt}
use dbaas_controller.Cluster.Failing.{
  Failed, Failed-NotOk, Fails, Fails-raise, Fails-crash, Fails-attempt, Fails-first, failing_rules,
}
use dbaas_controller.Request.Faults.{handle_error}
use dbaas_controller.Request.Operation.{
  is_relational, mongodb_type, create_database, set_observed_reference,
}
use dbaas_controller.Request.Resources.{deref, create_service, adjust_service, handle_service}
use dbaas_controller.Request.Deletion.{is_nil}
use dbaas_controller.Request.Reconcile.{
  provide, reconcile_info, reconcile_created, reconcile_current, is_up_to_date, by_seed,
}

module _ (env : Env) where
  pub handle_error-Fails : (p : String) (e : Error) → Fails (handle_error env p e false)
  unfolding handle_error
  handle_error-Fails p e = search failing_rules depth 14

  deref-Fails : Fails (deref none)
  unfolding deref
  deref-Fails = Fails-crash

  create_service-Fails : (o : DatabaseRequest) → Fails (create_service env none o)
  unfolding create_service
  create_service-Fails o =
      Fails-attempt _ _ _ Fails-raise (λ _. Fails-first _ _ _ Fails-raise deref-Fails)

  adjust_service-Fails : (o : DatabaseRequest) (s : Service) → Fails (adjust_service env none o s)
  unfolding adjust_service
  adjust_service-Fails o s = Fails-first _ _ _ Fails-raise deref-Fails

  handle_service-Fails : Fails (handle_service env none)
  unfolding handle_service
  handle_service-Fails = search (failing_rules, create_service-Fails, adjust_service-Fails) depth 9

  pub provide-Fails : Fails (provide env none)
  unfolding provide
  provide-Fails = Fails-first _ _ _ (handle_error-Fails _) handle_service-Fails

  reconcile_info-Failed :
      (s : Run DatabaseRequest)
      → is_relational s.object.spec.type ≡ false
      → Failed (reconcile_info env s).0
  unfolding reconcile_info attempt set_observed_reference
  reconcile_info-Failed s r = rw r (provide-Fails.at _)

  fault :
      (p : String) (e : Error) (s : Run DatabaseRequest) → Failed (handle_error env p e false s).0
  fault p e s = (handle_error-Fails p e).at s

  pub reconcile_created-Failed :
      (s : Run DatabaseRequest)
      → is_relational s.object.spec.type ≡ false
      → Failed (reconcile_created env s).0
  unfolding reconcile_created create_database attempt
  reconcile_created-Failed s r =
      elim (Bool-cases (is_nil s.object.spec.database_connection_reference)) [
        | inl missing ↦ elim (Bool-cases (s.object.spec.type == mongodb_type)) [
          | inl m ↦ rw missing (rw r (rw m (rw missing (fault _ _ s))))
          | inr other ↦ rw missing (rw r (rw other (fault _ _ s)))
        ]
        | inr there ↦ rw there (reconcile_info-Failed s r)
      ]

  by_seed-Failed :
      (seed : Option SecretReference) (s : Run DatabaseRequest)
      → seed ≡ none
      → is_relational s.object.spec.type ≡ false
      → Failed (by_seed env seed s).0
  by_seed-Failed seed s e r =
      subst (λ x. Failed (by_seed env x s).0) (sym e) (reconcile_created-Failed s r)

  -- From the point on where the request is known to have its finalizer, the reconciliation of a request
  -- that is not up to date, has no seed and is neither of the type mysql nor of the type postgres never
  -- returns without an error, whatever the environment answers.
  pub reconcile_current-unsupported :
      (s : Run DatabaseRequest)
      → is_up_to_date env s.object ≡ false
      → s.object.spec.seed ≡ none
      → is_relational s.object.spec.type ≡ false
      → (reconcile_current env s).0 ≢ ok tt
  unfolding reconcile_current attempt
  reconcile_current-unsupported s stale unseeded r =
      Failed-NotOk _ tt (rw stale (by_seed-Failed s.object.spec.seed s unseeded r))
