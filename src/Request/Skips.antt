-- ===== src/Request/Skips.antt =====
-- Which requests are left alone.
use mathlib.Core.Path.{subst}
use dbaas_controller.Prelude.{
  ◌≡◌, refl, sym, ◌⊎◌, inl, inr, Bool, true, false, ◌&&◌, Bool-cases, false-is-not-true, Option,
  none, ◌∷◌, int_le,
}
use dbaas_controller.Go.{ok}
use dbaas_controller.Api.{SecretReference, DatabaseRequest}
use dbaas_controller.Cluster.{Call, Env, Run, attempt}
use dbaas_controller.Cluster.Since.{Since}
use dbaas_controller.Request.Named.{KeepsNames}
use dbaas_controller.Request.Deletion.{is_nil}
use dbaas_controller.Request.Provision.{IsProvided, reconcile_created-IsProvided}
use dbaas_controller.Request.Reconcile.{has_conditions, is_up_to_date, by_seed, reconcile_current}
use dbaas_controller.Request.Safety.{quiet}

both_true : (a b : Bool) → (a && b) ≡ true → (a ≡ true) × (b ≡ true)
both_true true b e = (refl, e)
both_true false b e = absurd (false-is-not-true e)

module _ (env : Env) (keeps : KeepsNames env) where
  -- The request is ready and its generation was observed, and nothing is done but tell so.
  pub record IsSkipped (s t : Run DatabaseRequest) : Type 0 where
    pub ready : env.is_status_condition_true s.object.status.conditions "Ready" ≡ true
    pub observed : int_le s.object.meta.generation s.object.status.observed_generation ≡ true
    pub told :
        t.history
        ≡ quiet (Call.record_event "Normal" "ReconcileSkipped" "No updates to reconcile")
          ∷ s.history
    pub same : t.object ≡ s.object

  by_seed-IsProvided :
      (seed : Option SecretReference) (s : Run DatabaseRequest)
      → seed ≡ none
      → (by_seed env seed s).0 ≡ ok tt
      → Since
          (IsProvided s.object (is_nil s.object.spec.database_connection_reference))
          s.history
          (by_seed env seed s).1
  by_seed-IsProvided seed s e =
      subst
        (λ x.
          (by_seed env x s).0 ≡ ok tt
          → Since (IsProvided s.object (is_nil s.object.spec.database_connection_reference))
              s.history (by_seed env x s).1)
        (sym e) (reconcile_created-IsProvided env keeps s)

  -- If the API server answers a write of a request with the same names and type, and the reconciliation
  -- of a request without a seed returns without an error, from the point on where it has its finalizer,
  -- then either its Ready condition is true, its generation is not above the observed one, and the only
  -- call is the event that tells of the skip; or the database client gave its credentials and, if it had
  -- no connection reference, created its database, its service and secret were there or were created, and
  -- the request was updated with its generation as the observed one.
  pub reconcile_current_skips :
      (s : Run DatabaseRequest)
      → s.object.spec.seed ≡ none
      → (reconcile_current env s).0 ≡ ok tt
      → IsSkipped s (reconcile_current env s).1
        ⊎ Since
            (IsProvided s.object (is_nil s.object.spec.database_connection_reference))
            s.history
            (reconcile_current env s).1
  unfolding reconcile_current is_up_to_date attempt
  reconcile_current_skips s unseeded e = elim (Bool-cases (is_up_to_date env s.object)) [
    | inl current ↦
        let o : DatabaseRequest = s.object in
        let (ready, observed) =
          both_true
            (has_conditions o.status.conditions
              && env.is_status_condition_true o.status.conditions "Ready")
            (int_le o.meta.generation o.status.observed_generation) current in
        rw current (
          inl (record {
            ready =
                (both_true (has_conditions o.status.conditions)
                  (env.is_status_condition_true o.status.conditions "Ready") ready).1;
            observed = observed;
            told = refl;
            same = refl;
          }))
    | inr stale ↦ rw stale (inr (by_seed-IsProvided s.object.spec.seed s unseeded (rw stale at e)))
  ]
