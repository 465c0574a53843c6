-- ===== src/Request/Provision.antt =====
-- What a successful reconciliation of a request has done for it, in the order of the calls.
use dbaas_controller.Prelude.{
  false-is-not-true, ◌<>◌, ◌≡◌, refl, Bool, true, false, some, inl, inr, Bool-cases, if◌then◌else◌,
}
use dbaas_controller.Go.{Error, ok, new_error}
use dbaas_controller.Api.{DatabaseRequest}
use dbaas_controller.Cluster.{Env, History, Run, Exec, raise, get_object, attempt}
use dbaas_controller.Cluster.Triple.{
  Assertion, After, Triple, After-ok, Triple-attempt, Triple-if, Triple-weaken, Keeps-get_object,
  Triple-raised,
}
use dbaas_controller.Cluster.Order.{Made}
use dbaas_controller.Cluster.Since.{
  Since, IsStable, Made-IsStable, Made-append, Since-weaken, Since-refl, And,
}
use dbaas_controller.Cluster.Failing.{Fails-Triple, Failed-NotOk}
use dbaas_controller.Request.Obtained.{
  Created, Fetched, faulted, create_relational-Created, rel_db_info-Fetched,
}
use dbaas_controller.Cluster.Held.{Triple-holding, With, Triple-read}
use dbaas_controller.Request.Named.{Named, KeepsNames, rel_db_info-Holds, create_relational-Holds}
use dbaas_controller.Request.Present.{ServiceThere, SecretThere, Updated, provide-There}
use dbaas_controller.Request.Cleared.{AnyCall}
use dbaas_controller.Request.Failing.{handle_error-Fails, provide-Fails, reconcile_created-Failed}
use dbaas_controller.Request.Faults.{handle_error}
use dbaas_controller.Request.Operation.{
  is_relational, create_relational, create_database, rel_db_info, set_observed_reference,
}
use dbaas_controller.Request.Deletion.{is_nil}
use dbaas_controller.Request.Reconcile.{provide, reconcile_info, reconcile_created}

-- What was done for the request `r`, which had no connection reference before if `fresh`
pub record IsProvided (r : DatabaseRequest) (fresh : Bool) (a : History) : Type 0 where
  pub created : fresh ≡ true → Made (Created r) a
  pub fetched : Made (Fetched r) a
  pub service : Made (ServiceThere r) a
  pub secret : Made (SecretThere r) a
  pub updated : Made (Updated r) a

module _ (env : Env) (keeps : KeepsNames env) where
  abbrev CreatedIf : DatabaseRequest → Bool → History → Type 0
  CreatedIf r fresh a = fresh ≡ true → Made (Created r) a

  CreatedIf-IsStable : (r : DatabaseRequest) (fresh : Bool) → IsStable AnyCall (CreatedIf r fresh)
  CreatedIf-IsStable r fresh = record { extend = λ b a p f e. Made-append (Created r) b a (f e) }

  abbrev Provided : DatabaseRequest → Bool → History → Assertion DatabaseRequest
  Provided r fresh h = Since (IsProvided r fresh) h

  module _ (h : History) (r : DatabaseRequest) where
    relational-Provided :
        (fresh : Bool) (handle : Error → Exec DatabaseRequest (Unit {0}))
        → ((e : Error) → Triple (λ _. Unit) (handle e) (λ _. Provided r fresh h) (λ _. Unit))
        → Triple
            (With (Named r) (Since (CreatedIf r fresh) h))
            (attempt (rel_db_info env) handle (λ i. provide env (some i)))
            (λ _. Provided r fresh h)
            (λ _. Unit)
    relational-Provided fresh handle k =
        let st = CreatedIf-IsStable r fresh in
        let fetched = Made-IsStable AnyCall (CreatedIf r fresh) (Fetched r) st in
        Triple-attempt (λ _. With (Named r) (Since (And (CreatedIf r fresh) (Fetched r)) h))
          (λ _. Unit) _ _ _
          (Triple-holding (Named r) _ (rel_db_info-Holds env keeps r)
            (rel_db_info-Fetched env h r (CreatedIf r fresh) st))
          k
          (λ i.
            Triple-weaken _ _ _ _ (λ s c. c)
              (λ _ s c.
                Since-weaken _ _
                  (λ a ((((d, f), x), y), u). record {
                    created = d;
                    fetched = f;
                    service = x;
                    secret = y;
                    updated = u;
                  })
                  c)
              (λ s c. c) (provide-There env h r (And (CreatedIf r fresh) (Fetched r)) fetched i))
          (λ s c. c)

    info_failed :
        (fresh : Bool) (e : Error)
        → Triple
            (λ _. Unit)
            (attempt get_object raise
              (λ o'. handle_error env ("get-" <> o'.spec.type <> "-database-info") e false))
            (λ _. Provided r fresh h)
            (λ _. Unit)
    info_failed fresh e =
        Triple-attempt (λ _ _. Unit) (λ _. Unit) _ _ _ Keeps-get_object Triple-raised
          (λ o. faulted env h _ e) (λ s c. tt)

    reconcile_info-Provided :
        (fresh : Bool)
        → Triple
            (With (Named r) (Since (CreatedIf r fresh) h))
            (reconcile_info env)
            (λ _. Provided r fresh h)
            (λ _. Unit)
    unfolding reconcile_info attempt set_observed_reference
    reconcile_info-Provided fresh = record {
      at = λ s (j, c). elim (Bool-cases (is_relational s.object.spec.type)) [
        | inl kind ↦ rw kind (
            (relational-Provided fresh _ (info_failed fresh)).at _
              (record { it = j.it }, record { added = c.added; grows = c.grows; holds = c.holds }))
        | inr other ↦ rw other (
            (Fails-Triple {pre = λ _. Unit} {post = λ _. Provided r fresh h} _
                (provide-Fails env)).at
              _ tt)
      ];
    }

    created-Provided :
        Triple
          (With (Named r) (Since (λ a. Unit) h))
          (attempt
            (create_relational env)
            (λ e. handle_error env "create-database" e false)
            (λ _. attempt get_object raise (λ o'.
              if is_nil o'.spec.database_connection_reference
              then handle_error env "missing-connection-reference"
                  (new_error "missing database connection reference")
                  false
              else reconcile_info env)))
          (λ _. Provided r true h)
          (λ _. Unit)
    created-Provided =
        let any : IsStable AnyCall (λ a. Unit {0}) = record { extend = λ b a p q. tt } in
        Triple-attempt (λ _. With (Named r) (Since (And (λ a. Unit) (Created r)) h)) (λ _. Unit) _ _
          _
          (Triple-holding (Named r) _ (create_relational-Holds env keeps r)
            (create_relational-Created env h r (λ a. Unit) any))
          (faulted env h _)
          (λ _.
            Triple-weaken (With (Named r) (Since (CreatedIf r true) h)) _ _ _
              (λ s (j, c). (j, Since-weaken _ (CreatedIf r true) (λ a (u, m) e. m) c)) (λ _ s c. c)
              (λ s c. c)
              (Triple-read (Named r) _ (λ o' n.
                Triple-if (is_nil o'.spec.database_connection_reference) _ _
                  (λ _. Fails-Triple _ (handle_error-Fails env _ _))
                  (λ _. reconcile_info-Provided true))))
          (λ s c. c)

  created-After :
      (s : Run DatabaseRequest)
      → is_relational s.object.spec.type ≡ true
      → (b : Bool) → is_nil s.object.spec.database_connection_reference ≡ b
      → After
          (λ _. Provided s.object b s.history)
          (λ _. Unit)
          (reconcile_created env s).0
          (reconcile_created env s).1
  unfolding reconcile_created create_database attempt
  created-After s r true n = rw n (
      rw r (
        (created-Provided s.history s.object).at s
          (record { it = refl }, Since-refl (λ a. Unit) s tt)))
  created-After s r false n = rw n (
      (reconcile_info-Provided s.history s.object false).at s (
        record { it = refl },
        Since-refl (CreatedIf s.object false) s (λ e. absurd (false-is-not-true e)),
      ))

  -- If the API server answers a write of a request with the same names and type, and the reconciliation of
  -- a request without a seed succeeds from the creation of its database on, then the database client gave
  -- the credentials of the request's name, namespace and type, the service and the secret of its names were
  -- there or were created, the request was updated with its generation as the observed one, and if it had
  -- no connection reference before, the database client created the database of its name, namespace and
  -- type.
  pub reconcile_created-IsProvided :
      (s : Run DatabaseRequest)
      → (reconcile_created env s).0 ≡ ok tt
      → Since
          (IsProvided s.object (is_nil s.object.spec.database_connection_reference))
          s.history
          (reconcile_created env s).1
  reconcile_created-IsProvided s e = elim (Bool-cases (is_relational s.object.spec.type)) [
    | inr other ↦ absurd (Failed-NotOk _ tt (reconcile_created-Failed env s other) e)
    | inl r ↦
        After-ok
          (λ _. Provided s.object (is_nil s.object.spec.database_connection_reference) s.history)
          (λ _. Unit) _ _ tt e (created-After s r _ refl)
  ]
