-- ===== src/Request/DeletionDone.antt =====
-- What a deletion that succeeds has taken away.
use dbaas_controller.Prelude.{
  ◌<>◌, ◌==◌, String, ◌≡◌, refl, Bool, true, false, inl, inr, Bool-cases, if◌then◌else◌, arith,
  true-is-not-false, sym, ◌∙◌,
}
use dbaas_controller.Go.{Error, ok}
use dbaas_controller.Api.{DatabaseRequest}
use dbaas_controller.Cluster.{Env, History, Run, Exec, raise, get_object, attempt}
use dbaas_controller.Cluster.Triple.{
  Assertion, After, Triple, After-ok, Triple-attempt, Triple-weaken, Keeps-get_object,
  Triple-raised,
}
use dbaas_controller.Cluster.Held.{Triple-holding, With, Triple-read, Triple-under, Triple-with}
use dbaas_controller.Request.Named.{Named, KeepsNames, delete_service-Holds, rel_db_deletion-Holds}
use dbaas_controller.Cluster.Since.{
  Since, And, IsStable, Made-IsStable, Since-weaken, Since-refl, Triple-kept, Triple-step,
}
use dbaas_controller.Cluster.Failing.{Fails-Triple}
use dbaas_controller.Request.Faults.{handle_error, invalid_database_type}
use dbaas_controller.Request.Failing.{handle_error-Fails}
use dbaas_controller.Request.Cleared.{
  NotUpdate, AnyCall, Dropped, ServiceGone, SecretGone, rel_db_deletion-made, delete_service-gone,
  delete_secret-gone,
}
use dbaas_controller.Request.DeletionOrder.{
  Cleared, any, Cleared-IsStable, DroppedIf, DroppedIf-IsStable, must_drop,
}
use dbaas_controller.Request.DeletionCalls.{remove_finalizer-Only}
use dbaas_controller.Request.Operation.{mongodb_type, is_relational, rel_db_deletion}
use dbaas_controller.Request.Deletion.{drops, delete_resources, delete_database}

NotUpdate-IsStable : (Q : History → Type 0) → IsStable AnyCall Q → IsStable NotUpdate Q
NotUpdate-IsStable Q st = record { extend = λ b a p q. st.extend b a (any b) q }

module _ (env : Env) (keeps : KeepsNames env) (h : History) (r : DatabaseRequest) where
  failing :
      {post : Unit {0} → Assertion DatabaseRequest} (p : String) (e : Error)
      → Triple (λ _. Unit) (handle_error env p e false) post (λ _. Unit)
  failing p e = Fails-Triple _ (handle_error-Fails env p e)

  -- Nothing more is asked where it fails.
  ending :
      {Q Q' : History → Type 0} {m : Exec DatabaseRequest (Unit {0})}
      → Triple (Since Q h) m (λ _. Since Q' h) (Since Q h)
      → Triple (Since Q h) m (λ _. Since Q' h) (λ _. Unit)
  ending {Q} {Q'} t =
      Triple-weaken (Since Q h) (λ _. Since Q' h) (Since Q h) _ (λ s c. c) (λ _ s c. c) (λ s c. tt)
        t

  module _ (D : History → Type 0) (st : IsStable AnyCall D) where
    abbrev WithoutService : History → Type 0
    WithoutService = And D (ServiceGone r)

    abbrev WithoutBoth : History → Type 0
    WithoutBoth = And WithoutService (SecretGone r)

    service-IsStable : IsStable AnyCall WithoutService
    service-IsStable = Made-IsStable AnyCall D (ServiceGone r) st

    resources-Cleared :
        Triple
          (With (Named r) (Since D h))
          (delete_resources env)
          (λ _. Since (Cleared r D) h)
          (λ _. Unit)
    unfolding delete_resources
    resources-Cleared = Triple-read (Named r) _ (λ o n.
        Triple-attempt (λ _. With (Named r) (Since WithoutService h)) (λ _. Unit) _ _ _
          (Triple-with (Named r) _ (delete_service-Holds env _)
            (ending (delete_service-gone D h (NotUpdate-IsStable D st) env r o n)))
          (failing _)
          (λ _. Triple-read (Named r) _ (λ o' n'. Triple-under (Named r) _ (
            Triple-step h WithoutService WithoutBoth _ _ _
              (ending (
                delete_secret-gone WithoutService h
                  (NotUpdate-IsStable WithoutService service-IsStable) env r o' n'))
              (failing _)
              (λ _.
                Triple-weaken _ _ _ _
                  (λ s c. Since-weaken WithoutBoth (Cleared r D) (λ a ((d, x), y). (d, x, y)) c)
                  (λ _ s c. c) (λ s c. c)
                  (Triple-kept (Cleared r D) h _ (Cleared-IsStable r D st)
                    (λ g. remove_finalizer-Only env (omega arith) (omega arith) (omega arith)))))))
          (λ s c. tt))

  dropping-Cleared :
      (b : Bool)
      → Triple
          (With (Named r) (Since (λ a. Unit) h))
          (attempt
            (rel_db_deletion env)
            (λ e.
              attempt get_object raise (λ o'. handle_error env (o'.spec.type <> "-drop") e false))
            (λ _. delete_resources env))
          (λ _. Since (Cleared r (DroppedIf r b)) h)
          (λ _. Unit)
  dropping-Cleared b =
      Triple-attempt (λ _. With (Named r) (Since (And (λ a. Unit) (Dropped r)) h)) (λ _. Unit) _ _ _
        (Triple-weaken _ _ _ _ (λ s c. c) (λ _ s c. c) (λ s c. tt)
          (Triple-holding (Named r) _ (rel_db_deletion-Holds env keeps r)
            (rel_db_deletion-made (λ a. Unit) h (record { extend = λ b a p q. tt }) env r)))
        (λ e.
          Triple-attempt (λ _ _. Unit) (λ _. Unit) _ _ _ Keeps-get_object Triple-raised
            (λ o. failing _ e) (λ s c. tt))
        (λ _.
          Triple-weaken _ _ _ _
            (λ s (j, c). (j, Since-weaken _ (DroppedIf r b) (λ a (u, d) e. d) c)) (λ _ s c. c)
            (λ s c. c) (resources-Cleared (DroppedIf r b) (DroppedIf-IsStable r b)))
        (λ s c. tt)

module _ (env : Env) (keeps : KeepsNames env) where
  kept-Cleared :
      (b : Bool) (s : Run DatabaseRequest)
      → b ≡ false
      → After
          (λ _. Since (Cleared s.object (DroppedIf s.object b)) s.history)
          (λ _. Unit)
          (delete_resources env s).0
          (delete_resources env s).1
  kept-Cleared b s e =
      (resources-Cleared env keeps s.history s.object (DroppedIf s.object b)
          (DroppedIf-IsStable s.object b)).at
        s
        (
          record { it = refl },
          Since-refl (DroppedIf s.object b) s (λ t. absurd (true-is-not-false (sym t ∙ e))),
        )

  unsupported-Cleared :
      (s : Run DatabaseRequest)
      → let m : Exec DatabaseRequest (Unit {0}) =
          if s.object.spec.type == mongodb_type
          then delete_resources env
          else handle_error env "invalid-database-type" invalid_database_type false in
        After
          (λ _. Since (Cleared s.object (DroppedIf s.object false)) s.history)
          (λ _. Unit)
          (m s).0
          (m s).1
  unsupported-Cleared s = elim (Bool-cases (s.object.spec.type == mongodb_type)) [
    | inl m ↦ rw m (kept-Cleared false s refl)
    | inr n ↦ rw n (
        (failing env keeps s.history s.object
            {post = λ _. Since (Cleared s.object (DroppedIf s.object false)) s.history}
            "invalid-database-type" invalid_database_type).at
          s tt)
  ]

  delete_database-After :
      (s : Run DatabaseRequest)
      → After
          (λ _. Since (Cleared s.object (DroppedIf s.object (must_drop s.object))) s.history)
          (λ _. Unit)
          (delete_database env s).0
          (delete_database env s).1
  unfolding delete_database attempt
  delete_database-After s = elim (Bool-cases (drops s.object)) [
    | inr keeps ↦ rw keeps (kept-Cleared false s refl)
    | inl dropped ↦ rw dropped (elim (Bool-cases (is_relational s.object.spec.type)) [
      | inl kind ↦ rw kind (
          (dropping-Cleared env keeps s.history s.object true).at s
            (record { it = refl }, Since-refl (λ a. Unit) s tt))
      | inr other ↦ rw other (unsupported-Cleared s)
    ])
  ]

  -- If the API server answers a write of a request with the same names and type, and a deletion returns
  -- without an error, then the service and the secret of the names of the request were deleted or found
  -- missing in it, and, if the request asks for the drop of a MySQL or PostgreSQL database, the database
  -- client dropped the one of its name, namespace and type.
  pub delete_database-Cleared :
      (s : Run DatabaseRequest)
      → (delete_database env s).0 ≡ ok tt
      → Since
          (Cleared s.object (DroppedIf s.object (must_drop s.object)))
          s.history
          (delete_database env s).1
  delete_database-Cleared s e =
      After-ok (λ _. Since (Cleared s.object (DroppedIf s.object (must_drop s.object))) s.history)
        (λ _. Unit) _ _ tt e (delete_database-After s)
