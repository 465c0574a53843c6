-- ===== src/Request/DeletionOrder.antt =====
-- The order of the calls of a deletion: the finalizer is what keeps the request, and it goes last.
use dbaas_controller.Prelude.{
  ◌<>◌, ◌==◌, String, ◌≡◌, refl, Bool, true, false, ◌&&◌, inl, inr, Bool-cases, [], ◌∷◌, All,
  if◌then◌else◌, arith,
}
use dbaas_controller.Go.{Error}
use dbaas_controller.Api.{DatabaseRequest}
use dbaas_controller.Cluster.{Env, History, Run, Exec, raise, get_object, attempt}
use dbaas_controller.Cluster.Triple.{
  Assertion, Triple, Keeps, Triple-attempt, Triple-raise, Triple-weaken, Keeps-get_object,
  Triple-run,
}
use dbaas_controller.Cluster.Held.{Triple-holding, With, Triple-read, Triple-under, Triple-with}
use dbaas_controller.Request.Named.{Named, KeepsNames, delete_service-Holds, rel_db_deletion-Holds}
use dbaas_controller.Cluster.Order.{Made, Follows, Follows-none}
use dbaas_controller.Request.Faults.{invalid_database_type, handle_error}
use dbaas_controller.Request.Resources.{own_secret_key}
use dbaas_controller.Request.Calls.{handle_error-Only}
use dbaas_controller.Cluster.Since.{
  Since, IsStable, Follows-IsStable, All-IsStable, Made-IsStable, Made-append, Keeps-Since,
  Since-weaken, Since-refl,
}
use dbaas_controller.Request.Cleared.{
  IsUpdate, NotUpdate, AnyCall, Dropped, rel_db_deletion-made, ServiceGone, SecretGone, NoUpdates,
  delete_service-gone, delete_secret-gone,
}
use dbaas_controller.Request.Operation.{mongodb_type, is_relational, rel_db_deletion}
use dbaas_controller.Request.Deletion.{
  drops, delete_secret, remove_finalizer, delete_resources, delete_database,
}
use dbaas_controller.Request.DeletionCalls.{remove_finalizer-Only}

-- What has been done before the finalizer goes, beside `D`
abbrev pub Cleared : DatabaseRequest → (History → Type 0) → History → Type 0
Cleared r D a = D a × Made (ServiceGone r) a × Made (SecretGone r) a

no_updates : (R : History → Type 0) (a : History) → NoUpdates a → Follows IsUpdate R a
no_updates R a n = Follows-none IsUpdate R a n

pub Cleared-IsStable :
    (r : DatabaseRequest) (D : History → Type 0)
    → IsStable AnyCall D
    → IsStable AnyCall (Cleared r D)
Cleared-IsStable r D st = record {
  extend = λ b a p (d, m, n).
      (st.extend b a p d, Made-append (ServiceGone r) b a m, Made-append (SecretGone r) b a n);
}

pub any : (a : History) → All (λ e. AnyCall e.call) a
any [] = tt
any (e ∷ a) = (tt, any a)

pending-IsStable :
    (D : History → Type 0) → IsStable AnyCall D → IsStable NotUpdate (λ a. NoUpdates a × D a)
pending-IsStable D st = record {
  extend = λ b a p (n, d). ((All-IsStable NotUpdate).extend b a p n, st.extend b a (any b) d);
}

module _ (env : Env) (r : DatabaseRequest) (D : History → Type 0) (h : History) where
  abbrev Ordered : Assertion DatabaseRequest
  Ordered = Since (Follows IsUpdate (Cleared r D)) h

  module _ (Q : History → Type 0) (st : IsStable NotUpdate Q)
      (none_yet : (a : History) → Q a → NoUpdates a) where
    give_up : (s : Run DatabaseRequest) → Since Q h s → Ordered s
    give_up s c = Since-weaken Q _ (λ a q. Follows-none IsUpdate (Cleared r D) a (none_yet a q)) c

    faulted :
        (p : String) (e : Error) (b : Bool)
        → Triple (Since Q h) (handle_error env p e b) (λ _. Ordered) Ordered
    faulted p e b =
        Triple-weaken (Since Q h) (λ _. Since Q h) (Since Q h) _ (λ s c. c) (λ _ s c. give_up s c)
          give_up (Keeps-Since NotUpdate Q h _ st (λ g. handle_error-Only env (omega arith) p e b))

  module _ (st : IsStable AnyCall D) where
    remove_finalizer-order :
        Keeps
          (Since (λ a. Cleared r D a × Follows IsUpdate (Cleared r D) a) h)
          (remove_finalizer env)
    remove_finalizer-order =
        Keeps-Since AnyCall _ h _
          (Follows-IsStable IsUpdate (Cleared r D) (Cleared-IsStable r D st))
          (λ g. remove_finalizer-Only env (omega arith) (omega arith) (omega arith))

    abbrev Pending : History → Type 0
    Pending a = NoUpdates a × D a

    abbrev WithoutService : History → Type 0
    WithoutService a = Pending a × Made (ServiceGone r) a

    abbrev WithoutSecret : History → Type 0
    WithoutSecret a = WithoutService a × Made (SecretGone r) a

    WithoutService-IsStable : IsStable NotUpdate WithoutService
    WithoutService-IsStable =
        Made-IsStable NotUpdate Pending (ServiceGone r) (pending-IsStable D st)

    finalizer-order : Triple (Since WithoutSecret h) (remove_finalizer env) (λ _. Ordered) Ordered
    finalizer-order =
        Triple-weaken _ _ _ _
          (λ s c.
            Since-weaken WithoutSecret _
              (λ a (((n, d), m), k). ((d, m, k), Follows-none IsUpdate (Cleared r D) a n)) c)
          (λ _ s c. Since-weaken _ _ (λ a q. q.1) c) (λ s c. Since-weaken _ _ (λ a q. q.1) c)
          remove_finalizer-order

    secret-order :
        Triple
          (With (Named r) (Since WithoutService h))
          (attempt get_object raise (λ o.
            attempt
              (delete_secret env (own_secret_key o))
              (λ e. handle_error env "delete-secret" e false)
              (λ _. remove_finalizer env)))
          (λ _. Ordered)
          Ordered
    secret-order =
        let up = give_up WithoutService WithoutService-IsStable (λ a q. q.0.0) in
        Triple-read (Named r) _ (λ o n. Triple-under (Named r) _ (
          Triple-attempt (λ _. Since WithoutSecret h) (Since WithoutService h) _ _ _
            (delete_secret-gone WithoutService h WithoutService-IsStable env r o n)
            (λ e. faulted WithoutService WithoutService-IsStable (λ a q. q.0.0) _ e false)
            (λ _. finalizer-order) up))

    -- From the deletion of the service on
    pub resources-order :
        Triple (With (Named r) (Since Pending h)) (delete_resources env) (λ _. Ordered) Ordered
    unfolding delete_resources
    resources-order =
        let up = give_up Pending (pending-IsStable D st) (λ a q. q.0) in
        Triple-read (Named r) _ (λ o n.
          Triple-attempt (λ _. With (Named r) (Since WithoutService h)) (Since Pending h) _ _ _
            (Triple-with (Named r) _ (delete_service-Holds env _)
              (delete_service-gone Pending h (pending-IsStable D st) env r o n))
            (λ e. faulted Pending (pending-IsStable D st) (λ a q. q.0) _ e false)
            (λ _. secret-order) up)

abbrev pub DroppedIf : DatabaseRequest → Bool → History → Type 0
DroppedIf r b a = b ≡ true → Made (Dropped r) a

-- The deletion of the request is to drop its database in a relational database.
abbrev pub must_drop : DatabaseRequest → Bool
must_drop o = drops o && is_relational o.spec.type

pub DroppedIf-IsStable : (r : DatabaseRequest) (b : Bool) → IsStable AnyCall (DroppedIf r b)
DroppedIf-IsStable r b = record { extend = λ c a p d e. Made-append (Dropped r) c a (d e) }

module _ (env : Env) (keeps : KeepsNames env) where
  module _ (h : History) (r : DatabaseRequest) where
    undropped-order :
        (b : Bool) (s : Run DatabaseRequest)
        → b ≡ false
        → With (Named r) (Since NoUpdates h) s
        → Ordered env r (DroppedIf r b) h (delete_resources env s).1
    undropped-order b s e (j, c) =
        Triple-run _ (Ordered env r (DroppedIf r b) h) _
          (resources-order env r (DroppedIf r b) h (DroppedIf-IsStable r b)) s
          (j, Since-weaken NoUpdates _ (λ a n. (n, λ t. cc)) c)

    dropping-order :
        (b : Bool)
        → Triple
            (With (Named r) (Since NoUpdates h))
            (attempt
              (rel_db_deletion env)
              (λ e.
                attempt get_object raise (λ o'. handle_error env (o'.spec.type <> "-drop") e false))
              (λ _. delete_resources env))
            (λ _. Ordered env r (DroppedIf r b) h)
            (Ordered env r (DroppedIf r b) h)
    dropping-order b =
        let up = give_up env r (DroppedIf r b) h NoUpdates (All-IsStable NotUpdate) (λ a n. n) in
        Triple-attempt (λ _. With (Named r) (Since (λ a. NoUpdates a × Made (Dropped r) a) h))
          (Since NoUpdates h) _ _ _
          (Triple-holding (Named r) _ (rel_db_deletion-Holds env keeps r)
            (rel_db_deletion-made NoUpdates h (All-IsStable NotUpdate) env r))
          (λ e.
            Triple-attempt (λ _. Since NoUpdates h) (Since NoUpdates h) _ _ _ Keeps-get_object
              (λ x. Triple-raise x up)
              (λ o.
                faulted env r (DroppedIf r b) h NoUpdates (All-IsStable NotUpdate) (λ a n. n) _ e
                  false)
              up)
          (λ _.
            Triple-weaken _ _ _ _
              (λ s (j, c). (
                j,
                Since-weaken (λ a. NoUpdates a × Made (Dropped r) a) _ (λ a (n, d). (n, λ t. d)) c,
              ))
              (λ _ s c. c) (λ s c. c)
              (resources-order env r (DroppedIf r b) h (DroppedIf-IsStable r b)))
          up

    unsupported-order :
        (s : Run DatabaseRequest)
        → With (Named r) (Since NoUpdates h) s
        → let m : Exec DatabaseRequest (Unit {0}) =
            if s.object.spec.type == mongodb_type
            then delete_resources env
            else handle_error env "invalid-database-type" invalid_database_type false in
          Ordered env r (DroppedIf r false) h (m s).1
    unsupported-order s c = elim (Bool-cases (s.object.spec.type == mongodb_type)) [
      | inl m ↦ rw m (undropped-order false s refl c)
      | inr n ↦ rw n (
          Triple-run (Since NoUpdates h) (Ordered env r (DroppedIf r false) h) _
            (faulted env r (DroppedIf r false) h NoUpdates (All-IsStable NotUpdate) (λ a n. n) _ _
              false)
            s c.1)
    ]

    delete_database-from :
        (s : Run DatabaseRequest)
        → With (Named r) (Since NoUpdates h) s
        → Ordered env r (DroppedIf r (must_drop s.object)) h (delete_database env s).1
    unfolding delete_database attempt
    delete_database-from s c = elim (Bool-cases (drops s.object)) [
      | inr kept ↦ rw kept (undropped-order false s refl c)
      | inl dropped ↦ rw dropped (elim (Bool-cases (is_relational s.object.spec.type)) [
        | inl kind ↦ rw kind (
            Triple-run (With (Named r) (Since NoUpdates h)) (Ordered env r (DroppedIf r true) h) _
              (dropping-order true) s c)
        | inr other ↦ rw other (unsupported-order s c)
      ])
    ]

  -- If the API server answers a write of a request with the same names and type: whatever else the
  -- environment answers, each update that a deletion makes of its request, the one that takes the
  -- finalizer away, comes after the service and the secret of the names of that request were deleted or
  -- found missing, and, if the request asks for the drop of a MySQL or PostgreSQL database, after the
  -- database client dropped the one of its name, namespace and type.
  pub delete_database-order :
      (s : Run DatabaseRequest)
      → Since
          (Follows IsUpdate (Cleared s.object (DroppedIf s.object (must_drop s.object))))
          s.history
          (delete_database env s).1
  delete_database-order s =
      delete_database-from s.history s.object s (record { it = refl }, Since-refl NoUpdates s tt)
