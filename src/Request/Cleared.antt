-- ===== src/Request/Cleared.antt =====
-- What a deletion takes away before the finalizer, as events, and the actions that take it away.
use dbaas_controller.Prelude.{
  String, ◌≡◌, ap, true, false, none, inl, inr, Bool-cases, [], ◌∷◌, All, if◌then◌else◌, arith,
}
use dbaas_controller.Go.{Error, Result, is_not_found, Result-cases}
use dbaas_controller.Api.{DatabaseRequest}
use dbaas_controller.Cluster.{
  Call, Outcome, done, failed, panicked, Event, Env, History, Run, Exec, pure, raise, call, attempt,
  wrapping,
}
use dbaas_controller.Cluster.Triple.{
  Assertion, After, Triple, Keeps, Triple-attempt, Triple-pure, Triple-raise, Triple-weaken,
}
use dbaas_controller.Cluster.Order.{Only, Made}
use dbaas_controller.Request.Calls.{provider_for-Only, connection_for-Only, require_some-Only}
use dbaas_controller.Cluster.Since.{
  Since, IsStable, Made-IsStable, Keeps-Since, Triple-Made, Triple-then, Since-one, Since-weaken,
}
use dbaas_controller.Conn.{ReldbConn, get_dsn}
use dbaas_controller.Request.Operation.{
  drop, drop_case, relational_database_operation, rel_db_deletion,
}
use dbaas_controller.Request.Deletion.{delete_service, delete_secret}
use dbaas_controller.Request.Resources.{service_key, own_secret_key}
use dbaas_controller.Cluster.Held.{With, Triple-read, Triple-under, Triple-with}
use dbaas_controller.Request.Named.{
  Names, Named, service_key-Named, own_secret_key-Named, require_some-Holds,
}
use dbaas_controller.Request.DeletionCalls.{forget_reference-Only}

-- An update of the request, which is what takes the finalizer away
abbrev pub IsUpdate : Call → Type 0
IsUpdate (Call.update_request o) = Unit
IsUpdate _ = ⊥

abbrev pub NotUpdate : Call → Type 0
NotUpdate c = IsUpdate c → ⊥

abbrev pub AnyCall : Call → Type 0
AnyCall c = Unit

abbrev pub IsGone : Outcome → Type 0
IsGone done = Unit
IsGone (failed e) = is_not_found e ≡ true
IsGone _ = ⊥

abbrev pub ServiceGoneBy : DatabaseRequest → Call → Outcome → Type 0
ServiceGoneBy r (Call.delete_service key) o = (key ≡ service_key r) × IsGone o
ServiceGoneBy r _ o = ⊥

abbrev pub SecretGoneBy : DatabaseRequest → Call → Outcome → Type 0
SecretGoneBy r (Call.delete_secret key) o = (key ≡ own_secret_key r) × IsGone o
SecretGoneBy r _ o = ⊥

-- The service, the secret of the request was deleted, or did not exist.
abbrev pub ServiceGone : DatabaseRequest → Event → Type 0
ServiceGone r e = ServiceGoneBy r e.call e.outcome

abbrev pub SecretGone : DatabaseRequest → Event → Type 0
SecretGone r e = SecretGoneBy r e.call e.outcome

abbrev pub NoUpdates : History → Type 0
NoUpdates a = All (λ e. NotUpdate e.call) a

-- What can be taken away without asking whether it is there
module _ (Q : History → Type 0) (h : History) (st : IsStable NotUpdate Q) (c : Call)
    (E : Event → Type 0) (answer : History → Result (Unit {0})) (keeps : NotUpdate c)
    (deleted : E (record { call = c; outcome = done }))
    (missing : (e : Error)
      → is_not_found e ≡ true
      → E (record { call = c; outcome = failed e })) where
  tolerated :
      (e : Error) (s : Run DatabaseRequest)
      → Since Q h s
      → let t : Run DatabaseRequest = record s {
        history = record { call = c; outcome = failed e } ∷ s.history;
      } in
        let m : Exec DatabaseRequest (Unit {0}) = if is_not_found e then pure tt else raise e in
        After (λ _. Since (λ a. Q a × Made E a) h) (Since Q h) (m t).0 (m t).1
  unfolding attempt
  tolerated e s k = elim (Bool-cases (is_not_found e)) [
    | inl m ↦ rw m (
        Since-one (λ a. Q a × Made E a) _ k
          (
            st.extend (record { call = c; outcome = failed e } ∷ []) k.added (keeps, tt) k.holds,
            inl (missing e m),
          ))
    | inr n ↦ rw n (
        Since-one Q _ k
          (st.extend (record { call = c; outcome = failed e } ∷ []) k.added (keeps, tt) k.holds))
  ]

  Triple-tolerant :
      Triple {O = DatabaseRequest}
        (Since Q h)
        (attempt (call c answer) (λ e. if is_not_found e then pure tt else raise e) pure)
        (λ _. Since (λ a. Q a × Made E a) h)
        (Since Q h)
  unfolding attempt
  Triple-tolerant = record {
    at = λ s k. elim (Result-cases (answer s.history)) [
      | inl (u, e) ↦ rw e (
          Since-one (λ a. Q a × Made E a) _ k
            (
              st.extend (record { call = c; outcome = done } ∷ []) k.added (keeps, tt) k.holds,
              inl deleted,
            ))
      | inr (inl (x, e)) ↦ rw e (tolerated x s k)
      | inr (inr e) ↦ rw e (
          Since-one Q _ k
            (st.extend (record { call = c; outcome = panicked } ∷ []) k.added (keeps, tt) k.holds))
    ];
  }

abbrev pub DroppedBy : DatabaseRequest → Call → Outcome → Type 0
DroppedBy r (Call.drop_database dsn name namespace type) done =
    (name ≡ r.meta.name) × (namespace ≡ r.meta.namespace) × (type ≡ r.spec.type)
DroppedBy r _ _ = ⊥

-- The database client dropped the database of the request.
abbrev pub Dropped : DatabaseRequest → Event → Type 0
Dropped r e = DroppedBy r e.call e.outcome

module _ (Q : History → Type 0) (h : History) (st : IsStable NotUpdate Q) (env : Env)
    (r o : DatabaseRequest) (n : Named r o) where
  pub delete_service-gone :
      Triple
        (Since Q h)
        (delete_service env (service_key o))
        (λ _. Since (λ a. Q a × Made (ServiceGone r) a) h)
        (Since Q h)
  unfolding delete_service
  delete_service-gone =
      Triple-tolerant Q h st (Call.delete_service (service_key o)) (ServiceGone r)
        (λ g. env.delete_service g (service_key o)) (λ x. x) (service_key-Named r o n, tt)
        (λ e m. (service_key-Named r o n, m))

  pub delete_secret-gone :
      Triple
        (Since Q h)
        (delete_secret env (own_secret_key o))
        (λ _. Since (λ a. Q a × Made (SecretGone r) a) h)
        (Since Q h)
  unfolding delete_secret
  delete_secret-gone =
      Triple-tolerant Q h st (Call.delete_secret (own_secret_key o)) (SecretGone r)
        (λ g. env.delete_secret g (own_secret_key o)) (λ x. x) (own_secret_key-Named r o n, tt)
        (λ e m. (own_secret_key-Named r o n, m))

module _ (Q : History → Type 0) (h : History) (st : IsStable NotUpdate Q) (env : Env)
    (r : DatabaseRequest) where
  abbrev After_drop : Assertion DatabaseRequest
  After_drop = Since (λ a. Q a × Made (Dropped r) a) h

  still : (s : Run DatabaseRequest) → After_drop s → Since Q h s
  still s c = Since-weaken (λ a. Q a × Made (Dropped r) a) Q (λ a q. q.0) c

  kept :
      {A : Type 0} (m : Exec DatabaseRequest A)
      → ((g : History) → Keeps (Only NotUpdate g) m)
      → Keeps (Since Q h) m
  kept m k = Keeps-Since NotUpdate Q h m st k

  call_drop-made :
      (prefix dsn name namespace type : String)
      → (name ≡ r.meta.name) × (namespace ≡ r.meta.namespace) × (type ≡ r.spec.type)
      → Triple
          (Since Q h)
          (wrapping prefix (
            call
              (Call.drop_database dsn name namespace type)
              (λ g. env.drop_database g dsn name namespace type)))
          (λ _. After_drop)
          (Since Q h)
  call_drop-made prefix dsn name namespace type same =
      Triple-attempt (λ _. After_drop) (Since Q h) _ _ _
        (Triple-Made NotUpdate Q h st _ (Dropped r) _ (λ x. x) same)
        (λ e. Triple-raise _ (λ s c. c)) (λ a. Triple-pure a (λ s c. c)) (λ s c. c)

  drop_case-made :
      (o : DatabaseRequest) (conn : ReldbConn)
      → Named r o
      → Triple (Since Q h) (drop_case env o conn) (λ _. After_drop) (Since Q h)
  unfolding drop_case
  drop_case-made o conn n =
      Triple-attempt (λ _. After_drop) (Since Q h) _ _ _
        (call_drop-made _ (get_dsn conn false) o.meta.name o.meta.namespace o.spec.type (
          ap (λ (i : Names). i.name) n,
          ap (λ (i : Names). i.namespace) n,
          ap (λ (i : Names). i.type) n,
        ))
        (λ e. Triple-raise e (λ s c. c))
        (λ _.
          Triple-weaken After_drop (λ _. After_drop) After_drop _ (λ s c. c) (λ _ s c. c) still
            (Keeps-Since NotUpdate (λ a. Q a × Made (Dropped r) a) h _
              (Made-IsStable NotUpdate Q (Dropped r) st)
              (λ g. forget_reference-Only env (omega arith) (omega arith) (λ a b c d x. x) o)))
        (λ s c. c)

  drop_operation-made :
      Triple
        (With (Named r) (Since Q h))
        (relational_database_operation env drop none)
        (λ _. After_drop)
        (Since Q h)
  unfolding relational_database_operation
  drop_operation-made = Triple-read (Named r) _ λ o n. Triple-under (Named r) _ (
      Triple-then (Since Q h) _ _ _ (kept _ (λ g. provider_for-Only env (omega arith) drop o))
        λ (p, name).
          Triple-then (Since Q h) _ _ _
            (kept _ (λ g. connection_for-Only env (omega arith) drop o _))
            λ conn.
              Triple-attempt (λ _. After_drop) (Since Q h) _ _ _ (drop_case-made o conn n)
                (λ e. Triple-raise e (λ s c. c)) (λ _. Triple-pure none (λ s c. c)) (λ s c. c))

  pub rel_db_deletion-made :
      Triple (With (Named r) (Since Q h)) (rel_db_deletion env) (λ _. After_drop) (Since Q h)
  unfolding rel_db_deletion
  rel_db_deletion-made = Triple-read (Named r) _ λ o n.
      Triple-attempt (λ _. With (Named r) (Since Q h)) (Since Q h) _ _ _
        (Triple-with (Named r) _ (require_some-Holds env _ _)
          (kept _ (λ g. require_some-Only env (omega arith) _ _)))
        (λ e. Triple-raise e (λ s c. c))
        (λ _.
          Triple-attempt (λ _. After_drop) (Since Q h) _ _ _ drop_operation-made
            (λ e. Triple-raise e (λ s c. c)) (λ _. Triple-pure tt (λ s c. c)) (λ s c. c))
        (λ s c. c)
