-- ===== src/Request/Obtained.antt =====
-- The calls that create the database of a request and fetch its credentials.
use dbaas_controller.Cluster.Held.{With, Triple-read, Triple-under}
use dbaas_controller.Request.Named.{Names, Named}
use dbaas_controller.Prelude.{◌≡◌, ap, String, false, Option, none, some, arith}
use dbaas_controller.Go.{Error}
use dbaas_controller.Api.{DatabaseRequest, RelationalDatabaseProvider}
use dbaas_controller.Cluster.{Call, Outcome, done, Event, Env, History}
use dbaas_controller.Cluster.Triple.{
  Assertion, Triple, Keeps, Triple-attempt, Triple-wrapping, Triple-pure, Triple-raise,
  Keeps-get_object, Triple-raised,
}
use dbaas_controller.Cluster.Order.{Only, only_rules}
use dbaas_controller.Cluster.Since.{
  Since, IsStable, Made-IsStable, Triple-kept, Triple-called, Triple-step, And,
}
use dbaas_controller.Cluster.Failing.{Fails-Triple}
use dbaas_controller.Conn.{ReldbConn}
use dbaas_controller.Request.Cleared.{AnyCall}
use dbaas_controller.Request.Calls.{
  operation_status-Only, provider_for-Only, connection_for-Only, require_some-Only,
}
use dbaas_controller.Request.Failing.{handle_error-Fails}
use dbaas_controller.Request.Faults.{handle_error}
use dbaas_controller.Request.Info.{DbInfo, empty_info}
use dbaas_controller.Request.Operation.{
  create, info, create_case, info_case, operation_status, require_some,
  relational_database_operation, create_relational, rel_db_info,
}

-- The arguments are those of the request.
abbrev AreNames : DatabaseRequest → String → String → String → Type 0
AreNames r name namespace type =
    (name ≡ r.meta.name) × (namespace ≡ r.meta.namespace) × (type ≡ r.spec.type)

are_names :
    (r o : DatabaseRequest) → Named r o → AreNames r o.meta.name o.meta.namespace o.spec.type
are_names r o n =
    (ap (λ (i : Names). i.name) n, ap (λ (i : Names). i.namespace) n, ap (λ (i : Names). i.type) n)

abbrev CreatedBy : DatabaseRequest → Call → Outcome → Type 0
CreatedBy r (Call.create_database dsn name namespace type username) done =
    AreNames r name namespace type
CreatedBy r _ _ = ⊥

-- The database client created the database of the request.
abbrev pub Created : DatabaseRequest → Event → Type 0
Created r e = CreatedBy r e.call e.outcome

abbrev FetchedBy : DatabaseRequest → Call → Outcome → Type 0
FetchedBy r (Call.get_database_info dsn name namespace type) done = AreNames r name namespace type
FetchedBy r _ _ = ⊥

-- The database client gave the credentials of the request.
abbrev pub Fetched : DatabaseRequest → Event → Type 0
Fetched r e = FetchedBy r e.call e.outcome

module _ (env : Env) (h : History) where
  operation_status-any :
      {g : History} (operation : String) → Keeps (Only AnyCall g) (operation_status env operation)
  operation_status-any operation = operation_status-Only env (omega arith) operation

  require_some-any :
      {g : History} {A : Type 0} (o : Option A) (message : String)
      → Keeps (Only AnyCall g) (require_some env o message)
  require_some-any o message = require_some-Only env (omega arith) o message

  pub faulted :
      {post : Unit {0} → Assertion DatabaseRequest} (p : String) (e : Error)
      → Triple (λ _. Unit) (handle_error env p e false) post (λ _. Unit)
  faulted p e = Fails-Triple _ (handle_error-Fails env p e)

  module _ (r : DatabaseRequest) (Q : History → Type 0) (st : IsStable AnyCall Q) where
    create_case-Created :
        (o : DatabaseRequest) (p : RelationalDatabaseProvider) (conn : ReldbConn)
        → Named r o
        → Triple
            (Since Q h)
            (create_case env o p conn)
            (λ _. Since (And Q (Created r)) h)
            (λ _. Unit)
    unfolding create_case
    create_case-Created o p conn n =
        Triple-step h Q (And Q (Created r)) _ _ _
          (Triple-wrapping _ _ (Triple-called Q h _ (Created r) _ st (are_names r o n)))
          Triple-raised
          (λ i.
            Triple-kept (And Q (Created r)) h _ (Made-IsStable AnyCall Q (Created r) st)
              (λ g. search (only_rules, operation_status-any) depth 14))

    pub create_relational-Created :
        Triple
          (With (Named r) (Since Q h))
          (create_relational env)
          (λ _. Since (And Q (Created r)) h)
          (λ _. Unit)
    unfolding create_relational relational_database_operation
    create_relational-Created =
        Triple-attempt (λ _. Since (And Q (Created r)) h) (λ _. Unit) _ _ _
          (Triple-attempt (λ _. Since (And Q (Created r)) h) (λ _. Unit) _ _ _
            (Triple-read (Named r) _ (λ o n. Triple-under (Named r) _ (
              Triple-step h Q Q _ _ _
                (Triple-kept Q h _ st (λ g. provider_for-Only env (omega arith) create o))
                Triple-raised
                (λ (p, name).
                  Triple-step h Q Q _ _ _
                    (Triple-kept Q h _ st (λ g. connection_for-Only env (omega arith) create o _))
                    Triple-raised
                    (λ conn.
                      Triple-step h Q (And Q (Created r)) _ _ _ (create_case-Created o p conn n)
                        Triple-raised (λ _. Triple-pure none (λ s c. c)))))))
            (λ e.
              Triple-attempt (λ _ _. Unit) (λ _. Unit) _ _ _ Keeps-get_object Triple-raised
                (λ o. Triple-raise _ (λ s c. tt)) (λ s c. tt))
            (λ _. Triple-pure tt (λ s c. c)) (λ s c. c))
          Triple-raised
          (λ _.
            Triple-kept (And Q (Created r)) h _ (Made-IsStable AnyCall Q (Created r) st)
              (λ g. search (only_rules, require_some-any) depth 14))
          (λ s c. c)

    info_case-Fetched :
        (o : DatabaseRequest) (conn : ReldbConn) (i : DbInfo)
        → Named r o
        → Triple
            (Since Q h)
            (info_case env o conn (some i))
            (λ _. Since (And Q (Fetched r)) h)
            (λ _. Unit)
    unfolding info_case
    info_case-Fetched o conn i n =
        Triple-step h Q (And Q (Fetched r)) _ _ _
          (Triple-wrapping _ _ (Triple-called Q h _ (Fetched r) _ st (are_names r o n)))
          Triple-raised (λ x. Triple-pure _ (λ s c. c))

    pub rel_db_info-Fetched :
        Triple
          (With (Named r) (Since Q h))
          (rel_db_info env)
          (λ _. Since (And Q (Fetched r)) h)
          (λ _. Unit)
    unfolding rel_db_info relational_database_operation
    rel_db_info-Fetched =
        Triple-attempt (λ _. Since (And Q (Fetched r)) h) (λ _. Unit) _ _ _
          (Triple-wrapping _ _ (
            Triple-read (Named r) _ (λ o n. Triple-under (Named r) _ (
              Triple-step h Q Q _ _ _
                (Triple-kept Q h _ st (λ g. provider_for-Only env (omega arith) info o))
                Triple-raised
                (λ (p, name).
                  Triple-step h Q Q _ _ _
                    (Triple-kept Q h _ st (λ g. connection_for-Only env (omega arith) info o _))
                    Triple-raised (λ conn. info_case-Fetched o conn empty_info n))))))
          Triple-raised (λ i. Triple-pure _ (λ s c. c)) (λ s c. c)
