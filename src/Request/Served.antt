-- ===== src/Request/Served.antt =====
-- The operations on the database client in a cluster that answers.
use mathlib.Core.Path.{subst}
use dbaas_controller.Prelude.{String, some-injective, sym, ap, List, Option, none, some, ◌≡◌, refl}
use dbaas_controller.Api.{
  Connection, DatabaseInfo, DatabaseConnectionReference, DatabaseRequest, DatabaseRequestSpec,
  DatabaseRequestStatus, RelationalDatabaseProvider,
}
use dbaas_controller.Cluster.{Env}
use dbaas_controller.Cluster.Returning.{
  Returns, Returns-pure, Returns-call, Returns-call_object, Returns-weaken, Returns-attempt,
  Returns-read, Returns-given, Returns-wrapping, Returns-put_object, Returns-put_known,
}
use dbaas_controller.Conn.{ReldbConn}
use dbaas_controller.Request.Lowest.{OneOf}
use dbaas_controller.Request.Providers.{reference_to}
use dbaas_controller.Request.Operation.{
  find_connection, create, info, connection_for, create_case, info_case, provider_for,
  referenced_provider, operation_status, relational_database_operation, require_some,
  create_relational, rel_db_info, set_reference, set_observed_reference, set_database_info,
}
use dbaas_controller.Request.Serving.{ClusterServes, ClientServes, HasRoom}
use dbaas_controller.Request.Asked.{connection_password-Returns}
use dbaas_controller.Request.Search.{find-Returns}
use dbaas_controller.Request.Reference.{find-listed, Resolves, IsReferenced}

module _ (env : Env) (ps : List RelationalDatabaseProvider) (cluster : ClusterServes env ps)
    (client : ClientServes env) where
  -- The name is that of a connection of the provider.
  abbrev ConnectionOf : RelationalDatabaseProvider → ReldbConn → Type 0
  ConnectionOf p conn = (c : Connection) × OneOf c p.spec.connections × (conn.name ≡ c.name)

  -- The connection of the name, with its password
  connection_for-Returns :
      {P : DatabaseRequest → Type 0} (operation : String) (o : DatabaseRequest)
      (p : RelationalDatabaseProvider) (name : String) (c : Connection)
      → OneOf p ps
      → OneOf c p.spec.connections
      → name ≡ c.name
      → Returns P
          (connection_for env operation o (find_connection name p.spec.connections none))
          (λ conn y. P y × ConnectionOf p conn)
  unfolding connection_for
  connection_for-Returns operation o p name c among offered named =
      let (d, found, m) = find-listed name p.spec.connections none c offered named in
      rw found (
        Returns-attempt _ _ _ _ (connection_password-Returns env ps cluster client _ _ p d among m)
          (λ password. Returns-pure _ (λ y x. (x, (d, m, refl)))))

  operation_status-Returns :
      (operation : String) (x : DatabaseRequest)
      → Returns
          (λ o. o ≡ x)
          (operation_status env operation)
          (λ _ o. (o.spec ≡ x.spec) × (o.status ≡ x.status))
  unfolding operation_status
  operation_status-Returns operation x =
      Returns-attempt _ _ _ _
        (Returns-call_object {Q = λ o. (o.spec ≡ x.spec) × (o.status ≡ x.status)} _ _
          (λ h o same. rw same (let (e, k, l) = cluster.statuses h x in (tt, e, (k, l)))))
        (λ _. Returns-pure tt (λ o k. k))

  create_case-Returns :
      {P : DatabaseRequest → Type 0} (x : DatabaseRequest) (p : RelationalDatabaseProvider)
      (conn : ReldbConn)
      → Returns P (create_case env x p conn) (λ _ o.
        (o.spec ≡ record x.spec { database_connection_reference = some (reference_to p conn.name) })
        × ((i : DatabaseInfo) × (o.status.database_info ≡ some i)))
  unfolding create_case set_reference set_observed_reference set_database_info
  create_case-Returns {P} x p conn =
      Returns-attempt _ _ _ _
        (Returns-wrapping _ _ (Returns-call {P = P} _ _ _ (client.created _ _ _ _ _)))
        (λ created. Returns-attempt _ _ _ _ (Returns-put_known _) (λ _.
          Returns-attempt _ _ _ _ (operation_status-Returns create _) (λ _.
            Returns-read _ _ (λ o' k. Returns-put_object _ (λ o y. (
              ap
                  (λ (s : DatabaseRequestSpec). record s {
                    database_connection_reference = some (reference_to p conn.name);
                  })
                  k.0,
              (_, ap (λ (s : DatabaseRequestStatus). s.database_info) k.1),
            ))))))

  -- What the creation leaves
  abbrev Created : DatabaseRequestSpec → DatabaseRequest → Type 0
  Created spec o = IsReferenced ps spec o × ((i : DatabaseInfo) × (o.status.database_info ≡ some i))

  create_operation-Returns :
      (x : DatabaseRequest) (p : RelationalDatabaseProvider)
      → OneOf p ps
      → HasRoom x.spec.selector x.spec.type p
      → Returns (λ o. o ≡ x) (relational_database_operation env create none) (λ _. Created x.spec)
  unfolding relational_database_operation provider_for
  create_operation-Returns x p m room = Returns-read _ _ (λ y same. rw same (
      Returns-attempt _ _ _ _ (Returns-wrapping _ _ (find-Returns env ps cluster client x p m room))
        (λ (q, name). Returns-given _ (λ l.
          let same_p : q ≡ l.p = some-injective _ _ l.found in
          let among = subst (λ r. OneOf r ps) (sym same_p) l.among in
          let offered = subst (λ r. OneOf l.connection r.spec.connections) (sym same_p) l.offered in
          Returns-attempt _ _ _ _
            (connection_for-Returns {P = λ o. o ≡ x} create x q name l.connection among offered
              l.named)
            (λ conn. Returns-given _ (λ (c, in_q, named).
              Returns-attempt _ _ _ _ (create_case-Returns x q conn) (λ _.
                Returns-pure none (λ o (e, i). (
                  record {
                    ref = reference_to q conn.name;
                    referenced = e;
                    resolves = record {
                      provider = q;
                      among = among;
                      provided = refl;
                      connection = c;
                      offered = in_q;
                      named = named;
                    };
                  },
                  i,
                )))))))))

  require_some-Returns :
      {P : DatabaseRequest → Type 0} {A : Type 0} (v : Option A) (message : String) (a : A)
      → v ≡ some a
      → Returns P (require_some env v message) (λ _. P)
  unfolding require_some
  require_some-Returns v message a e = rw e (Returns-pure tt (λ o x. x))

  -- `createDatabase` for a request that a provider has room for
  pub create_relational-Returns :
      (x : DatabaseRequest) (p : RelationalDatabaseProvider)
      → OneOf p ps
      → HasRoom x.spec.selector x.spec.type p
      → Returns (λ o. o ≡ x) (create_relational env) (λ _. IsReferenced ps x.spec)
  unfolding create_relational
  create_relational-Returns x p m room =
      Returns-attempt (λ _. Created x.spec) _ _ _
        (Returns-attempt _ _ _ _ (create_operation-Returns x p m room)
          (λ _. Returns-pure tt (λ o c. c)))
        (λ _. Returns-read _ _ (λ y (c, (i, e)).
          Returns-attempt (λ _ o. o ≡ y) _ _ _
            (require_some-Returns _ _ c.ref
              (ap (λ (s : DatabaseRequestSpec). s.database_connection_reference) c.referenced))
            (λ _.
              Returns-weaken _ (λ _ o same. subst (IsReferenced ps x.spec) (sym same) c)
                (require_some-Returns {P = λ o. o ≡ y} _ _ i e))))

  referenced-Returns :
      {P : DatabaseRequest → Type 0} (operation : String) (x : DatabaseRequest)
      (v : Option DatabaseConnectionReference) (ref : DatabaseConnectionReference)
      → v ≡ some ref
      → (r : Resolves ps ref)
      → Returns P
          (referenced_provider env operation x v)
          (λ (q, name) y. P y × ((q ≡ r.provider) × (name ≡ r.connection.name)))
  unfolding referenced_provider
  referenced-Returns {P} operation x v ref e r = rw e (
      Returns-attempt _ _ _ _
        (Returns-wrapping _ _ (
          Returns-call {P = P} {Q = λ q. q ≡ r.provider} _ _ _ (record {
            value = λ h. r.provider;
            given = λ h. rw r.provided (cluster.gets r.provider r.among h);
            holds = λ h. refl;
          })))
        (λ q. Returns-pure _ (λ y (z, same). (z, (same, r.named)))))

  -- `relDBInfo` for a reference that leads to a connection
  pub rel_db_info-Returns :
      (x : DatabaseRequest) (ref : DatabaseConnectionReference)
      → x.spec.database_connection_reference ≡ some ref
      → Resolves ps ref
      → Returns (λ o. o ≡ x) (rel_db_info env) (λ _ o. o ≡ x)
  unfolding rel_db_info relational_database_operation provider_for info_case
  rel_db_info-Returns x ref e r =
      Returns-attempt (λ _ o. o ≡ x) _ _ _
        (Returns-wrapping _ _ (
          Returns-read _ _ (λ y same. rw same (
            Returns-attempt _ _ _ _ (referenced-Returns {P = λ o. o ≡ x} info x _ ref e r)
              (λ (q, name). Returns-given _ (λ (same_q, named).
                Returns-attempt _ _ _ _
                  (connection_for-Returns {P = λ o. o ≡ x} info x q name r.connection
                    (subst (λ p. OneOf p ps) (sym same_q) r.among)
                    (subst (λ p. OneOf r.connection p.spec.connections) (sym same_q) r.offered)
                    named)
                  (λ conn. Returns-given _ (λ _.
                    Returns-attempt _ _ _ _
                      (Returns-wrapping _ _
                        (Returns-call {P = λ o. o ≡ x} _ _ _ (client.known _ _ _ _)))
                      (λ i. Returns-pure _ (λ o k. k.0))))))))))
        (λ i. Returns-pure _ (λ o k. k))
