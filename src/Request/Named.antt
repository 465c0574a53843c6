-- ===== src/Request/Named.antt =====
-- What a request is called by: the reconciler never changes it, so the keys and names in its calls are
-- those of the request that it was given.
use dbaas_controller.Prelude.{String, ◌≡◌, ◌∙◌, ap, Option, none, some, List, [], ◌∷◌}
use dbaas_controller.Api.{
  NamespacedName, SecretReference, DatabaseConnectionReference, DatabaseRequest, Connection,
  RelationalDatabaseProvider,
}
use dbaas_controller.Cluster.{Env, History}
use dbaas_controller.Cluster.Triple.{Keeps, Keeps-attempt, Keeps-raise}
use dbaas_controller.Cluster.Held.{Holds, Holds-read, Holds-put_object, held_rules}
use dbaas_controller.Conn.{ReldbConn}
use dbaas_controller.Request.Providers.{
  Best, connection_password, probe, probe_connections, probe_providers, found_provider,
  find_relational_database_provider,
}
use dbaas_controller.Request.Info.{DbInfo}
use dbaas_controller.Request.Operation.{
  operation_status, referenced_provider, provider_for, connection_for, require_some, create,
  create_case, drop, drop_case, forget_reference, info_case, relational_database_operation,
  create_relational, rel_db_deletion, rel_db_info, set_reference, set_observed_reference,
  set_database_info,
}
use dbaas_controller.Request.Resources.{
  service_key, own_secret_key, deref, create_service, adjust_service, handle_service, create_secret,
  adjust_secret, handle_secret,
}
use dbaas_controller.Request.Deletion.{delete_service, delete_secret}

pub record Names : Type 0 where
  pub name : String
  pub namespace : String
  pub service : String
  pub type : String

abbrev pub names_of : DatabaseRequest → Names
names_of o = record {
  name = o.meta.name;
  namespace = o.meta.namespace;
  service = o.spec.name;
  type = o.spec.type;
}

-- The request is called as `o` is.
abbrev pub Named : DatabaseRequest → DatabaseRequest → Type 0
Named o x = names_of x ≡ names_of o

-- The API server answers a write with the object that was sent, as far as its names and its type go.
pub record KeepsNames (env : Env) : Type 0 where
  pub update_request : (h : History) (o : DatabaseRequest) → Named o (env.update_request h o).0
  pub update_request_status :
      (h : History) (o : DatabaseRequest) → Named o (env.update_request_status h o).0

pub service_key-Named : (o x : DatabaseRequest) → Named o x → service_key x ≡ service_key o
service_key-Named o x n =
    ap
      (λ (i : Names).
        let key : NamespacedName = record { name = i.service; namespace = i.namespace } in key)
      n

pub own_secret_key-Named : (o x : DatabaseRequest) → Named o x → own_secret_key x ≡ own_secret_key o
own_secret_key-Named o x n =
    ap
      (λ (i : Names).
        let key : NamespacedName = record { name = i.name; namespace = i.namespace } in key)
      n

module _ (env : Env) {J : DatabaseRequest → Type 0} where
  password-Holds :
      (a b : String) (ref : SecretReference) → Keeps (Holds J) (connection_password env a b ref)
  unfolding connection_password
  password-Holds a b ref = search held_rules depth 9

  probe-Holds :
      (type : String) (p : RelationalDatabaseProvider) (c : Connection) (best : Best)
      → Keeps (Holds J) (probe env type p c best)
  unfolding probe
  probe-Holds type p c best = search (held_rules, password-Holds) depth 9

  probe_connections-Holds :
      (type : String) (p : RelationalDatabaseProvider) (cs : List Connection) (best : Best)
      → Keeps (Holds J) (probe_connections env type p cs best)
  unfolding probe_connections
  probe_connections-Holds type p [] best = search held_rules
  probe_connections-Holds type p (c ∷ cs) best =
      search (held_rules, probe-Holds, probe_connections-Holds type p cs) depth 9

  probe_providers-Holds :
      (selector type : String) (ps : List RelationalDatabaseProvider) (best : Best)
      → Keeps (Holds J) (probe_providers env selector type ps best)
  unfolding probe_providers
  probe_providers-Holds selector type [] best = search held_rules
  probe_providers-Holds selector type (p ∷ ps) best =
      search (held_rules, probe_connections-Holds, probe_providers-Holds selector type ps) depth 9

  found_provider-Holds :
      (type : String) (o : Option RelationalDatabaseProvider) (name : String)
      → Keeps (Holds J) (found_provider env type o name)
  unfolding found_provider
  found_provider-Holds type none name = search held_rules
  found_provider-Holds type (some p) name = search held_rules

  find_relational_database_provider-Holds : Keeps (Holds J) (find_relational_database_provider env)
  unfolding find_relational_database_provider
  find_relational_database_provider-Holds =
      search (held_rules, probe_providers-Holds, found_provider-Holds) depth 9

  referenced_provider-Holds :
      (operation : String) (o : DatabaseRequest) (ref : Option DatabaseConnectionReference)
      → Keeps (Holds J) (referenced_provider env operation o ref)
  unfolding referenced_provider
  referenced_provider-Holds operation o none = search held_rules
  referenced_provider-Holds operation o (some ref) = search held_rules depth 9

  pub provider_for-Holds :
      (operation : String) (o : DatabaseRequest) → Keeps (Holds J) (provider_for env operation o)
  unfolding provider_for
  provider_for-Holds operation o =
      search (held_rules, find_relational_database_provider-Holds, referenced_provider-Holds) depth
        9

  pub connection_for-Holds :
      (operation : String) (o : DatabaseRequest) (c : Option Connection)
      → Keeps (Holds J) (connection_for env operation o c)
  unfolding connection_for
  connection_for-Holds operation o none = search held_rules
  connection_for-Holds operation o (some c) = search (held_rules, password-Holds) depth 9

  pub require_some-Holds :
      {A : Type 0} (o : Option A) (message : String) → Keeps (Holds J) (require_some env o message)
  unfolding require_some
  require_some-Holds none message = search held_rules
  require_some-Holds (some a) message = search held_rules

  pub delete_service-Holds : (key : NamespacedName) → Keeps (Holds J) (delete_service env key)
  unfolding delete_service
  delete_service-Holds key = search held_rules depth 9

  pub delete_secret-Holds : (key : NamespacedName) → Keeps (Holds J) (delete_secret env key)
  unfolding delete_secret
  delete_secret-Holds key = search held_rules depth 9

  deref-Holds : (i : Option DbInfo) → Keeps (Holds J) (deref i)
  unfolding deref
  deref-Holds none = search held_rules
  deref-Holds (some i) = search held_rules

  pub handle_service-Holds : (i : Option DbInfo) → Keeps (Holds J) (handle_service env i)
  unfolding handle_service create_service adjust_service
  handle_service-Holds i = search (held_rules, deref-Holds) depth 16

  pub handle_secret-Holds : (i : Option DbInfo) → Keeps (Holds J) (handle_secret env i)
  unfolding handle_secret create_secret adjust_secret
  handle_secret-Holds i = search (held_rules, deref-Holds) depth 16

module _ (env : Env) (keeps : KeepsNames env) (r : DatabaseRequest) where
  status-Named :
      (h : History) (o : DatabaseRequest) → Named r o → Named r (env.update_request_status h o).0
  status-Named h o n = keeps.update_request_status h o ∙ n

  operation_status-Holds :
      (operation : String) → Keeps (Holds (Named r)) (operation_status env operation)
  unfolding operation_status
  operation_status-Holds operation = search (held_rules, status-Named) depth 9

  forget_reference-Holds :
      (o : DatabaseRequest) → Named r o → Keeps (Holds (Named r)) (forget_reference env o)
  unfolding forget_reference set_observed_reference set_reference
  forget_reference-Holds o n =
      Keeps-attempt _ _ _ (Holds-put_object _ n) (λ e. Keeps-raise e)
        (λ _.
          Keeps-attempt _ _ _ (operation_status-Holds drop) (λ e. Keeps-raise e)
            (λ _. Holds-read _ (λ o' n'. Holds-put_object _ n')))

  drop_case-Holds :
      (o : DatabaseRequest) (conn : ReldbConn)
      → Named r o
      → Keeps (Holds (Named r)) (drop_case env o conn)
  unfolding drop_case
  drop_case-Holds o conn n = search (held_rules, forget_reference-Holds, n) depth 14

  create_case-Holds :
      (o : DatabaseRequest) (p : RelationalDatabaseProvider) (conn : ReldbConn)
      → Named r o
      → Keeps (Holds (Named r)) (create_case env o p conn)
  unfolding create_case set_observed_reference set_database_info set_reference
  create_case-Holds o p conn n =
      Keeps-attempt _ _ _ (search held_rules depth 9) (λ e. Keeps-raise e)
        (λ i.
          Keeps-attempt _ _ _ (Holds-put_object _ n) (λ e. Keeps-raise e)
            (λ _.
              Keeps-attempt _ _ _ (operation_status-Holds create) (λ e. Keeps-raise e)
                (λ _. Holds-read _ (λ o' n'. Holds-put_object _ n'))))

  info_case-Holds :
      (o : DatabaseRequest) (conn : ReldbConn) (i : Option DbInfo)
      → Keeps (Holds (Named r)) (info_case env o conn i)
  unfolding info_case
  info_case-Holds o conn none = search held_rules
  info_case-Holds o conn (some i) = search held_rules depth 9

  pub create_relational-Holds : Keeps (Holds (Named r)) (create_relational env)
  unfolding create_relational relational_database_operation
  create_relational-Holds =
      Keeps-attempt _ _ _
        (Keeps-attempt _ _ _
          (Holds-read _ (λ o n.
            search
              (held_rules, provider_for-Holds env, connection_for-Holds env, create_case-Holds, n)
              depth 14))
          (λ e. search held_rules depth 9) (λ _. search held_rules))
        (λ e. Keeps-raise e) (λ _. search (held_rules, require_some-Holds env) depth 14)

  pub rel_db_info-Holds : Keeps (Holds (Named r)) (rel_db_info env)
  unfolding rel_db_info relational_database_operation
  rel_db_info-Holds =
      search (held_rules, provider_for-Holds env, connection_for-Holds env, info_case-Holds) depth
        14

  pub rel_db_deletion-Holds : Keeps (Holds (Named r)) (rel_db_deletion env)
  unfolding rel_db_deletion relational_database_operation
  rel_db_deletion-Holds =
      Keeps-attempt _ _ _ (search held_rules) (λ e. Keeps-raise e)
        (λ o'.
          Keeps-attempt _ _ _ (require_some-Holds env _ _) (λ e. Keeps-raise e)
            (λ _.
              Keeps-attempt _ _ _
                (Holds-read _ (λ o n.
                  search
                    (
                      held_rules,
                      provider_for-Holds env,
                      connection_for-Holds env,
                      drop_case-Holds,
                      n,
                    )
                    depth 14))
                (λ e. Keeps-raise e) (λ _. search held_rules)))
