-- ===== src/Request/Succeeds.antt =====
-- A request that a provider has room for, in a cluster that answers.
use mathlib.Core.Path.{subst}
use dbaas_controller.Prelude.{
  refl, ◌⊎◌, inl, inr, Bool, true, false, sym, ap, ◌∙◌, List, ◌∷◌, Option, none, some, ◌≡◌,
  if◌then◌else◌,
}
use dbaas_controller.Go.{Error, ok}
use dbaas_controller.Api.{
  NamespacedName, SecretReference, DatabaseConnectionReference, DatabaseRequest,
  DatabaseRequestSpec, RelationalDatabaseProvider,
}
use dbaas_controller.Cluster.{Call, done, Env, Run, Exec, get_object, raise, attempt}
use dbaas_controller.Cluster.Returning.{
  Returns, Returns-call_object, Returns-if, Returns-weaken, Returns-attempt, Returns-read,
  Returns-put_object, Returns-put_known, Returns-emit, Returns-both, Returns-known,
}
use dbaas_controller.Request.Faults.{update}
use dbaas_controller.Request.Info.{DbInfo}
use dbaas_controller.Request.Operation.{is_relational, create_database, set_observed_reference}
use dbaas_controller.Request.Deletion.{is_nil, set_finalizers}
use dbaas_controller.Request.Reconcile.{
  provide, is_deleted, is_up_to_date, reconcile_info, reconcile_created, reconcile_current,
  reconcile_live, reconcile_fetched, reconcile_locked, with_lock, reconcile, by_seed,
}
use dbaas_controller.Request.Safety.{entered}
use dbaas_controller.Request.Serving.{ClusterServes, ClientServes, Rooms}
use dbaas_controller.Request.Reference.{IsReferenced}
use dbaas_controller.Request.Served.{create_relational-Returns, rel_db_info-Returns}
use dbaas_controller.Request.Written.{Has, provide-Returns}

-- How a reconciliation leaves the request: up to date, or with a reference to a connection of a provider
abbrev pub Placed :
    Env → List RelationalDatabaseProvider → DatabaseRequestSpec → DatabaseRequest → Type 0
Placed env ps spec o = IsReferenced ps spec o ⊎ (is_up_to_date env o ≡ true)

module _ (env : Env) (ps : List RelationalDatabaseProvider) (cluster : ClusterServes env ps)
    (client : ClientServes env) (spec : DatabaseRequestSpec) (rooms : Rooms ps spec) where
  abbrev Leaves : Exec DatabaseRequest (Unit {0}) → (DatabaseRequest → Type 0) → Type 0
  Leaves m P = Returns P m (λ _. Placed env ps spec)

  -- The service, the secret and the end keep the reference.
  provide-Leaves :
      (x : DatabaseRequest) (i : DbInfo)
      → IsReferenced ps spec x
      → Leaves (provide env (some i)) (λ o. o ≡ x)
  provide-Leaves x i c = Returns-known x _ refl (
      Returns-weaken {Q = λ _. Has x.spec} _
        (λ _ o e.
          inl (record { ref = c.ref; referenced = e ∙ c.referenced; resolves = c.resolves }))
        (provide-Returns env ps cluster x.spec i))

  -- From the connection data on, for a reference that leads to a connection
  reconcile_info-Leaves : Leaves (reconcile_info env) (IsReferenced ps spec)
  unfolding reconcile_info set_observed_reference
  reconcile_info-Leaves = Returns-read _ _ (λ x c.
      let type : is_relational x.spec.type ≡ true =
        ap (λ (s : DatabaseRequestSpec). is_relational s.type) c.referenced ∙ rooms.relational in
      let ref : x.spec.database_connection_reference ≡ some c.ref =
        ap (λ (s : DatabaseRequestSpec). s.database_connection_reference) c.referenced in
      Returns-attempt _ _ _ _ (Returns-put_known _) (λ _. rw type (
        Returns-attempt _ _ _ _ (rel_db_info-Returns env ps cluster client _ c.ref ref c.resolves)
          (λ i.
            provide-Leaves _ i
              (record { ref = c.ref; referenced = c.referenced; resolves = c.resolves })))))

  referenced_is_some :
      (v : Option DatabaseConnectionReference) (ref : DatabaseConnectionReference)
      → v ≡ some ref
      → is_nil v ≡ false
  referenced_is_some v ref e = rw e

  create_database-Returns :
      (x : DatabaseRequest)
      → x.spec ≡ spec
      → Returns (λ o. o ≡ x) (create_database env) (λ _. IsReferenced ps spec)
  unfolding create_database
  create_database-Returns x e =
      let c : Rooms ps x.spec = subst (Rooms ps) (sym e) rooms in
      Returns-read _ _ (λ y same. rw same (
        rw c.relational (
          Returns-weaken _ (λ a o k. subst (λ s. IsReferenced ps s o) e k)
            (create_relational-Returns env ps cluster client x c.provider c.among c.room))))

  -- `create_database` gave a reference.
  IsReferenced-Leaves :
      (handle : Exec DatabaseRequest (Unit {0}))
      → Leaves
          (attempt get_object raise (λ o'.
            if is_nil o'.spec.database_connection_reference then handle else reconcile_info env))
          (IsReferenced ps spec)
  IsReferenced-Leaves handle = Returns-read _ _ (λ y c.
      let nil : is_nil y.spec.database_connection_reference ≡ false =
        referenced_is_some _ c.ref
          (ap (λ (s : DatabaseRequestSpec). s.database_connection_reference) c.referenced) in
      rw nil (Returns-known y _ c reconcile_info-Leaves))

  reconcile_created-Leaves : Leaves (reconcile_created env) (Has spec)
  unfolding reconcile_created
  reconcile_created-Leaves = Returns-read _ _ (λ x e.
      let nil : is_nil x.spec.database_connection_reference ≡ true =
        ap (λ (s : DatabaseRequestSpec). is_nil s.database_connection_reference) e
        ∙ ap (λ (v : Option DatabaseConnectionReference). is_nil v) rooms.unreferenced in
      rw nil (Returns-attempt _ _ _ _ (create_database-Returns x e) (λ _. IsReferenced-Leaves _)))

  by_seed-Leaves :
      (seed : Option SecretReference) → seed ≡ none → Leaves (by_seed env seed) (Has spec)
  by_seed-Leaves seed e = rw e reconcile_created-Leaves

  reconcile_current-Leaves : Leaves (reconcile_current env) (Has spec)
  unfolding reconcile_current
  reconcile_current-Leaves = Returns-read _ _ (λ x e.
      Returns-if (is_up_to_date env x) _ _
        (λ current.
          Returns-weaken {Q = λ _ o. o ≡ x} _
            (λ a o k. inr (ap (λ (y : DatabaseRequest). is_up_to_date env y) k ∙ current))
            (Returns-emit _))
        (λ _. Returns-known x _ e (
          by_seed-Leaves x.spec.seed
            (ap (λ (s : DatabaseRequestSpec). s.seed) e ∙ rooms.unseeded))))

  -- The finalizer is there, or is added.
  finalized-Leaves :
      (b : Bool) (handle : Error → Exec DatabaseRequest (Unit {0}))
      → Leaves
          (if b
            then attempt (update env) handle (λ _. reconcile_current env)
            else reconcile_current env)
          (Has spec)
  finalized-Leaves b handle =
      Returns-if b _ _
        (λ _.
          Returns-attempt (λ _. Has spec) _ _ _
            (Returns-call_object _ _
              (λ h o e. let (a, same) = cluster.updates h o in (tt, a, same ∙ e)))
            (λ _. reconcile_current-Leaves))
        (λ _. reconcile_current-Leaves)

  reconcile_live-Leaves : Leaves (reconcile_live env) (Has spec)
  unfolding reconcile_live set_finalizers
  reconcile_live-Leaves = Returns-read _ _ (λ x e.
      Returns-attempt (λ _. Has spec) _ _ _ (Returns-put_object _ (λ o k. e))
        (λ _. finalized-Leaves _ _))

module _ (env : Env) (ps : List RelationalDatabaseProvider) (cluster : ClusterServes env ps)
    (client : ClientServes env) where
  -- The reconciliation of a request that is not being deleted, asks for a MySQL or PostgreSQL database, has
  -- no seed and no connection reference, and matches a provider with an enabled connection, succeeds, if the
  -- cluster answers: it accepts updates, which keep the spec, and updates of the status, which keep spec and
  -- status, lists the providers and gives each under its name, has the passwords of their connections, finds
  -- services and secrets or tells that they are missing, and lets them be created and updated; and if the
  -- database client answers each call, with loads below the largest int. It leaves the request up to
  -- date, or with a reference to a connection of a listed provider and else the spec that it had.
  pub reconcile_room :
      (key : NamespacedName) (o : DatabaseRequest) (s : Run DatabaseRequest)
      → env.get_request (entered key s.history) key ≡ ok o
      → is_deleted o.meta.deletion_timestamp ≡ false
      → Rooms ps o.spec
      → let (r, t) = reconcile env key s in (r ≡ ok tt) × Placed env ps o.spec t.object
  unfolding reconcile with_lock reconcile_locked reconcile_fetched attempt
  reconcile_room key o s got live c = rw got (
      rw live (
        Returns-both {P = Has o.spec} _ (reconcile_live-Leaves env ps cluster client o.spec c)
          (record {
            object = o;
            history =
                record { call = Call.get_request key; outcome = done } ∷ entered key s.history;
          })
          refl))
