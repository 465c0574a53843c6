-- ===== src/Request/Seeding.antt =====
-- A request with a seed: what is done before its secret goes, and which errors are not retried.
use dbaas_controller.Prelude.{◌≡◌, refl, ap, false, [], ◌∷◌, ◌++◌, All, inr, String, some, arith}
use dbaas_controller.Go.{Error}
use dbaas_controller.Api.{SecretReference, DatabaseRequest}
use dbaas_controller.Cluster.{
  Call, Outcome, done, Event, Env, Run, History, attempt, call, pure, get_object, put_object, raise,
}
use dbaas_controller.Cluster.Triple.{
  Triple, Keeps, Triple-attempt, Triple-raise, Triple-run, Triple-weaken, Triple-value,
  Triple-given,
}
use dbaas_controller.Cluster.Order.{only_rules, Made, Follows}
use dbaas_controller.Cluster.Since.{
  Since, IsStable, Keeps-Since, Triple-Made, Since-weaken, Since-refl, All-IsStable,
}
use dbaas_controller.Cluster.Held.{With, Triple-read, Triple-under}
use dbaas_controller.Conn.{get_dsn}
use dbaas_controller.Request.Info.{DbInfo}
use dbaas_controller.Request.Named.{Names, Named}
use dbaas_controller.Request.SeedData.{IsSeed, seed_info}
use dbaas_controller.Request.Calls.{handle_error-Only, relational_database_info_from_seed-Only}
use dbaas_controller.Request.LiveCalls.{provide-Only}
use dbaas_controller.Request.Resources.{handle_seed, relational_info}
use dbaas_controller.Request.Providers.{
  SeedDatabaseInfo, secret_key, relational_database_info_from_seed,
}
use dbaas_controller.Request.Reconcile.{provide, seed_failed, reconcile_seed, seeded}

abbrev pub IsSecretDeletion : Call → Type 0
IsSecretDeletion (Call.delete_secret key) = Unit
IsSecretDeletion _ = ⊥

abbrev NotDeletion : Call → Type 0
NotDeletion c = IsSecretDeletion c → ⊥

abbrev AnyCall : Call → Type 0
AnyCall c = Unit

abbrev Kept : History → Type 0
Kept = All (λ e. NotDeletion e.call)

module _ (env : Env) (seed : SecretReference) (r : DatabaseRequest) where
  abbrev RegisteredBy : Call → Outcome → Type 0
  RegisteredBy (Call.set_database_info dsn name namespace type i) done =
      (name ≡ r.meta.name)
      × (namespace ≡ r.meta.namespace)
      × (type ≡ r.spec.type)
      × (v : DbInfo) × IsSeed env seed v
      × (i.username ≡ v.user_name)
      × (i.password ≡ v.password)
      × (i.dbname ≡ v.database)
  RegisteredBy _ _ = ⊥

  -- `SetDatabaseInfo` returned without an error, for the name, namespace and type of the request and
  -- with the credentials of the seed.
  abbrev pub Registered : Event → Type 0
  Registered e = RegisteredBy e.call e.outcome

  abbrev pub InOrder : History → Type 0
  InOrder = Follows IsSecretDeletion (Made Registered)

  Kept-InOrder : (a : History) → Kept a → InOrder a
  Kept-InOrder [] _ = tt
  Kept-InOrder (e ∷ a) (n, ns) = (λ d. absurd (n d), Kept-InOrder a ns)

  -- The credentials are registered, and every deletion so far came after that.
  abbrev Done : History → Type 0
  Done a = Made Registered a × InOrder a

  Done-IsStable : IsStable AnyCall Done
  Done-IsStable = record { extend = extend }
    where
      extend : (b a : History) → All (λ e. AnyCall e.call) b → Done a → Done (b ++ a)
      extend [] a _ k = k
      extend (e ∷ b) a (_, p) k = let (m, o) = extend b a p k in (inr m, (λ _. m, o))

  InOrder-IsStable : IsStable NotDeletion InOrder
  InOrder-IsStable = record { extend = extend }
    where
      extend : (b a : History) → Kept b → InOrder a → InOrder (b ++ a)
      extend [] a _ k = k
      extend (e ∷ b) a (n, ns) k = (λ d. absurd (n d), extend b a ns k)

module _ (env : Env) (seed : SecretReference) (r : DatabaseRequest) (h : History) where
  abbrev Good : History → Type 0
  Good = InOrder env seed r

  abbrev Finished : History → Type 0
  Finished = Done env seed r

  abbrev Entered : Event → Type 0
  Entered = Registered env seed r

  ordered : (s : Run DatabaseRequest) → Since Kept h s → Since Good h s
  ordered s c = Since-weaken Kept Good (Kept-InOrder env seed r) c

  Done-ordered : (s : Run DatabaseRequest) → Since Finished h s → Since Good h s
  Done-ordered s c = Since-weaken Finished Good (λ a q. q.1) c

  seed_info-Kept :
      (type selector : String)
      → Keeps (Since Kept h) (relational_database_info_from_seed env seed type selector)
  seed_info-Kept type selector =
      Keeps-Since NotDeletion Kept h _ (All-IsStable NotDeletion)
        (λ g. relational_database_info_from_seed-Only env (omega arith) seed type selector)

  delete_seed-order :
      (i : SeedDatabaseInfo)
      → Triple {O = DatabaseRequest}
          (Since (λ a. Kept a × Made Entered a) h)
          (attempt
            (call
              (Call.delete_secret (secret_key seed))
              (λ g. env.delete_secret g (secret_key seed)))
            raise
            (λ _. pure i))
          (λ _. Since Finished h)
          (Since Good h)
  delete_seed-order i =
      Triple-weaken (Since Finished h) (λ _. Since Finished h) (Since Finished h) _
        (λ s c. Since-weaken _ Finished (λ a (k, m). (m, Kept-InOrder env seed r a k)) c)
        (λ _ s c. c) Done-ordered
        (Keeps-Since AnyCall Finished h _ (Done-IsStable env seed r)
          (λ g. search only_rules depth 9))

  -- What `handleSeed` does for the request `o` with the data of the seed
  registering-order :
      (o : DatabaseRequest) (i : SeedDatabaseInfo)
      → Named r o
      → IsSeed env seed i.db_info
      → let dsn = get_dsn i.conn false in
        let x = relational_info i.db_info in
        Triple {O = DatabaseRequest}
          (Since Kept h)
          (attempt
            (call
              (Call.set_database_info dsn o.meta.name o.meta.namespace o.spec.type x)
              (λ g. env.set_database_info g dsn o.meta.name o.meta.namespace o.spec.type x))
            raise
            (λ _.
              attempt
                (call
                  (Call.delete_secret (secret_key seed))
                  (λ g. env.delete_secret g (secret_key seed)))
                raise
                (λ _. pure i)))
          (λ _. Since Finished h)
          (Since Good h)
  registering-order o i n v =
      Triple-attempt (λ _. Since (λ a. Kept a × Made Entered a) h) (Since Kept h) _ _ _
        (Triple-Made NotDeletion Kept h (All-IsStable NotDeletion) _ Entered _ (λ d. d)
          (
            ap (λ (x : Names). x.name) n,
            ap (λ (x : Names). x.namespace) n,
            ap (λ (x : Names). x.type) n,
            i.db_info,
            v,
            refl,
            refl,
            refl,
          ))
        (λ e. Triple-raise e ordered) (λ _. delete_seed-order i) ordered

  handle_seed-order :
      Triple
        (With (Named r) (Since Kept h))
        (handle_seed env seed)
        (λ _. Since Finished h)
        (Since Good h)
  unfolding handle_seed
  handle_seed-order = Triple-read (Named r) _ (λ o n. Triple-under (Named r) _ (
      Triple-attempt (λ i s. IsSeed env seed i.db_info × Since Kept h s) (Since Kept h) _ _ _
        (Triple-value (λ i. IsSeed env seed i.db_info) _
          (seed_info env seed o.spec.type o.spec.selector)
          (seed_info-Kept o.spec.type o.spec.selector))
        (λ e. Triple-raise e ordered) (λ i. Triple-given _ (λ v. registering-order o i n v))
        ordered))

  seed_failed-order : (e : Error) → Keeps (Since Good h) (seed_failed env e)
  unfolding seed_failed
  seed_failed-order e =
      Keeps-Since NotDeletion Good h _ (InOrder-IsStable env seed r)
        (λ g. search (only_rules, handle_error-Only env {P = NotDeletion} (omega arith)) depth 9)

  provide-Done :
      (i : SeedDatabaseInfo)
      → Keeps (Since Finished h) (
          attempt get_object raise
            (λ o. attempt (put_object (seeded i o)) raise (λ _. provide env (some i.db_info))))
  provide-Done i = Keeps-Since AnyCall Finished h _ (Done-IsStable env seed r) (λ g.
      search (only_rules, provide-Only env {P = AnyCall} (omega arith) (omega arith) (omega arith))
        depth 12)

module _ (env : Env) where
  -- Whatever the environment answers, the reconciliation of a seed deletes a secret only after
  -- `SetDatabaseInfo` returned without an error, for the name, namespace and type of the request and with
  -- the user name, the password and the database of a secret that the cluster gave for the seed.
  pub reconcile_seed-InOrder :
      (seed : SecretReference) (s : Run DatabaseRequest)
      → Since (InOrder env seed s.object) s.history (reconcile_seed env seed s).1
  unfolding reconcile_seed
  reconcile_seed-InOrder seed s =
      let h = s.history in
      let r = s.object in
      Triple-run (With (Named r) (Since Kept h)) (Since (InOrder env seed r) h) _
        (Triple-attempt (λ _. Since (Done env seed r) h) (Since (InOrder env seed r) h) _ _ _
          (handle_seed-order env seed r h) (seed_failed-order env seed r h)
          (λ i.
            Triple-weaken (Since (Done env seed r) h) (λ _. Since (Done env seed r) h)
              (Since (Done env seed r) h) _ (λ t c. c) (λ _ t c. Done-ordered env seed r h t c)
              (Done-ordered env seed r h) (provide-Done env seed r h i))
          (λ t c. c))
        s (record { it = refl }, Since-refl Kept s tt)
