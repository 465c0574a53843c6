-- ===== src/MongoProvider/Checked.antt =====
-- What the second loop of a MongoDB provider's reconciliation has shown.
use dbaas_controller.Prelude.{◌≡◌, refl, String, true, inl, inr, Bool-cases, List, [], ◌∷◌, All}
use dbaas_controller.Go.{Error}
use dbaas_controller.Api.{MongoDbConnection, MongoDbProvider}
use dbaas_controller.Cluster.{Call, Outcome, done, Event, History}
use dbaas_controller.Cluster.Triple.{
  Assertion, Triple, Triple-attempt, Triple-pure, Triple-raise, Triple-weaken,
}
use dbaas_controller.Cluster.Order.{only_rules, Made}
use dbaas_controller.Cluster.Since.{
  Since, IsStable, Triple-kept, Triple-Made, Since-weaken, Made-append, Made-IsStable,
}
use dbaas_controller.Cluster.Failing.{Fails-Triple, failing_rules}
use dbaas_controller.Mongo.{MongoDbClientOptions}
use dbaas_controller.Request.Lowest.{OneOf}
use dbaas_controller.Provider.Connections.{Checks}
use dbaas_controller.Provider.Checked.{AnyCall}
use dbaas_controller.MongoProvider.Faults.{MongoEnv, handle_error}
use dbaas_controller.MongoProvider.Connections.{
  MongoDbConn, mongodb_conn, add_failure, add_available, failure, check_mongodb, check_all_mongodb,
}

-- The connection of the reconciler stands for one of the provider.
pub record IsMongoOf (o : MongoDbProvider) (conn : MongoDbConn) : Type 0 where
  pub connection : MongoDbConnection
  pub listed : OneOf connection o.spec.connections
  pub password : String
  pub made : conn ≡ mongodb_conn connection password

abbrev PingedBy : MongoDbClientOptions → Call → Outcome → Type 0
PingedBy mop (Call.mongo_ping m) done = m ≡ mop
PingedBy mop _ _ = ⊥

abbrev VersionedBy : MongoDbClientOptions → Call → Outcome → Type 0
VersionedBy mop (Call.mongo_version m) done = m ≡ mop
VersionedBy mop _ _ = ⊥

-- The server of the connection answered a ping.
abbrev pub Pinged : MongoDbConn → Event → Type 0
Pinged conn e = PingedBy conn.options e.call e.outcome

-- It told its version.
abbrev pub Versioned : MongoDbConn → Event → Type 0
Versioned conn e = VersionedBy conn.options e.call e.outcome

-- The server of an enabled connection of the provider answered.
pub record Answers (o : MongoDbProvider) (a : History) : Type 0 where
  pub conn : MongoDbConn
  pub of : IsMongoOf o conn
  pub enabled : conn.enabled ≡ true
  pub pinged : Made (Pinged conn) a
  pub versioned : Made (Versioned conn) a

pub Answers-IsStable : (o : MongoDbProvider) → IsStable AnyCall (Answers o)
Answers-IsStable o = record {
  extend = λ b a p w. record {
    conn = w.conn;
    of = w.of;
    enabled = w.enabled;
    pinged = Made-append _ b a w.pinged;
    versioned = Made-append _ b a w.versioned;
  };
}

pub handle_error-Triple :
    {A : Type 0} {pre : Assertion MongoDbProvider} {post : A → Assertion MongoDbProvider}
    (env : MongoEnv) (p : String) (e : Error)
    → Triple pre (handle_error env {A = A} p e) post (λ _. Unit)
unfolding handle_error
handle_error-Triple env p e = Fails-Triple _ (search failing_rules depth 20)

module _ (env : MongoEnv) (o : MongoDbProvider) (h : History) where
  abbrev pub Found : Checks → History → Type 0
  Found k a = k.found_enabled ≡ true → Answers o a

  pub Found-IsStable : (k : Checks) → IsStable AnyCall (Found k)
  Found-IsStable k = record { extend = λ b a p f e. (Answers-IsStable o).extend b a p (f e) }

  module _ (conn : MongoDbConn) (k : Checks) where
    abbrev WithPing : History → Type 0
    WithPing a = Found k a × Made (Pinged conn) a

    abbrev WithVersion : History → Type 0
    WithVersion a = WithPing a × Made (Versioned conn) a

    WithPing-IsStable : IsStable AnyCall WithPing
    WithPing-IsStable = Made-IsStable AnyCall (Found k) (Pinged conn) (Found-IsStable k)

    WithVersion-IsStable : IsStable AnyCall WithVersion
    WithVersion-IsStable = Made-IsStable AnyCall WithPing (Versioned conn) WithPing-IsStable

    failure-Found :
        (e : Error)
        → Triple (Since (Found k) h) (failure env o conn e k) (λ k'. Since (Found k') h) (λ _. Unit)
    unfolding failure add_failure
    failure-Found e =
        Triple-attempt (λ _. Since (Found k) h) (λ _. Unit) _ _ _
          (Triple-kept (Found k) h _ (Found-IsStable k) (λ g. search only_rules))
          (λ x. Triple-raise x (λ s c. c)) (λ _. Triple-pure _ (λ s c. c)) (λ s c. c)

    available-Found :
        (version : String) (a : History)
        → IsMongoOf o conn
        → WithVersion a
        → Found (add_available conn version k) a
    unfolding add_available
    available-Found version a of ((f, p), v) e = elim (Bool-cases conn.enabled) [
      | inl on ↦ record { conn = conn; of = of; enabled = on; pinged = p; versioned = v }
      | inr off ↦ f (rw off at e)
    ]

    check_mongodb-Found :
        IsMongoOf o conn
        → Triple
            (Since (Found k) h)
            (check_mongodb env o conn k)
            (λ k'. Since (Found k') h)
            (λ _. Unit)
    unfolding check_mongodb
    check_mongodb-Found of =
        Triple-attempt (λ _. Since WithPing h) (Since (Found k) h) _ _ _
          (Triple-Made AnyCall (Found k) h (Found-IsStable k) _ (Pinged conn) _ tt refl)
          failure-Found
          (λ _.
            Triple-attempt (λ _. Since WithVersion h) (Since WithPing h) _ _ _
              (Triple-Made AnyCall WithPing h WithPing-IsStable _ (Versioned conn) _ tt refl)
              (λ e.
                Triple-weaken _ _ _ _ (λ s c. Since-weaken WithPing (Found k) (λ a q. q.0) c)
                  (λ _ s c. c) (λ s c. c) (failure-Found e))
              (λ version.
                Triple-attempt (λ _. Since WithVersion h) (λ _. Unit) _ _ _
                  (Triple-kept WithVersion h _ WithVersion-IsStable (λ g. search only_rules))
                  (λ x. Triple-raise x (λ s c. c))
                  (λ _.
                    Triple-pure _
                      (λ s c. Since-weaken WithVersion _ (λ a q. available-Found version a of q) c))
                  (λ s c. c))
              (λ s c. tt))
          (λ s c. tt)

  pub check_all_mongodb-Found :
      (conns : List MongoDbConn) (k : Checks)
      → All (IsMongoOf o) conns
      → Triple
          (Since (Found k) h)
          (check_all_mongodb env o conns k)
          (λ k'. Since (Found k') h)
          (λ _. Unit)
  unfolding check_all_mongodb
  check_all_mongodb-Found [] k _ = Triple-pure k (λ s c. c)
  check_all_mongodb-Found (conn ∷ conns) k (of, ofs) =
      Triple-attempt (λ k'. Since (Found k') h) (λ _. Unit) _ _ _ (check_mongodb-Found conn k of)
        (λ e. Triple-raise e (λ s c. c)) (λ k'. check_all_mongodb-Found conns k' ofs) (λ s c. c)
