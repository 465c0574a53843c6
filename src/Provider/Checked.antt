-- ===== src/Provider/Checked.antt =====
-- What the loops of a provider's reconciliation have shown when it succeeds.
use dbaas_controller.Prelude.{
  ℕ, ◌≡◌, refl, String, true, false, inl, inr, Bool-cases, List, [], ◌∷◌, All,
}
use dbaas_controller.Go.{Error}
use dbaas_controller.Api.{Connection, RelationalDatabaseProvider}
use dbaas_controller.Cluster.{Call, Outcome, done, Event, Env, Exec, History, pure, raise, attempt}
use dbaas_controller.Cluster.Triple.{
  Assertion, Triple, Keeps, Triple-attempt, Triple-pure, Triple-raise, Triple-weaken,
}
use dbaas_controller.Cluster.Order.{Only, only_rules, Made}
use dbaas_controller.Cluster.Since.{
  Since, IsStable, Keeps-Since, Triple-Made, Since-weaken, Made-append, Made-IsStable,
}
use dbaas_controller.Cluster.Failing.{Fails-Triple, failing_rules}
use dbaas_controller.Conn.{ReldbConn, get_dsn}
use dbaas_controller.Request.Lowest.{OneOf}
use dbaas_controller.Provider.Faults.{handle_error}
use dbaas_controller.Provider.Connections.{
  Checks, full_conn, add_fault, add_success, fault, check, check_all, set_version,
}

abbrev pub AnyCall : Call → Type 0
AnyCall c = Unit

-- The connection of the reconciler stands for one of the provider.
pub record IsOf (o : RelationalDatabaseProvider) (conn : ReldbConn) : Type 0 where
  pub connection : Connection
  pub listed : OneOf connection o.spec.connections
  pub password : String
  pub made : conn ≡ full_conn o.spec.type connection password

abbrev pub InitializedBy : ReldbConn → Call → Outcome → Type 0
InitializedBy conn (Call.initialize dsn type) done = dsn ≡ get_dsn conn false
InitializedBy conn _ _ = ⊥

-- The server of the connection was initialised.
abbrev pub Initialized : ReldbConn → Event → Type 0
Initialized conn e = InitializedBy conn e.call e.outcome

-- The server of an enabled connection of the provider was initialised.
pub record Works (o : RelationalDatabaseProvider) (a : History) : Type 0 where
  pub conn : ReldbConn
  pub of : IsOf o conn
  pub enabled : conn.enabled ≡ true
  pub initialized : Made (Initialized conn) a

module _ (env : Env) (o : RelationalDatabaseProvider) (h : History) where
  abbrev pub Found : Checks → History → Type 0
  Found k a = k.found_enabled ≡ true → Works o a

  pub Found-IsStable : (k : Checks) → IsStable AnyCall (Found k)
  Found-IsStable k = record {
    extend = λ b a p f e.
        let w = f e in
        record {
          conn = w.conn;
          of = w.of;
          enabled = w.enabled;
          initialized = Made-append _ b a w.initialized;
        };
  }

  both-IsStable :
      (k : Checks) (conn : ReldbConn)
      → IsStable AnyCall (λ a. Found k a × Made (Initialized conn) a)
  both-IsStable k conn = Made-IsStable AnyCall (Found k) (Initialized conn) (Found-IsStable k)

  pub handle_error-Triple :
      {A : Type 0} {pre : Assertion RelationalDatabaseProvider}
      {post : A → Assertion RelationalDatabaseProvider} (p : String) (e : Error)
      → Triple pre (handle_error env {A = A} p e) post (λ _. Unit)
  unfolding handle_error
  handle_error-Triple p e = Fails-Triple _ (search failing_rules depth 14)

  module _ (name : String) (conn : ReldbConn) (k : Checks) where
    fault-Found :
        (version : String) (e : Error)
        → Triple
            (Since (Found k) h)
            (fault env o name conn version e k)
            (λ k'. Since (Found k') h)
            (λ _. Unit)
    unfolding fault add_fault
    fault-Found version e =
        Triple-attempt (λ _. Since (Found k) h) (λ _. Unit) _ _ _
          (Triple-weaken _ (λ _. Since (Found k) h) (Since (Found k) h) _ (λ s c. c) (λ _ s c. c)
            (λ s c. tt)
            (Keeps-Since AnyCall (Found k) h _ (Found-IsStable k) (λ g. search only_rules depth 9)))
          (λ e'. Triple-raise e' (λ s c. c)) (λ _. Triple-pure _ (λ s c. c)) (λ s c. c)

    success-Found :
        (version : String) (a : History)
        → IsOf o conn
        → Found k a × Made (Initialized conn) a
        → Found (add_success conn version k) a
    unfolding add_success
    success-Found version a of (f, m) e = elim (Bool-cases conn.enabled) [
      | inl on ↦ record { conn = conn; of = of; enabled = on; initialized = m }
      | inr off ↦ f (rw off at e)
    ]

    success-Triple :
        (version : String) (n : ℕ)
        → IsOf o conn
        → Triple
            (Since (λ a. Found k a × Made (Initialized conn) a) h)
            (attempt
              (set_version env o name conn version n)
              raise
              (λ _. pure (add_success conn version k)))
            (λ k'. Since (Found k') h)
            (λ _. Unit)
    success-Triple version n of =
        let I : History → Type 0 = λ a. Found k a × Made (Initialized conn) a in
        Triple-attempt (λ _. Since I h) (λ _. Unit) _ _ _
          (Triple-weaken _ (λ _. Since I h) (Since I h) _ (λ s c. c) (λ _ s c. c) (λ s c. tt)
            (Keeps-Since AnyCall I h _ (both-IsStable k conn) (λ g. search only_rules depth 9)))
          (λ e'. Triple-raise e' (λ s c. c))
          (λ _. Triple-pure _ (λ s c. Since-weaken I _ (λ a q. success-Found version a of q) c))
          (λ s c. c)

    check-Found :
        IsOf o conn
        → Triple
            (Since (Found k) h)
            (check env o name conn k)
            (λ k'. Since (Found k') h)
            (λ _. Unit)
    unfolding check
    check-Found of =
        Triple-attempt (λ _. Since (Found k) h) (Since (Found k) h) _ _ _
          (kept (λ g. search only_rules)) (fault-Found "")
          (λ _.
            Triple-attempt (λ _. Since (Found k) h) (Since (Found k) h) _ _ _
              (kept (λ g. search only_rules)) (fault-Found "")
              (λ version.
                Triple-attempt (λ _. Since (λ a. Found k a × Made (Initialized conn) a) h)
                  (Since (Found k) h) _ _ _
                  (Triple-Made AnyCall (Found k) h (Found-IsStable k) _ (Initialized conn) _ tt
                    refl)
                  (fault-Found version) (λ _. success-Triple version _ of) (λ s c. tt))
              (λ s c. tt))
          (λ s c. tt)
      where
        kept :
            {A : Type 0} {m : Exec RelationalDatabaseProvider A}
            → ((g : History) → Keeps (Only AnyCall g) m)
            → Keeps (Since (Found k) h) m
        kept f = Keeps-Since AnyCall (Found k) h _ (Found-IsStable k) f

  pub check_all-Found :
      (name : String) (conns : List ReldbConn) (k : Checks)
      → All (IsOf o) conns
      → Triple
          (Since (Found k) h)
          (check_all env o name conns k)
          (λ k'. Since (Found k') h)
          (λ _. Unit)
  unfolding check_all
  check_all-Found name [] k _ = Triple-pure k (λ s c. c)
  check_all-Found name (conn ∷ conns) k (of, ofs) =
      Triple-attempt (λ k'. Since (Found k') h) (λ _. Unit) _ _ _ (check-Found name conn k of)
        (λ e. Triple-raise e (λ s c. c)) (λ k'. check_all-Found name conns k' ofs) (λ s c. c)
