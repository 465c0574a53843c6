-- ===== src/MongoProvider/Ready.antt =====
-- The success of a MongoDB provider's reconciliation: unique names, and an enabled connection that answers.
use dbaas_controller.Prelude.{
  ◌≡◌, refl, sym, String, ◌==◌, Bool, true, false, not, inl, inr, Bool-cases, List, [], ◌∷◌, ◌++◌,
  length, nat_eq, All, arith, ◌<>◌, if◌then◌else◌, false-is-not-true,
}
use dbaas_controller.Go.{ok, new_error}
use dbaas_controller.Api.{NamespacedName, MongoDbConnection, MongoDbProvider}
use dbaas_controller.Cluster.{Run, History, raise, attempt}
use dbaas_controller.Cluster.Triple.{
  Assertion, Triple, After-ok, Triple-attempt, Triple-if, Triple-pure, Triple-raise, Triple-weaken,
}
use dbaas_controller.Cluster.Order.{only_rules}
use dbaas_controller.Cluster.Since.{Triple-kept, Since, IsStable, Since-weaken, Since-refl}
use dbaas_controller.Request.Lowest.{OneOf, All-OneOf}
use dbaas_controller.Request.Providers.{password_of}
use dbaas_controller.Provider.Connections.{Checks, no_checks, add_name}
use dbaas_controller.Provider.Names.{keys, Distinct, nat_eq_sound, keys-Distinct}
use dbaas_controller.Provider.Checked.{AnyCall}
use dbaas_controller.MongoProvider.Faults.{MongoEnv, handle_error}
use dbaas_controller.MongoProvider.Connections.{
  MongoDbConn, mongodb_conn, read_mongodb_connections, check_all_mongodb,
}
use dbaas_controller.MongoProvider.Reconcile.{
  set_mongodb_reconciled, conclude_mongodb, reconcile_mongodb_connections,
}
use dbaas_controller.MongoProvider.Checked.{
  IsMongoOf, Answers, Answers-IsStable, handle_error-Triple, Found, Found-IsStable,
  check_all_mongodb-Found,
}

abbrev pub mongodb_connection_name : MongoDbConnection → String
mongodb_connection_name c = c.name

abbrev keys_of : MongoDbProvider → List String
keys_of o = keys mongodb_connection_name o.spec.connections []

-- As many names as connections
abbrev pub DistinctNames : MongoDbProvider → Type 0
DistinctNames o = Distinct mongodb_connection_name o.spec.connections

counted :
    (o : MongoDbProvider)
    → nat_eq (length (keys_of o)) (length o.spec.connections) ≡ true
    → DistinctNames o
counted o e =
    let same : length (keys_of o) ≡ length o.spec.connections = nat_eq_sound _ _ e in
    (keys-Distinct mongodb_connection_name o.spec.connections [] (omega arith)).0

module _ (env : MongoEnv) (o : MongoDbProvider) (h : History) where
  -- The loop returns the keys of the map and connections of the provider.
  abbrev IsRead : List String → List String × List MongoDbConn → Assertion MongoDbProvider
  IsRead ns (ns', conns) t = Since (λ a. Unit) h t × (ns' ≡ ns) × All (IsMongoOf o) conns

  All-append :
      (xs ys : List MongoDbConn)
      → All (IsMongoOf o) xs
      → All (IsMongoOf o) ys
      → All (IsMongoOf o) (xs ++ ys)
  All-append [] ys _ b = b
  All-append (x ∷ xs) ys (p, ps) b = (p, All-append xs ys ps b)

  any-IsStable : IsStable AnyCall (λ a. Unit {0})
  any-IsStable = record { extend = λ b a p q. tt }

  read-IsRead :
      (cs : List MongoDbConnection) (ns : List String) (conns : List MongoDbConn)
      → All (λ c. OneOf c o.spec.connections) cs
      → All (IsMongoOf o) conns
      → Triple
          (Since (λ a. Unit) h)
          (read_mongodb_connections env o cs ns conns)
          (IsRead (keys mongodb_connection_name cs ns))
          (λ _. Unit)
  unfolding read_mongodb_connections keys
  read-IsRead [] ns conns _ made = Triple-pure _ (λ s k. (k, refl, made))
  read-IsRead (c ∷ cs) ns conns (among, more) made =
      Triple-attempt (λ _. Since (λ a. Unit) h) (λ _. Unit) _ _ _
        (Triple-attempt (λ _. Since (λ a. Unit) h) (λ _. Unit) _ _ _
          (Triple-kept (λ a. Unit) h _ any-IsStable (λ g. search only_rules))
          (λ e. handle_error-Triple env _ e) (λ x. Triple-pure x (λ s k. k)) (λ s k. tt))
        (λ e. Triple-raise e (λ s k. tt))
        (λ secret.
          Triple-if (password_of secret == "") _ _ (λ _. handle_error-Triple env _ _)
            (λ _. read-IsRead cs (add_name c.name ns) _ more (
              All-append conns (mongodb_conn c (password_of secret) ∷ []) made (
                record {
                  connection = c;
                  listed = among;
                  password = password_of secret;
                  made = refl;
                },
                tt,
              ))))
        (λ s k. tt)

  module _ (key : NamespacedName) (conns : List MongoDbConn) (k : Checks) where
    found-Answers :
        k.found_enabled ≡ true
        → Triple
            (Since (Found env o h k) h)
            (set_mongodb_reconciled env key)
            (λ _. Since (Answers o) h)
            (λ _. Unit)
    unfolding set_mongodb_reconciled
    found-Answers found =
        Triple-weaken (Since (Answers o) h) _ _ _
          (λ s c. Since-weaken (Found env o h k) (Answers o) (λ a f. f found) c) (λ _ s c. c)
          (λ s c. c)
          (Triple-kept (Answers o) h _ (Answers-IsStable o) (λ g. search only_rules depth 14))

    conclude-Answers :
        Triple
          (Since (Found env o h k) h)
          (conclude_mongodb env key conns k)
          (λ _. Since (Answers o) h)
          (λ _. Unit)
    unfolding conclude_mongodb
    conclude-Answers =
        Triple-attempt (λ _. Since (Found env o h k) h) (λ _. Unit) _ _ _
          (Triple-kept _ h _ (Found-IsStable env o h k) (λ g. search only_rules))
          (λ e. Triple-raise e (λ s c. c))
          (λ o'.
            Triple-attempt (λ _. Since (Found env o h k) h) (λ _. Unit) _ _ _
              (Triple-kept _ h _ (Found-IsStable env o h k) (λ g. search only_rules))
              (λ e. Triple-raise e (λ s c. c))
              (λ _.
                Triple-if (nat_eq (length k.errors) (length conns)) _ _
                  (λ _. handle_error-Triple env _ _)
                  (λ _.
                    Triple-if (not k.found_enabled) _ _ (λ _. handle_error-Triple env _ _)
                      (λ e. found-Answers (not_false k.found_enabled e))))
              (λ s c. c))
          (λ s c. c)
      where
        not_false : (b : Bool) → not b ≡ false → b ≡ true
        not_false true e = refl
        not_false false e = sym e

  abbrev IsReady : Assertion MongoDbProvider
  IsReady t = DistinctNames o × Since (Answers o) h t

  module _ (key : NamespacedName) where
    checked-IsReady :
        (conns : List MongoDbConn)
        → DistinctNames o
        → All (IsMongoOf o) conns
        → Triple
            (Since (λ a. Unit) h)
            (attempt
              (check_all_mongodb env o conns no_checks)
              raise
              (conclude_mongodb env key conns))
            (λ _. IsReady)
            (λ _. Unit)
    checked-IsReady conns distinct made =
        Triple-weaken _ (λ _. Since (Answers o) h) (λ _. Unit) _
          (λ s c.
            Since-weaken (λ a. Unit) (Found env o h no_checks)
              (λ a u e. absurd (false-is-not-true e)) c)
          (λ _ s c. (distinct, c)) (λ s c. tt)
          (Triple-attempt (λ k. Since (Found env o h k) h) (λ _. Unit) _ _ _
            (check_all_mongodb-Found env o h conns no_checks made) (λ e. Triple-raise e (λ s c. c))
            (λ k. conclude-Answers key conns k) (λ s c. c))

    after_read :
        (p : List String × List MongoDbConn)
        → Triple
            (IsRead (keys_of o) p)
            (if not (nat_eq (length p.0) (length o.spec.connections))
              then handle_error env "dunique-name-error" (
                  new_error ("connection names are not unique for MongoDBProvider " <> o.meta.name))
              else attempt
                  (check_all_mongodb env o p.1 no_checks)
                  raise
                  (conclude_mongodb env key p.1))
            (λ _. IsReady)
            (λ _. Unit)
    after_read (names, conns) = record {
      at = λ t (c, same, made).
          elim (Bool-cases (nat_eq (length names) (length o.spec.connections))) [
            | inl e ↦ rw e ((checked-IsReady conns (counted o (rw same at e)) made).at t c)
            | inr e ↦ rw e ((handle_error-Triple {pre = Since (λ a. Unit) h} env _ _).at t c)
          ];
    }

module _ (env : MongoEnv) where
  -- If the part of a MongoDB provider's reconciliation from its connections on returns without an error,
  -- then no two connections of the provider have one name, and the server of an enabled connection of the
  -- provider answered a ping and told its version in it.
  pub reconcile_mongodb_connections-Answers :
      (key : NamespacedName) (s : Run MongoDbProvider)
      → (reconcile_mongodb_connections env key s).0 ≡ ok tt
      → DistinctNames s.object
        × Since (Answers s.object) s.history (reconcile_mongodb_connections env key s).1
  unfolding reconcile_mongodb_connections attempt
  reconcile_mongodb_connections-Answers key s e =
      let o = s.object in
      let h = s.history in
      After-ok (λ _. IsReady env o h) (λ _. Unit) _ _ tt e
        ((Triple-attempt (IsRead env o h (keys_of o)) (λ _. Unit) _ _ _
            (read-IsRead env o h o.spec.connections [] []
              (All-OneOf _ o.spec.connections (λ c m. m)) tt)
            (λ x. Triple-raise x (λ t c. c)) (after_read env o h key) (λ t c. c)).at
          s (Since-refl (λ a. Unit) s tt))
