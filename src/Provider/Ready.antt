-- ===== src/Provider/Ready.antt =====
-- The success of a provider's reconciliation: unique names, and an enabled connection that works.
use dbaas_controller.Prelude.{true-is-not-false}
use dbaas_controller.Prelude.{
  ◌≡◌, refl, sym, ◌∙◌, ap, String, ◌==◌, Bool, true, false, not, inl, inr, Bool-cases, List, [],
  ◌∷◌, ◌++◌, length, nat_eq, All, arith, ◌⊎◌, ◌<>◌, if◌then◌else◌,
}
use dbaas_controller.Go.{ok, new_error}
use dbaas_controller.Api.{NamespacedName, Connection, RelationalDatabaseProvider}
use dbaas_controller.Cluster.{Env, Run, Exec, History, raise, attempt}
use dbaas_controller.Cluster.Triple.{
  Assertion, Triple, Keeps, After-ok, Triple-attempt, Triple-if, Triple-pure, Triple-raise,
  Triple-weaken,
}
use dbaas_controller.Cluster.Order.{Only, only_rules}
use dbaas_controller.Cluster.Since.{Since, IsStable, Keeps-Since, Since-weaken, Since-refl}
use dbaas_controller.Conn.{ReldbConn}
use dbaas_controller.Request.Lowest.{OneOf, All-OneOf}
use dbaas_controller.Request.Providers.{password_of}
use dbaas_controller.Provider.Faults.{handle_error}
use dbaas_controller.Provider.Connections.{
  Checks, no_checks, full_conn, add_name, read_connections, check_all,
}
use dbaas_controller.Provider.Names.{connection_name, keys, Distinct, nat_eq_sound, keys-Distinct}
use dbaas_controller.Provider.Reconcile.{set_reconciled, conclude, reconcile_connections}
use dbaas_controller.Provider.Checked.{
  AnyCall, IsOf, Works, Found, Found-IsStable, handle_error-Triple, check_all-Found,
}

module _ (env : Env) (o : RelationalDatabaseProvider) (h : History) where
  -- The loop returns the keys of the map and connections of the provider.
  abbrev IsRead : List String → List String × List ReldbConn → Assertion RelationalDatabaseProvider
  IsRead ns (ns', conns) t = Since (λ a. Unit) h t × (ns' ≡ ns) × All (IsOf o) conns

  All-append :
      (xs ys : List ReldbConn) → All (IsOf o) xs → All (IsOf o) ys → All (IsOf o) (xs ++ ys)
  All-append [] ys _ b = b
  All-append (x ∷ xs) ys (p, ps) b = (p, All-append xs ys ps b)

  any-IsStable : IsStable AnyCall (λ a. Unit {0})
  any-IsStable = record { extend = λ b a p q. tt }

  read_connections-IsRead :
      (cs : List Connection) (ns : List String) (conns : List ReldbConn)
      → All (λ c. OneOf c o.spec.connections) cs
      → All (IsOf o) conns
      → Triple
          (Since (λ a. Unit) h)
          (read_connections env o cs ns conns)
          (IsRead (keys connection_name cs ns))
          (λ _. Unit)
  unfolding read_connections keys
  read_connections-IsRead [] ns conns _ made = Triple-pure _ (λ s k. (k, refl, made))
  read_connections-IsRead (c ∷ cs) ns conns (among, more) made =
      Triple-attempt (λ _. Since (λ a. Unit) h) (λ _. Unit) _ _ _
        (Triple-attempt (λ _. Since (λ a. Unit) h) (Since (λ a. Unit) h) _ _ _
          (Keeps-Since AnyCall (λ a. Unit) h _ any-IsStable (λ g. search only_rules))
          (λ e. handle_error-Triple env o h _ e) (λ x. Triple-pure x (λ s k. k)) (λ s k. tt))
        (λ e. Triple-raise e (λ s k. tt))
        (λ secret.
          Triple-if (password_of secret == "") _ _ (λ _. handle_error-Triple env o h _ _)
            (λ _. read_connections-IsRead cs (add_name c.name ns) _ more (
              All-append conns (full_conn o.spec.type c (password_of secret) ∷ []) made (
                record {
                  connection = c;
                  listed = among;
                  password = password_of secret;
                  made = refl;
                },
                tt,
              ))))
        (λ s k. tt)

  not-false : (b : Bool) → not b ≡ false → b ≡ true
  not-false true e = refl
  not-false false e = sym e

  abbrev all_found : Checks
  all_found = record no_checks { found_enabled = true }

  Works-IsStable : IsStable AnyCall (Works o)
  Works-IsStable = record {
    extend = λ b a p w. (Found-IsStable env o h all_found).extend b a p (λ e. w) refl;
  }

  set_reconciled-Works : (key : NamespacedName) → Keeps (Since (Works o) h) (set_reconciled env key)
  unfolding set_reconciled
  set_reconciled-Works key =
      Keeps-Since AnyCall (Works o) h _ Works-IsStable (λ g. search only_rules depth 14)

  module _ (key : NamespacedName) (conns : List ReldbConn) (k : Checks) where
    lift_kept :
        {A : Type 0} {m : Exec RelationalDatabaseProvider A}
        → ((g : History) → Keeps (Only AnyCall g) m)
        → Triple (Since (Found env o h k) h) m (λ _. Since (Found env o h k) h) (λ _. Unit)
    lift_kept f =
        Triple-weaken _ (λ _. Since (Found env o h k) h) (Since (Found env o h k) h) _ (λ s c. c)
          (λ _ s c. c) (λ s c. tt)
          (Keeps-Since AnyCall (Found env o h k) h _ (Found-IsStable env o h k) f)

    found-Works :
        k.found_enabled ≡ true
        → Triple
            (Since (Found env o h k) h)
            (set_reconciled env key)
            (λ _. Since (Works o) h)
            (λ _. Unit)
    found-Works found =
        Triple-weaken (Since (Works o) h) (λ _. Since (Works o) h) (Since (Works o) h) _
          (λ s c. Since-weaken (Found env o h k) (Works o) (λ a f. f found) c) (λ _ s c. c)
          (λ s c. tt) (set_reconciled-Works key)

    conclude-Works :
        Triple
          (Since (Found env o h k) h)
          (conclude env key conns k)
          (λ _. Since (Works o) h)
          (λ _. Unit)
    unfolding conclude
    conclude-Works =
        Triple-attempt (λ _. Since (Found env o h k) h) (λ _. Unit) _ _ _
          (lift_kept (λ g. search only_rules)) (λ e. Triple-raise e (λ s c. c))
          (λ o'.
            Triple-attempt (λ _. Since (Found env o h k) h) (λ _. Unit) _ _ _
              (lift_kept (λ g. search only_rules)) (λ e. Triple-raise e (λ s c. c))
              (λ _.
                Triple-if (nat_eq (length k.errors) (length conns)) _ _
                  (λ _. handle_error-Triple env o h _ _)
                  (λ _.
                    Triple-if (not k.found_enabled) _ _ (λ _. handle_error-Triple env o h _ _)
                      (λ e. found-Works (not-false k.found_enabled e))))
              (λ s c. c))
          (λ s c. c)

  abbrev IsReady : Assertion RelationalDatabaseProvider
  IsReady t = Distinct connection_name o.spec.connections × Since (Works o) h t

  module _ (key : NamespacedName) where
    checked-IsReady :
        (conns : List ReldbConn)
        → Distinct connection_name o.spec.connections
        → All (IsOf o) conns
        → Triple
            (Since (λ a. Unit) h)
            (attempt (check_all env o key.name conns no_checks) raise (conclude env key conns))
            (λ _. IsReady)
            (λ _. Unit)
    checked-IsReady conns distinct made =
        Triple-weaken _ (λ _. Since (Works o) h) (λ _. Unit) _
          (λ s c.
            Since-weaken (λ a. Unit) (Found env o h no_checks)
              (λ a u e. absurd (true-is-not-false (sym e))) c)
          (λ _ s c. (distinct, c)) (λ s c. tt)
          (Triple-attempt (λ k. Since (Found env o h k) h) (λ _. Unit) _ _ _
            (check_all-Found env o h key.name conns no_checks made) (λ e. Triple-raise e (λ s c. c))
            (λ k. conclude-Works key conns k) (λ s c. c))

    read-IsReady :
        (names : List String) (conns : List ReldbConn)
        → names ≡ keys connection_name o.spec.connections []
        → All (IsOf o) conns
        → ((nat_eq (length names) (length o.spec.connections) ≡ true)
            ⊎ (nat_eq (length names) (length o.spec.connections) ≡ false))
        → Triple
            (Since (λ a. Unit) h)
            (if not (nat_eq (length names) (length o.spec.connections))
              then handle_error env
                  (o.spec.type <> "-unique-name-error")
                  (new_error (o.spec.type <> " database connections must have unique names"))
              else attempt
                  (check_all env o key.name conns no_checks)
                  raise
                  (conclude env key conns))
            (λ _. IsReady)
            (λ _. Unit)
    read-IsReady names conns e made (inl same) = rw same (
        checked-IsReady conns
          (let counted : length (keys connection_name o.spec.connections [])
                ≡ length o.spec.connections =
              ap (λ (l : List String). length l) (sym e) ∙ nat_eq_sound _ _ same in
            keys-Distinct connection_name o.spec.connections [] (omega arith)).0
          made)
    read-IsReady names conns e made (inr other) = rw other (handle_error-Triple env o h _ _)

module _ (env : Env) where
  -- If the part of a provider's reconciliation from its connections on returns without an error, then
  -- no two connections of the provider have one name, and the database client initialized the server
  -- of an enabled connection of the provider in it.
  pub reconcile_connections-Works :
      (key : NamespacedName) (s : Run RelationalDatabaseProvider)
      → (reconcile_connections env key s).0 ≡ ok tt
      → Distinct connection_name s.object.spec.connections
        × Since (Works s.object) s.history (reconcile_connections env key s).1
  unfolding reconcile_connections attempt
  reconcile_connections-Works key s e =
      let o = s.object in
      let h = s.history in
      After-ok (λ _. IsReady env o h) (λ _. Unit) _ _ tt e
        ((Triple-attempt (IsRead env o h (keys connection_name o.spec.connections [])) (λ _. Unit) _
            _ _
            (read_connections-IsRead env o h o.spec.connections [] []
              (All-OneOf _ o.spec.connections (λ c m. m)) tt)
            (λ x. Triple-raise x (λ t c. c)) (after_read o h) (λ t c. c)).at
          s (Since-refl (λ a. Unit) s tt))
    where
      after_read :
          (o : RelationalDatabaseProvider) (h : History) (p : List String × List ReldbConn)
          → Triple
              (IsRead env o h (keys connection_name o.spec.connections []) p)
              (if not (nat_eq (length p.0) (length o.spec.connections))
                then handle_error env
                    (o.spec.type <> "-unique-name-error")
                    (new_error (o.spec.type <> " database connections must have unique names"))
                else attempt (check_all env o key.name p.1 no_checks) raise (conclude env key p.1))
              (λ _. IsReady env o h)
              (λ _. Unit)
      after_read o h (names, conns) = record {
        at = λ t (c, same, made).
            (read-IsReady env o h key names conns same made (Bool-cases _)).at t c;
      }
