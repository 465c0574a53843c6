-- ===== src/Request/Present.antt =====
-- The calls for the service and the secret of a request.
use dbaas_controller.Cluster.Held.{Triple-holding, With, Triple-read, Triple-under}
use dbaas_controller.Request.Named.{
  Named, service_key-Named, own_secret_key-Named, handle_service-Holds, handle_secret-Holds,
}
use dbaas_controller.Api.{ObjectMeta, NamespacedName, DatabaseRequest}
use dbaas_controller.Prelude.{inl, inr, refl, Bool, ◌∷◌, [], ◌≡◌, ap, false, some, arith}
use dbaas_controller.Go.{is_not_found, Result-cases}
use dbaas_controller.Cluster.{Call, Outcome, done, Event, Env, History, attempt}
use dbaas_controller.Cluster.Triple.{
  Triple, Triple-attempt, Triple-wrapping, Triple-pure, Triple-raise, Triple-if, Triple-raised,
}
use dbaas_controller.Cluster.Order.{only_rules}
use dbaas_controller.Cluster.Since.{
  Since, IsStable, Made-IsStable, Triple-kept, Triple-called, Triple-Made, Triple-step, And,
}
use dbaas_controller.Request.Obtained.{faulted}
use dbaas_controller.Request.Cleared.{AnyCall}
use dbaas_controller.Request.LiveCalls.{set_ready-Only}
use dbaas_controller.Request.Info.{DbInfo}
use dbaas_controller.Request.Faults.{reconcile_status, prom_labels}
use dbaas_controller.Request.Resources.{
  service_key, own_secret_key, deref, create_service, adjust_service, handle_service, create_secret,
  adjust_secret, handle_secret,
}
use dbaas_controller.Request.Reconcile.{provide, finish, observe_generation}

-- An object goes by the key.
abbrev HasKey : ObjectMeta → NamespacedName → Type 0
HasKey meta key = (meta.name ≡ key.name) × (meta.namespace ≡ key.namespace)

abbrev ServiceThereBy : DatabaseRequest → Call → Outcome → Type 0
ServiceThereBy r (Call.get_service key) done = key ≡ service_key r
ServiceThereBy r (Call.create_service x) done = HasKey x.meta (service_key r)
ServiceThereBy r _ _ = ⊥

-- The service of the request was there, or was created.
abbrev pub ServiceThere : DatabaseRequest → Event → Type 0
ServiceThere r e = ServiceThereBy r e.call e.outcome

abbrev SecretThereBy : DatabaseRequest → Call → Outcome → Type 0
SecretThereBy r (Call.get_secret key) done = key ≡ own_secret_key r
SecretThereBy r (Call.create_secret x) done = HasKey x.meta (own_secret_key r)
SecretThereBy r _ _ = ⊥

-- The secret of the request was there, or was created.
abbrev pub SecretThere : DatabaseRequest → Event → Type 0
SecretThere r e = SecretThereBy r e.call e.outcome

abbrev UpdatedBy : DatabaseRequest → Call → Outcome → Type 0
UpdatedBy r (Call.update_request x) done =
    Named r x × (x.status.observed_generation ≡ x.meta.generation)
UpdatedBy r _ _ = ⊥

-- The request was updated, with its generation as the observed one.
abbrev pub Updated : DatabaseRequest → Event → Type 0
Updated r e = UpdatedBy r e.call e.outcome

module _ (env : Env) (h : History) (r : DatabaseRequest) where
  module _ (Q : History → Type 0) (st : IsStable AnyCall Q) where
    handle_service-There :
        (i : DbInfo)
        → Triple
            (With (Named r) (Since Q h))
            (handle_service env (some i))
            (λ _. Since (And Q (ServiceThere r)) h)
            (λ _. Unit)
    unfolding handle_service create_service adjust_service deref
    handle_service-There i = Triple-read (Named r) _ (λ o n. Triple-under (Named r) _ (
        Triple-attempt (λ _. Since (And Q (ServiceThere r)) h) (Since Q h) _ _ _
          (Triple-Made AnyCall Q h st _ (ServiceThere r) _ tt (service_key-Named r o n))
          (λ e.
            Triple-if (is_not_found e) _ _
              (λ _.
                Triple-step h Q Q _ _ _ (Triple-kept Q h _ st (λ g. search only_rules))
                  Triple-raised
                  (λ _.
                    Triple-step h Q Q _ _ _ (Triple-kept Q h _ st (λ g. search only_rules))
                      Triple-raised
                      (λ _.
                        Triple-step h Q (And Q (ServiceThere r)) _ _ _
                          (Triple-wrapping _ _ (
                            Triple-called Q h _ (ServiceThere r) _ st (
                              ap (λ (k : NamespacedName). k.name) (service_key-Named r o n),
                              ap (λ (k : NamespacedName). k.namespace) (service_key-Named r o n),
                            )))
                          Triple-raised (λ _. Triple-pure false (λ s c. c)))))
              (λ _. Triple-raise _ (λ s c. tt)))
          (λ x.
            Triple-kept (And Q (ServiceThere r)) h _ (Made-IsStable AnyCall Q (ServiceThere r) st)
              (λ g. search only_rules depth 14))
          (λ s c. tt)))

    handle_secret-There :
        (i : DbInfo)
        → Triple
            (With (Named r) (Since Q h))
            (handle_secret env (some i))
            (λ _. Since (And Q (SecretThere r)) h)
            (λ _. Unit)
    unfolding handle_secret create_secret adjust_secret deref
    handle_secret-There i = Triple-read (Named r) _ (λ o n. Triple-under (Named r) _ (
        Triple-attempt (λ _. Since (And Q (SecretThere r)) h) (Since Q h) _ _ _
          (Triple-Made AnyCall Q h st _ (SecretThere r) _ tt (own_secret_key-Named r o n))
          (λ e.
            Triple-if (is_not_found e) _ _
              (λ _.
                Triple-step h Q Q _ _ _ (Triple-kept Q h _ st (λ g. search only_rules))
                  Triple-raised
                  (λ _.
                    Triple-step h Q Q _ _ _ (Triple-kept Q h _ st (λ g. search only_rules))
                      Triple-raised
                      (λ _.
                        Triple-step h Q (And Q (SecretThere r)) _ _ _
                          (Triple-wrapping _ _ (
                            Triple-called Q h _ (SecretThere r) _ st (
                              ap (λ (k : NamespacedName). k.name) (own_secret_key-Named r o n),
                              ap (λ (k : NamespacedName). k.namespace) (own_secret_key-Named r o n),
                            )))
                          Triple-raised (λ _. Triple-pure false (λ s c. c)))))
              (λ _. Triple-raise _ (λ s c. tt)))
          (λ x.
            Triple-kept (And Q (SecretThere r)) h _ (Made-IsStable AnyCall Q (SecretThere r) st)
              (λ g. search only_rules depth 14))
          (λ s c. tt)))

  module _ (Q : History → Type 0) (st : IsStable AnyCall Q) where
    finish-Updated :
        (b : Bool)
        → Triple
            (With (Named r) (Since Q h))
            (finish env b)
            (λ _. Since (And Q (Updated r)) h)
            (λ _. Unit)
    unfolding finish observe_generation attempt
    finish-Updated b = record {
      at = λ s (j, c).
          let gauge : Event = record {
            call = Call.set_gauge reconcile_status (prom_labels s.object "") 1;
            outcome = done;
          } in
          let x : DatabaseRequest = observe_generation s.object in
          let update : Event = record { call = Call.update_request x; outcome = done } in
          elim (Result-cases (env.update_request (gauge ∷ s.history) x).1) [
            | inl (u, e) ↦ rw e (
                (Triple-kept (And Q (Updated r)) h _ (Made-IsStable AnyCall Q (Updated r) st)
                    (λ g. set_ready-Only env (omega arith) (omega arith) (omega arith) b)).at
                  _
                  (record {
                    added = update ∷ gauge ∷ c.added;
                    grows = ap (λ (l : History). update ∷ gauge ∷ l) c.grows;
                    holds = (
                      st.extend (update ∷ gauge ∷ []) c.added (tt, (tt, tt)) c.holds,
                      inl (j.it, refl),
                    );
                  }))
            | inr (inl (f, e)) ↦ rw e tt
            | inr (inr e) ↦ rw e tt
          ];
    }

  module _ (Q : History → Type 0) (st : IsStable AnyCall Q) where
    pub provide-There :
        (i : DbInfo)
        → Triple
            (With (Named r) (Since Q h))
            (provide env (some i))
            (λ _. Since (And (And (And Q (ServiceThere r)) (SecretThere r)) (Updated r)) h)
            (λ _. Unit)
    unfolding provide
    provide-There i =
        let stable = Made-IsStable AnyCall Q (ServiceThere r) st in
        Triple-attempt (λ _. With (Named r) (Since (And Q (ServiceThere r)) h)) (λ _. Unit) _ _ _
          (Triple-holding (Named r) _ (handle_service-Holds env (some i))
            (handle_service-There Q st i))
          (faulted env h _)
          (λ b.
            Triple-attempt
              (λ _. With (Named r) (Since (And (And Q (ServiceThere r)) (SecretThere r)) h))
              (λ _. Unit) _ _ _
              (Triple-holding (Named r) _ (handle_secret-Holds env (some i))
                (handle_secret-There (And Q (ServiceThere r)) stable i))
              (faulted env h _)
              (λ c.
                finish-Updated (And (And Q (ServiceThere r)) (SecretThere r))
                  (Made-IsStable AnyCall (And Q (ServiceThere r)) (SecretThere r) stable) _)
              (λ s c. c))
          (λ s c. c)
