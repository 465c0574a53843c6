-- ===== src/Request/Content.antt =====
-- What the service and the secret of a request hold after `handleService` and `handleSecret`.
use dbaas_controller.Prelude.{
  ◌≡◌, refl, Bool, true, String, ◌==◌, ◌⊎◌, inl, inr, Bool-cases, some, [], ◌∷◌,
}
use dbaas_controller.Go.{Result-cases, is_not_found, ok}
use dbaas_controller.Api.{DatabaseRequest, Dict, Secret, Service}
use dbaas_controller.Cluster.{Call, Outcome, done, failed, Event, Env, Run, History, attempt}
use dbaas_controller.Cluster.Triple.{After, After-ok}
use dbaas_controller.Cluster.Order.{Made}
use dbaas_controller.Cluster.Since.{Since}
use dbaas_controller.Request.Safety.{quiet}
use dbaas_controller.Request.Info.{DbInfo}
use dbaas_controller.Request.Resources.{
  deref, new_secret, new_service, secret_content, own_secret_key, create_secret, adjust_secret,
  handle_secret, service_key, create_service, adjust_service, handle_service,
}

abbrev SecretWrittenBy : Dict String → Call → Outcome → Type 0
SecretWrittenBy content (Call.create_secret x) done = x.content ≡ content
SecretWrittenBy content (Call.update_secret x) done = x.content ≡ content
SecretWrittenBy content _ _ = ⊥

-- A secret with the content was created or updated.
abbrev pub SecretWritten : Dict String → Event → Type 0
SecretWritten content e = SecretWrittenBy content e.call e.outcome

abbrev ServiceWrittenBy : String → Call → Outcome → Type 0
ServiceWrittenBy host (Call.create_service x) done =
    (x.external_name ≡ host) × (x.type ≡ "ExternalName")
ServiceWrittenBy host (Call.update_service x) done = x.external_name ≡ host
ServiceWrittenBy host _ _ = ⊥

-- A service that stands for the host was created or updated.
abbrev pub ServiceWritten : String → Event → Type 0
ServiceWritten host e = ServiceWrittenBy host e.call e.outcome

module _ (env : Env) (i : DbInfo) where
  -- The secret of the request holds the connection data: it was written, or needs no change.
  abbrev pub HasSecret : DatabaseRequest → History → Run DatabaseRequest → Type 0
  HasSecret o h t =
      Since (Made (SecretWritten (secret_content o i))) h t
      ⊎ ((x : Secret) × (env.get_secret h (own_secret_key o) ≡ ok x)
          × ((env.diff x.content (secret_content o i) == "") ≡ true))

  -- The service of the request stands for the host: it was written, or needs no change.
  abbrev pub HasService : DatabaseRequest → History → Run DatabaseRequest → Type 0
  HasService o h t =
      Since (Made (ServiceWritten i.host_name)) h t
      ⊎ ((x : Service) × (env.get_service h (service_key o) ≡ ok x)
          × ((x.external_name == i.host_name) ≡ true))

  -- The history after the read and the event
  abbrev reported : String → String → Call → Outcome → History → History
  reported reason note c outcome h =
      quiet (Call.record_event "Normal" reason note) ∷ record { call = c; outcome = outcome } ∷ h

  handle_secret-After :
      (s : Run DatabaseRequest)
      → After
          (λ _. HasSecret s.object s.history)
          (λ _. Unit)
          (handle_secret env (some i) s).0
          (handle_secret env (some i) s).1
  unfolding handle_secret create_secret adjust_secret deref attempt
  handle_secret-After s = elim (Result-cases (env.get_secret s.history (own_secret_key s.object))) [
    | inl (x, e) ↦ rw e (elim (Bool-cases (env.diff x.content (secret_content s.object i) == "")) [
      | inl same ↦ rw same (inr (x, e, same))
      | inr other ↦
          rw other
            (elim (Result-cases (
              env.update_secret
                (reported "UpdateSecret" "Updating secret"
                  (Call.get_secret (own_secret_key s.object)) done s.history)
                (record x { content = secret_content s.object i }))) [
                  | inl (u, w) ↦
                      rw w (inl (record { added = _ ∷ _ ∷ _ ∷ []; grows = refl; holds = inl refl }))
                  | inr (inl (f, w)) ↦ rw w tt
                  | inr (inr w) ↦ rw w tt
                ])
    ])
    | inr (inl (f, e)) ↦ rw e (elim (Bool-cases (is_not_found f)) [
      | inl absent ↦
          rw absent
            (elim (Result-cases (
              env.create_secret
                (reported "CreateSecret" "Creating secret"
                  (Call.get_secret (own_secret_key s.object)) (failed f) s.history)
                (new_secret s.object i))) [
                  | inl (u, w) ↦
                      rw w (inl (record { added = _ ∷ _ ∷ _ ∷ []; grows = refl; holds = inl refl }))
                  | inr (inl (f', w)) ↦ rw w tt
                  | inr (inr w) ↦ rw w tt
                ])
      | inr other ↦ rw other tt
    ])
    | inr (inr e) ↦ rw e tt
  ]

  handle_service-After :
      (s : Run DatabaseRequest)
      → After
          (λ _. HasService s.object s.history)
          (λ _. Unit)
          (handle_service env (some i) s).0
          (handle_service env (some i) s).1
  unfolding handle_service create_service adjust_service deref attempt
  handle_service-After s = elim (Result-cases (env.get_service s.history (service_key s.object))) [
    | inl (x, e) ↦ rw e (elim (Bool-cases (x.external_name == i.host_name)) [
      | inl same ↦ rw same (inr (x, e, same))
      | inr other ↦
          rw other
            (elim (Result-cases (
              env.update_service
                (reported "UpdateService" "Updating service"
                  (Call.get_service (service_key s.object)) done s.history)
                (record x { external_name = i.host_name }))) [
                  | inl (u, w) ↦
                      rw w (inl (record { added = _ ∷ _ ∷ _ ∷ []; grows = refl; holds = inl refl }))
                  | inr (inl (f, w)) ↦ rw w tt
                  | inr (inr w) ↦ rw w tt
                ])
    ])
    | inr (inl (f, e)) ↦ rw e (elim (Bool-cases (is_not_found f)) [
      | inl absent ↦
          rw absent
            (elim (Result-cases (
              env.create_service
                (reported "CreateService" "Creating service"
                  (Call.get_service (service_key s.object)) (failed f) s.history)
                (new_service s.object i))) [
                  | inl (u, w) ↦ rw w (
                      inl
                        (record { added = _ ∷ _ ∷ _ ∷ []; grows = refl; holds = inl (refl, refl) }))
                  | inr (inl (f', w)) ↦ rw w tt
                  | inr (inr w) ↦ rw w tt
                ])
      | inr other ↦ rw other tt
    ])
    | inr (inr e) ↦ rw e tt
  ]

  -- If the handling of the secret returns, then a secret with the connection data of the request was
  -- created or updated, or the cluster has one that does not differ from them.
  pub handle_secret-HasSecret :
      (s : Run DatabaseRequest) (changed : Bool)
      → (handle_secret env (some i) s).0 ≡ ok changed
      → HasSecret s.object s.history (handle_secret env (some i) s).1
  handle_secret-HasSecret s changed e =
      After-ok (λ _. HasSecret s.object s.history) (λ _. Unit) _ _ changed e (handle_secret-After s)

  -- If the handling of the service returns, then a service that stands for the host of the database
  -- was created or updated, or the cluster has one.
  pub handle_service-HasService :
      (s : Run DatabaseRequest) (changed : Bool)
      → (handle_service env (some i) s).0 ≡ ok changed
      → HasService s.object s.history (handle_service env (some i) s).1
  handle_service-HasService s changed e =
      After-ok (λ _. HasService s.object s.history) (λ _. Unit) _ _ changed e
        (handle_service-After s)
