-- ===== src/Request/Written.antt =====
-- The service, the secret and the end of a reconciliation in a cluster that answers.
use dbaas_controller.Prelude.{
  ap, ◌∙◌, String, ◌==◌, Bool, true, false, ◌||◌, inl, inr, List, some, ◌≡◌, if◌then◌else◌,
}
use dbaas_controller.Go.{Error, Result, ok, is_not_found}
use dbaas_controller.Api.{
  DatabaseRequestSpec, Secret, Service, DatabaseRequest, RelationalDatabaseProvider,
}
use dbaas_controller.Cluster.{Call, Env, History, Exec, call, pure, raise, attempt, wrapping}
use dbaas_controller.Cluster.Returning.{
  Returns, Returns-pure, Returns-call, Returns-call_object, Returns-if, Returns-weaken,
  Returns-attempt, Returns-read, Returns-wrapping, Returns-put_object, Returns-emit,
}
use dbaas_controller.Request.Info.{DbInfo}
use dbaas_controller.Request.Faults.{update_status}
use dbaas_controller.Request.Resources.{
  deref, secret_content, create_service, adjust_service, handle_service, create_secret,
  adjust_secret, handle_secret,
}
use dbaas_controller.Request.Reconcile.{
  set_conditions, observe_generation, report, set_ready, finish, provide,
}
use dbaas_controller.Request.Serving.{FoundOrMissing, ClusterServes}

-- The request still asks for what it asked.
abbrev pub Has : DatabaseRequestSpec → DatabaseRequest → Type 0
Has spec o = o.spec ≡ spec

-- A read that finds the object or misses it, and then the rest
found_then :
    {P : DatabaseRequest → Type 0} {A B : Type 0} {Q : B → DatabaseRequest → Type 0} (c : Call)
    (answer : History → Result A) (handle : Error → Exec DatabaseRequest B)
    (next : A → Exec DatabaseRequest B)
    → ((h : History) → FoundOrMissing (answer h))
    → ((e : Error) → is_not_found e ≡ true → Returns P (handle e) Q)
    → ((a : A) → Returns P (next a) Q)
    → Returns P (attempt (call c answer) handle next) Q
unfolding attempt
found_then c answer handle next k missing found = record {
  at = λ s p. elim (k s.history) [
    | inl (a, e) ↦ rw e ((found a).at _ p)
    | inr (x, e, m) ↦ rw e ((missing x m).at _ p)
  ];
}

module _ (env : Env) (ps : List RelationalDatabaseProvider) (cluster : ClusterServes env ps) where
  accepted :
      {P : DatabaseRequest → Type 0} (prefix : String) (c : Call)
      (answer : History → Result (Unit {0})) (b : Bool)
      → ((h : History) → answer h ≡ ok tt)
      → Returns P (attempt (wrapping prefix (call c answer)) raise (λ _. pure b)) (λ _. P)
  accepted {P} prefix c answer b k =
      Returns-attempt _ _ _ _
        (Returns-wrapping prefix _ (
          Returns-call {P = P} {Q = λ u. Unit} _ c answer
            (record { value = λ h. tt; given = k; holds = λ h. tt })))
        (λ _. Returns-pure b (λ o p. p.0))

  deref-Returns : {P : DatabaseRequest → Type 0} (i : DbInfo) → Returns P (deref (some i)) (λ _. P)
  unfolding deref
  deref-Returns i = Returns-pure i (λ o p. p)

  create_service-Returns :
      {P : DatabaseRequest → Type 0} (i : DbInfo) (x : DatabaseRequest)
      → Returns P (create_service env (some i) x) (λ _. P)
  unfolding create_service
  create_service-Returns {P} i x =
      Returns-attempt (λ _. P) _ _ _ (Returns-emit _)
        (λ _.
          Returns-attempt (λ _. P) _ _ _ (deref-Returns i)
            (λ j. accepted _ _ _ false (λ h. cluster.service_created h _)))

  adjust_service-Returns :
      {P : DatabaseRequest → Type 0} (i : DbInfo) (x : DatabaseRequest) (service : Service)
      → Returns P (adjust_service env (some i) x service) (λ _. P)
  unfolding adjust_service
  adjust_service-Returns {P} i x service =
      Returns-attempt (λ _. P) _ _ _ (deref-Returns i)
        (λ j.
          Returns-if (service.external_name == j.host_name) _ _ (λ _. Returns-pure false (λ o p. p))
            (λ _.
              Returns-attempt (λ _. P) _ _ _ (Returns-emit _)
                (λ _. accepted _ _ _ true (λ h. cluster.service_updated h _))))

  create_secret-Returns :
      {P : DatabaseRequest → Type 0} (i : DbInfo) (x : DatabaseRequest)
      → Returns P (create_secret env (some i) x) (λ _. P)
  unfolding create_secret
  create_secret-Returns {P} i x =
      Returns-attempt (λ _. P) _ _ _ (Returns-emit _)
        (λ _.
          Returns-attempt (λ _. P) _ _ _ (deref-Returns i)
            (λ j. accepted _ _ _ false (λ h. cluster.secret_created h _)))

  adjust_secret-Returns :
      {P : DatabaseRequest → Type 0} (i : DbInfo) (x : DatabaseRequest) (secret : Secret)
      → Returns P (adjust_secret env (some i) x secret) (λ _. P)
  unfolding adjust_secret
  adjust_secret-Returns {P} i x secret =
      Returns-attempt (λ _. P) _ _ _ (deref-Returns i)
        (λ j.
          Returns-if (env.diff secret.content (secret_content x j) == "") _ _
            (λ _. Returns-pure false (λ o p. p))
            (λ _.
              Returns-attempt (λ _. P) _ _ _ (Returns-emit _)
                (λ _. accepted _ _ _ true (λ h. cluster.secret_updated h _))))

  handle_service-Returns :
      (spec : DatabaseRequestSpec) (i : DbInfo)
      → Returns (Has spec) (handle_service env (some i)) (λ _. Has spec)
  unfolding handle_service
  handle_service-Returns spec i = Returns-read _ _ (λ x e.
      Returns-weaken {Q = λ _ o. o ≡ x} _ (λ a o k. ap (λ (y : DatabaseRequest). y.spec) k ∙ e)
        (found_then _ _ _ _ (λ h. cluster.services h _)
          (λ f missing. rw missing (create_service-Returns i x)) (adjust_service-Returns i x)))

  handle_secret-Returns :
      (spec : DatabaseRequestSpec) (i : DbInfo)
      → Returns (Has spec) (handle_secret env (some i)) (λ _. Has spec)
  unfolding handle_secret
  handle_secret-Returns spec i = Returns-read _ _ (λ x e.
      Returns-weaken {Q = λ _ o. o ≡ x} _ (λ a o k. ap (λ (y : DatabaseRequest). y.spec) k ∙ e)
        (found_then _ _ _ _ (λ h. cluster.secrets h _)
          (λ f missing. rw missing (create_secret-Returns i x)) (adjust_secret-Returns i x)))

  report-Returns :
      (spec : DatabaseRequestSpec) (b : Bool) → Returns (Has spec) (report env b) (λ _. Has spec)
  report-Returns spec true = Returns-emit _
  report-Returns spec false = Returns-emit _

  status_then-Returns :
      (spec : DatabaseRequestSpec) (c : Bool) (handle : Error → Exec DatabaseRequest (Unit {0}))
      (next : Exec DatabaseRequest (Unit {0}))
      → Returns (Has spec) next (λ _. Has spec)
      → Returns
          (Has spec)
          (if c then attempt (update_status env) handle (λ _. next) else next)
          (λ _. Has spec)
  status_then-Returns spec c handle next k =
      Returns-if c _ _
        (λ _.
          Returns-attempt (λ _. Has spec) (update_status env) handle (λ _. next)
            (Returns-call_object _ _
              (λ h o e. let (a, same, _) = cluster.statuses h o in (tt, a, same ∙ e)))
            (λ _. k))
        (λ _. k)

  set_ready-Returns :
      (spec : DatabaseRequestSpec) (b : Bool) → Returns (Has spec) (set_ready env b) (λ _. Has spec)
  unfolding set_ready set_conditions
  set_ready-Returns spec b = Returns-read _ _ (λ x e.
      Returns-attempt (λ _. Has spec) _ _ _ (Returns-put_object _ (λ o p. e))
        (λ _. status_then-Returns spec _ _ _ (report-Returns spec b)))

  finish-Returns :
      (spec : DatabaseRequestSpec) (b : Bool) → Returns (Has spec) (finish env b) (λ _. Has spec)
  unfolding finish observe_generation
  finish-Returns spec b = Returns-read _ _ (λ x e.
      Returns-attempt (λ _. Has spec) _ _ _
        (Returns-weaken _ (λ a o k. ap (λ (y : DatabaseRequest). y.spec) k ∙ e)
          (Returns-emit {P = λ o. o ≡ x} _))
        (λ _.
          Returns-attempt (λ _. Has spec) _ _ _ (Returns-put_object _ (λ o p. e))
            (λ _.
              Returns-attempt (λ _. Has spec) _ _ _
                (Returns-call_object _ _
                  (λ h o e. let (a, same) = cluster.updates h o in (tt, a, same ∙ e)))
                (λ _. set_ready-Returns spec b))))

  pub provide-Returns :
      (spec : DatabaseRequestSpec) (i : DbInfo)
      → Returns (Has spec) (provide env (some i)) (λ _. Has spec)
  unfolding provide
  provide-Returns spec i =
      Returns-attempt (λ _. Has spec) _ _ _ (handle_service-Returns spec i)
        (λ c.
          Returns-attempt (λ _. Has spec) _ _ _ (handle_secret-Returns spec i)
            (λ d. finish-Returns spec (c || d)))
